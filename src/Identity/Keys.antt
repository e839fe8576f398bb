-- ===== src/Identity/Keys.antt =====
-- Key pairs of src/identity.rs: generation, signatures, the shared secret, fixed-size decoding.
pub mod Laws
use trino_core.Prelude.{
  ℕ, zero, suc, ◌≡◌, Option, some, none, Result, ok, err, ok_or, ◌==◌, if◌then◌else◌, not, Bool,
  true, false, ◌++◌, Bytes, length, ◌>>=◌, ◌&&◌,
}
use trino_core.Primitives.{Primitives, Rng}
use trino_core.Crypto.{CryptoError, random_array, random_bytes, from_hex}

pub data IdentityError : Type 0 where
  invalid_length invalid_signature hex_decode_failed : IdentityError
  crypto : CryptoError → IdentityError

pub record KeyPair : Type 0 where
  pub priv_bytes : Bytes
  pub pub_bytes : Bytes

module _ (p : Primitives) where
  unfoldable pub generate_ed25519 : Rng → KeyPair × Rng
  generate_ed25519 r =
      let (seed, r') = p.ed25519_generate r in
      (record { priv_bytes = seed; pub_bytes = p.ed25519_public seed }, r')

  unfoldable pub generate_x25519 : Rng → KeyPair × Rng
  generate_x25519 r =
      let (priv_bytes, r') = random_array 32 r in
      (
        record { priv_bytes = p.x25519_secret priv_bytes; pub_bytes = p.x25519_public priv_bytes },
        r',
      )

  -- The `loop` of `generate_nostr_keypair`, on fuel: it draws until a secret key is accepted.
  unfoldable pub generate_nostr_keypair : ℕ → Rng → Option KeyPair × Rng
  generate_nostr_keypair zero r = (none, r)
  generate_nostr_keypair (suc fuel) r =
      let (priv_bytes, r') = random_array 32 r in
      let again = generate_nostr_keypair fuel r' in
      elim (p.x_only_public priv_bytes) [
        | none ↦ again
        | some x_only ↦ (some (record { priv_bytes = priv_bytes; pub_bytes = x_only }), r')
      ]

  abbrev pub ed25519_sign : KeyPair → Bytes → Bytes
  ed25519_sign kp msg = p.ed25519_signature kp.priv_bytes msg

  unfoldable pub ed25519_verify : Bytes → Bytes → Bytes → Bool
  ed25519_verify pub_bytes msg signature =
      if not (p.ed25519_accepts_key pub_bytes)
      then false
      else if not (p.ed25519_accepts_signature signature)
      then false
      else p.ed25519_check pub_bytes msg signature

  -- A shared secret that is not contributory is replaced by random bytes.
  unfoldable pub x25519_derive_shared : Bytes → Bytes → Rng → Bytes × Rng
  x25519_derive_shared our_priv peer_pub r =
      let shared = p.diffie_hellman our_priv peer_pub in
      if not (p.was_contributory shared) then random_array 32 r else (shared, r)

  -- `decode_array_32` and `decode_array_64`, by the length.
  decode_array : ℕ → Bytes → Result IdentityError Bytes
  decode_array n s = do
    v ← ok_or (from_hex p s) hex_decode_failed
    if not (length v == n) then err invalid_length else ok v

  unfoldable pub decode_array_32 : Bytes → Result IdentityError Bytes
  unfolding decode_array
  decode_array_32 s = decode_array 32 s

  unfoldable pub decode_array_64 : Bytes → Result IdentityError Bytes
  unfolding decode_array
  decode_array_64 s = decode_array 64 s
