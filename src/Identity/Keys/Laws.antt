-- ===== src/Identity/Keys/Laws.antt =====
-- Round trips of fixed-size decoding, signatures that verify, and agreement on shared secrets.
use trino_core.Prelude.{◌≡◌, true, ok, Bytes, AreBytes, length, arith, some}
use trino_core.Primitives.{Primitives, Rng, HexLaws, SignatureLaws, CurveLaws}
use trino_core.Crypto.{to_hex, random_bytes}
use trino_core.Identity.Keys.{
  KeyPair, decode_array_32, decode_array_64, ed25519_sign, ed25519_verify, generate_x25519,
  x25519_derive_shared,
}

module _ (p : Primitives) where
  module _ (hex : HexLaws p) where
    pub decode_array_32-to_hex :
        (v : Bytes) → AreBytes v → length v ≡ 32 → decode_array_32 p (to_hex p v) ≡ ok v
    unfolding decode_array_32
    decode_array_32-to_hex v b h = ground (arith, hex.decode-encode v b)

    pub decode_array_64-to_hex :
        (v : Bytes) → AreBytes v → length v ≡ 64 → decode_array_64 p (to_hex p v) ≡ ok v
    unfolding decode_array_64
    decode_array_64-to_hex v b h = ground (arith, hex.decode-encode v b)

  pub length-decode_array_32 :
      (s v : Bytes) → decode_array_32 p s ≡ ok v → (length v ≡ 32) × (p.hex_decode s ≡ some v)
  unfolding decode_array_32
  length-decode_array_32 s v h = ground arith

  -- A key pair whose public half belongs to its private half.
  abbrev pub IsEd25519 : KeyPair → Type 0
  IsEd25519 kp = kp.pub_bytes ≡ p.ed25519_public kp.priv_bytes

  abbrev pub IsX25519 : KeyPair → Type 0
  IsX25519 kp = kp.pub_bytes ≡ p.x25519_public kp.priv_bytes

  pub ed25519_verify-sign :
      SignatureLaws p
      → (kp : KeyPair) (msg : Bytes) → IsEd25519 kp
      → ed25519_verify p kp.pub_bytes msg (ed25519_sign p kp msg) ≡ true
  unfolding ed25519_verify
  ed25519_verify-sign laws kp msg e = ground (
    arith,
    laws.accepts_key kp.priv_bytes,
    laws.length-signature kp.priv_bytes msg,
    laws.accepts_signature (ed25519_sign p kp msg),
    laws.verifies kp.priv_bytes msg,
  )

  pub generate_x25519-IsX25519 : CurveLaws p → (r : Rng) → IsX25519 (generate_x25519 p r).0
  unfolding generate_x25519
  generate_x25519-IsX25519 laws r = ground (arith, laws.secret-bytes (random_bytes 32 r).0)

  -- A contributory secret is handed out, and no random bytes are drawn.
  pub x25519_derive_shared_lem :
      (a b : Bytes) (r : Rng)
      → p.was_contributory (p.diffie_hellman a b) ≡ true
      → x25519_derive_shared p a b r ≡ (p.diffie_hellman a b, r)
  unfolding x25519_derive_shared
  x25519_derive_shared_lem a b r c = rw c

  -- Given what the x25519 crate promises, two key pairs that each belong together, and whose
  -- shared secret is contributory, give both sides this secret, and no random bytes are drawn.
  pub x25519_derive_shared_agree :
      CurveLaws p
      → (a b : KeyPair) (r r' : Rng) → IsX25519 a
      → IsX25519 b
      → p.was_contributory (p.diffie_hellman a.priv_bytes b.pub_bytes) ≡ true
      → (x25519_derive_shared p a.priv_bytes b.pub_bytes r
          ≡ (p.diffie_hellman a.priv_bytes b.pub_bytes, r))
        × (x25519_derive_shared p b.priv_bytes a.pub_bytes r'
            ≡ (p.diffie_hellman a.priv_bytes b.pub_bytes, r'))
  unfolding x25519_derive_shared
  x25519_derive_shared_agree laws a b r r' ea eb c =
      ground (arith, laws.agree a.priv_bytes b.priv_bytes)
