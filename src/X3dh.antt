-- ===== src/X3dh.antt =====
-- src/x3dh.rs: the handshake from which both sides get the same master secret.
pub mod Agreement
pub mod Exchange
pub mod Opening
pub mod OneTime
use trino_core.Prelude.{
  ℕ, Option, some, none, Result, ok, err, ok_or, map_err, not, if◌then◌else◌, List, [], ◌∷◌, ◌++◌,
  Bytes, codes, Action,
}
use trino_core.Prelude.Steps.{◌>>=◌, pure, fail, lift, gets, on_first, draw}
use trino_core.Primitives.{Primitives, Rng}
use trino_core.Crypto.{CryptoError, concat, to_hex, hkdf_expand}
use trino_core.Identity.Keys.{
  KeyPair, IdentityError, decode_array_32, generate_x25519, x25519_derive_shared,
}
use trino_core.Identity.Prekeys.{
  Identity, OneTimePreKey, signed_prekey_by_id, consume_one_time_prekey,
}
use trino_core.Identity.Bundle.{PublicBundle, verify_bundle}
use trino_core.Ratchet.State.{zero_salt}

abbrev pub hkdf_salt : Bytes
hkdf_salt = zero_salt

abbrev pub hkdf_info : Bytes
hkdf_info = codes "trino-x3dh-v1"

pub data X3dhError : Type 0 where
  invalid_bundle : X3dhError
  unknown_spk unknown_opk : ℕ → X3dhError
  identity_error : IdentityError → X3dhError
  crypto_error : CryptoError → X3dhError

pub record InitialMessage : Type 0 where
  pub ik_dh_pub : Bytes
  pub ek_pub : Bytes
  pub spk_id : ℕ
  pub opk_id : Option ℕ

pub record InitiatorResult : Type 0 where
  pub master_secret : Bytes
  pub message : InitialMessage
  pub associated_data : Bytes

pub record ResponderResult : Type 0 where
  pub master_secret : Bytes
  pub associated_data : Bytes
  pub spk_keypair : KeyPair

-- A draw of random bytes.
abbrev pub roll : {E A : Type 0} → (Rng → A × Rng) → Action Rng E A
roll f r = let (a, r') = f r in (ok a, r')

-- An operation on the identity alone that may find nothing.
abbrev pub find_or :
    {E A : Type 0} → (Identity → Option A × Identity) → E → Action (Identity × Rng) E A
find_or f e (identity, r) = let (found, identity') = f identity in (ok_or found e, (identity', r))

module _ (p : Primitives) where
  abbrev derive_master : Bytes → Result X3dhError Bytes
  derive_master dh_inputs = map_err crypto_error (hkdf_expand p dh_inputs hkdf_salt hkdf_info 32)

  abbrev array_32 : Bytes → Result X3dhError Bytes
  array_32 s = map_err identity_error (decode_array_32 p s)

  -- After the signature check of `initiate`.
  unfoldable pub initiate_verified : Identity → PublicBundle → Action Rng X3dhError InitiatorResult
  initiate_verified ours theirs = do
    their_ik_dh_pub ← lift (array_32 theirs.ik_dh_pub)
    their_spk_pub ← lift (array_32 theirs.spk_pub)
    ek ← roll (generate_x25519 p)
    dh1 ← roll (x25519_derive_shared p ours.ik_dh.priv_bytes their_spk_pub)
    dh2 ← roll (x25519_derive_shared p ek.priv_bytes their_ik_dh_pub)
    dh3 ← roll (x25519_derive_shared p ek.priv_bytes their_spk_pub)
    master_secret ← lift (derive_master (dh1 ++ dh2 ++ dh3))
    pure (record {
      master_secret = master_secret;
      message = record {
        ik_dh_pub = to_hex p ours.ik_dh.pub_bytes;
        ek_pub = to_hex p ek.pub_bytes;
        spk_id = theirs.spk_id;
        opk_id = none;
      };
      associated_data = concat (ours.ik_dh.pub_bytes ∷ their_ik_dh_pub ∷ []);
    })

  unfoldable pub initiate : Identity → PublicBundle → Action Rng X3dhError InitiatorResult
  initiate ours theirs r =
      if not (verify_bundle p theirs)
      then (err invalid_bundle, r)
      else initiate_verified ours theirs r

  -- The fourth secret, for a message that names a one-time prekey.
  unfoldable pub one_time_secret : Option ℕ → Bytes → Action (Identity × Rng) X3dhError Bytes
  one_time_secret none their_ek_pub = pure []
  one_time_secret (some opk_id) their_ek_pub = do
    opk ← find_or (λ ours. consume_one_time_prekey ours opk_id) (unknown_opk opk_id)
    draw (x25519_derive_shared p opk.keypair.priv_bytes their_ek_pub)

  unfoldable pub respond : InitialMessage → Action (Identity × Rng) X3dhError ResponderResult
  respond msg = do
    ours ← on_first (gets (λ ours. ours))
    spk ← lift (ok_or (signed_prekey_by_id ours msg.spk_id) (unknown_spk msg.spk_id))
    their_ik_dh_pub ← lift (array_32 msg.ik_dh_pub)
    their_ek_pub ← lift (array_32 msg.ek_pub)
    dh1 ← draw (x25519_derive_shared p spk.keypair.priv_bytes their_ik_dh_pub)
    dh2 ← draw (x25519_derive_shared p ours.ik_dh.priv_bytes their_ek_pub)
    dh3 ← draw (x25519_derive_shared p spk.keypair.priv_bytes their_ek_pub)
    dh4 ← one_time_secret msg.opk_id their_ek_pub
    master_secret ← lift (derive_master (dh1 ++ dh2 ++ dh3 ++ dh4))
    pure (record {
      master_secret = master_secret;
      associated_data = concat (their_ik_dh_pub ∷ ours.ik_dh.pub_bytes ∷ []);
      spk_keypair = spk.keypair;
    })
