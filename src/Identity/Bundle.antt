-- ===== src/Identity/Bundle.antt =====
-- The public bundle of src/identity.rs: what an identity publishes, and how a peer verifies it.
pub mod Laws
use trino_core.Prelude.{
  ℕ, Option, some, none, Result, ok, err, not, if◌then◌else◌, Bool, true, false, Bytes, ◌++◌,
}
use trino_core.Primitives.{Primitives}
use trino_core.Crypto.{to_hex}
use trino_core.Identity.Keys.{
  KeyPair, IdentityError, ed25519_sign, ed25519_verify, decode_array_32, decode_array_64,
}
use trino_core.Identity.Prekeys.{Identity}

pub record PublicBundle : Type 0 where
  pub ik_sign_pub : Bytes
  pub ik_dh_pub : Bytes
  pub nostr_pub : Bytes
  pub spk_id : ℕ
  pub spk_pub : Bytes
  pub spk_sig : Bytes
  pub opk_id : Option ℕ
  pub opk_pub : Option Bytes
  pub id_sig : Bytes

unfoldable pub identity_signing_bytes : Bytes → Bytes → Bytes
identity_signing_bytes ik_dh_pub nostr_pub = ik_dh_pub ++ nostr_pub

-- `let Ok(a) = r else { return false }`
abbrev pub if_ok {ℓ κ} : {E : Type ℓ} {A : Type κ} → Result E A → (A → Bool) → Bool
if_ok (ok a) f = f a
if_ok (err e) f = false

module _ (p : Primitives) where
  unfoldable pub public_bundle_for : Identity → PublicBundle
  public_bundle_for identity = record {
    ik_sign_pub = to_hex p identity.ik_sign.pub_bytes;
    ik_dh_pub = to_hex p identity.ik_dh.pub_bytes;
    nostr_pub = to_hex p identity.nostr.pub_bytes;
    spk_id = identity.signed_prekey.id;
    spk_pub = to_hex p identity.signed_prekey.keypair.pub_bytes;
    spk_sig = to_hex p identity.signed_prekey.signature;
    opk_id = none;
    opk_pub = none;
    id_sig = to_hex p (
        ed25519_sign p identity.ik_sign
          (identity_signing_bytes identity.ik_dh.pub_bytes identity.nostr.pub_bytes));
  }

  unfoldable pub verify_bundle : PublicBundle → Bool
  verify_bundle bundle = if_ok (decode_array_32 p bundle.ik_sign_pub) λ ik_sign_pub.
      if_ok (decode_array_32 p bundle.spk_pub) λ spk_pub.
        if_ok (decode_array_64 p bundle.spk_sig) λ sig. ed25519_verify p ik_sign_pub spk_pub sig

  unfoldable pub verify_bundle_binding : PublicBundle → Bool
  verify_bundle_binding bundle =
      if not (verify_bundle bundle)
      then false
      else (if_ok (decode_array_32 p bundle.ik_sign_pub) λ ik_sign_pub.
          if_ok (decode_array_32 p bundle.ik_dh_pub) λ ik_dh_pub.
            if_ok (decode_array_32 p bundle.nostr_pub) λ nostr_pub.
              if_ok (decode_array_64 p bundle.id_sig) λ id_sig.
                ed25519_verify p ik_sign_pub (identity_signing_bytes ik_dh_pub nostr_pub) id_sig)
