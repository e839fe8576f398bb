-- ===== src/Identity/Bundle/Laws.antt =====
-- A well-formed identity, and that peers accept the bundle that it publishes.
use trino_core.Prelude.{◌≡◌, true, Bytes, AreBytes, length, ok}
use trino_core.Primitives.{Primitives, HexLaws, SignatureLaws}
use trino_core.Crypto.{to_hex}
use trino_core.Identity.Keys.{KeyPair, ed25519_sign, decode_array_64}
use trino_core.Identity.Keys.Laws.{
  IsEd25519, IsX25519, decode_array_32-to_hex, decode_array_64-to_hex, ed25519_verify-sign,
}
use trino_core.Identity.Prekeys.{SignedPreKey, Identity}
use trino_core.Identity.Bundle.{
  public_bundle_for, verify_bundle, verify_bundle_binding, identity_signing_bytes,
}

-- 32 bytes.
abbrev pub IsArray32 : Bytes → Type 0
IsArray32 b = AreBytes b × (length b ≡ 32)

-- A signed prekey is signed by the identity key over its public half.
pub record IsSignedBy (p : Primitives) (ik_sign : KeyPair) (spk : SignedPreKey) : Type 0 where
  pub array : IsArray32 spk.keypair.pub_bytes
  pub curve : IsX25519 p spk.keypair
  pub signed : spk.signature ≡ ed25519_sign p ik_sign spk.keypair.pub_bytes

-- The keys of an identity have the size of keys, and belong together.
pub record IsWellFormed (p : Primitives) (identity : Identity) : Type 0 where
  pub sign : IsEd25519 p identity.ik_sign
  pub dh : IsX25519 p identity.ik_dh
  pub dh_array : IsArray32 identity.ik_dh.pub_bytes
  pub nostr_array : IsArray32 identity.nostr.pub_bytes
  pub prekey : IsSignedBy p identity.ik_sign identity.signed_prekey

module _ (p : Primitives) (hex : HexLaws p) (signing : SignatureLaws p) where
  sign_array :
      (identity : Identity) → IsWellFormed p identity → IsArray32 identity.ik_sign.pub_bytes
  sign_array identity w = rw w.sign (
    signing.public-AreBytes identity.ik_sign.priv_bytes,
    signing.length-public identity.ik_sign.priv_bytes,
  )

  decode_signature :
      (kp : KeyPair) (msg : Bytes)
      → decode_array_64 p (to_hex p (ed25519_sign p kp msg)) ≡ ok (ed25519_sign p kp msg)
  decode_signature kp msg =
      decode_array_64-to_hex p hex (ed25519_sign p kp msg)
        (signing.signature-AreBytes kp.priv_bytes msg) (signing.length-signature kp.priv_bytes msg)

  -- A published bundle carries a valid signature of its prekey.
  pub verify_bundle-public :
      (identity : Identity)
      → IsWellFormed p identity
      → verify_bundle p (public_bundle_for p identity) ≡ true
  unfolding verify_bundle public_bundle_for
  verify_bundle-public identity w =
      let (sb, sl) = sign_array identity w in
      rw (
        decode_array_32-to_hex p hex identity.ik_sign.pub_bytes sb sl,
        decode_array_32-to_hex p hex identity.signed_prekey.keypair.pub_bytes w.prekey.array.0
            w.prekey.array.1,
        w.prekey.signed,
        decode_signature identity.ik_sign identity.signed_prekey.keypair.pub_bytes,
        ed25519_verify-sign p signing identity.ik_sign identity.signed_prekey.keypair.pub_bytes
            w.sign,
      )

  binding-public :
      (identity : Identity)
      → IsWellFormed p identity
      → verify_bundle p (public_bundle_for p identity) ≡ true
      → verify_bundle_binding p (public_bundle_for p identity) ≡ true
  unfolding verify_bundle_binding public_bundle_for
  binding-public identity w e =
      let (sb, sl) = sign_array identity w in
      rw (
        e,
        decode_array_32-to_hex p hex identity.ik_sign.pub_bytes sb sl,
        decode_array_32-to_hex p hex identity.ik_dh.pub_bytes w.dh_array.0 w.dh_array.1,
        decode_array_32-to_hex p hex identity.nostr.pub_bytes w.nostr_array.0 w.nostr_array.1,
        decode_signature identity.ik_sign
            (identity_signing_bytes identity.ik_dh.pub_bytes identity.nostr.pub_bytes),
        ed25519_verify-sign p signing identity.ik_sign
            (identity_signing_bytes identity.ik_dh.pub_bytes identity.nostr.pub_bytes) w.sign,
      )

  -- Given what the hex and ed25519 crates promise, the bundle of a well-formed identity passes
  -- verify_bundle and verify_bundle_binding.
  pub verify_bundle_binding-public :
      (identity : Identity)
      → IsWellFormed p identity
      → (verify_bundle p (public_bundle_for p identity) ≡ true)
        × (verify_bundle_binding p (public_bundle_for p identity) ≡ true)
  verify_bundle_binding-public identity w =
      (verify_bundle-public identity w, binding-public identity w (verify_bundle-public identity w))
