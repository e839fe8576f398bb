-- ===== src/Group/Honest.antt =====
-- An honest admin's changes go through: well-formed identities are bound members, and what the
-- admin signs is valid.
use trino_core.Prelude.{
  ℕ, ◌<◌, ◌≤◌, ◌≡◌, refl, Option, some, none, ok, leb, true, List, [], ◌∷◌, Bytes, AreBytes, All,
  length, bytes_eq_refl, Distinct, arith,
}
use trino_core.Primitives.{Primitives, Rng, HexLaws, SignatureLaws, IsLowerHex, is_hex_digit}
use trino_core.Crypto.{to_hex, random_array}
use trino_core.Identity.Keys.{KeyPair, ed25519_sign}
use trino_core.Identity.Keys.Laws.{IsEd25519, ed25519_verify-sign}
use trino_core.Identity.Prekeys.{Identity}
use trino_core.Identity.Bundle.{public_bundle_for, identity_signing_bytes}
use trino_core.Identity.Bundle.Laws.{IsWellFormed, verify_bundle_binding-public}
use trino_core.Group.Roster.{
  JsonPrinter, FileRef, MemberBundle, GroupRoster, is_canonical_hex, all_bytes, from_public_bundle,
  to_public_bundle, member_is_bound, decode_exact, is_signed, member_keys, has_key, is_member,
  validate_roster, max_group_members, roster_signing_bytes,
}
use trino_core.Group.Roster.Validity.{validate_roster_iff}
use trino_core.Group.Changes.{sign_unsigned_ok}
use trino_core.Group.{signed_roster, sign_unsigned, create_group}

all_bytes-IsLowerHex : (s : Bytes) → IsLowerHex s → all_bytes is_hex_digit s ≡ true
all_bytes-IsLowerHex [] h = refl
all_bytes-IsLowerHex (b ∷ s) h = let rest = all_bytes-IsLowerHex s h.1 in ground (arith, h.0, rest)

module _ (p : Primitives) (hex : HexLaws p) (signing : SignatureLaws p) where
  is_canonical_hex-to_hex :
      (v : Bytes) (n : ℕ) → AreBytes v → length v ≡ n → is_canonical_hex (to_hex p v) n ≡ true
  unfolding is_canonical_hex
  is_canonical_hex-to_hex v n b e =
      let digits = all_bytes-IsLowerHex (to_hex p v) (hex.encode-IsLowerHex v b) in
      ground (arith, digits, hex.length-encode v)

  decode_exact-to_hex :
      (v : Bytes) (n : ℕ) → AreBytes v → length v ≡ n → decode_exact p n (to_hex p v) ≡ some v
  unfolding decode_exact
  decode_exact-to_hex v n b e = ground (arith, hex.decode-encode v b)

  signature_canonical :
      (kp : KeyPair) (msg : Bytes) → is_canonical_hex (to_hex p (ed25519_sign p kp msg)) 64 ≡ true
  signature_canonical kp msg =
      is_canonical_hex-to_hex (ed25519_sign p kp msg) 64
        (signing.signature-AreBytes kp.priv_bytes msg) (signing.length-signature kp.priv_bytes msg)

  key_canonical :
      (kp : KeyPair) → IsEd25519 p kp → is_canonical_hex (to_hex p kp.pub_bytes) 32 ≡ true
  key_canonical kp e =
      is_canonical_hex-to_hex kp.pub_bytes 32 (rw e (signing.public-AreBytes kp.priv_bytes))
        (rw e (signing.length-public kp.priv_bytes))

  -- The member that a well-formed identity makes of its bundle binds its own keys.
  pub member_is_bound-public :
      (handle : Bytes) (identity : Identity)
      → IsWellFormed p identity
      → member_is_bound p (from_public_bundle handle (public_bundle_for p identity)) ≡ true
  unfolding member_is_bound from_public_bundle to_public_bundle public_bundle_for
  member_is_bound-public handle identity w =
      let prekey : is_canonical_hex (to_hex p identity.signed_prekey.signature) 64 ≡ true =
        rw w.prekey.signed
          (signature_canonical identity.ik_sign identity.signed_prekey.keypair.pub_bytes) in
      rw
        (
          key_canonical identity.ik_sign w.sign,
          is_canonical_hex-to_hex identity.ik_dh.pub_bytes 32 w.dh_array.0 w.dh_array.1,
          is_canonical_hex-to_hex identity.nostr.pub_bytes 32 w.nostr_array.0 w.nostr_array.1,
          is_canonical_hex-to_hex identity.signed_prekey.keypair.pub_bytes 32 w.prekey.array.0
              w.prekey.array.1,
          prekey,
          signature_canonical identity.ik_sign
              (identity_signing_bytes identity.ik_dh.pub_bytes identity.nostr.pub_bytes),
        )
        (verify_bundle_binding-public p hex signing identity w).1

  module _ (print : JsonPrinter) (admin : Identity) (key : IsEd25519 p admin.ik_sign) where
    signed-is_signed :
        (group_id name : Bytes) (photo : Option FileRef) (members : List MemberBundle) (epoch : ℕ)
        → is_signed p print (
            signed_roster p print group_id name photo
              (to_hex p admin.ik_sign.pub_bytes)
              members
              epoch
              admin)
          ≡ true
    unfolding is_signed
    signed-is_signed group_id name photo members epoch =
        let msg =
          roster_signing_bytes print group_id name photo (to_hex p admin.ik_sign.pub_bytes) members
            epoch in
        let public =
          decode_exact-to_hex admin.ik_sign.pub_bytes 32
            (rw key (signing.public-AreBytes admin.ik_sign.priv_bytes))
            (rw key (signing.length-public admin.ik_sign.priv_bytes)) in
        let sig =
          decode_exact-to_hex (ed25519_sign p admin.ik_sign msg) 64
            (signing.signature-AreBytes admin.ik_sign.priv_bytes msg)
            (signing.length-signature admin.ik_sign.priv_bytes msg) in
        rw (is_signed, public, sig, ed25519_verify-sign p signing admin.ik_sign msg key)

    -- What the admin signs is valid, if its members make a valid roster and the admin is one.
    pub sign_unsigned_total :
        (group_id name : Bytes) (photo : Option FileRef) (members : List MemberBundle) (epoch : ℕ)
        → 0 < length members
        → length members ≤ max_group_members
        → has_key (to_hex p admin.ik_sign.pub_bytes) members ≡ true
        → Distinct (member_keys members)
        → All (λ m. member_is_bound p m ≡ true) members
        → sign_unsigned p print group_id name photo
            (to_hex p admin.ik_sign.pub_bytes)
            members
            epoch
            admin
          ≡ ok (
              signed_roster p print group_id name photo
                (to_hex p admin.ik_sign.pub_bytes)
                members
                epoch
                admin)
    unfolding sign_unsigned is_member
    sign_unsigned_total group_id name photo members epoch a b c d e =
        let fits : leb (length members) max_group_members ≡ true = ground arith in
        let valid =
          (validate_roster_iff p print (
              signed_roster p print group_id name photo (to_hex p admin.ik_sign.pub_bytes) members
                epoch admin)).1
            (record {
              inhabited = a;
              bounded = b;
              admin = c;
              distinct = d;
              bound = e;
              signed = signed-is_signed group_id name photo members epoch;
            }) in
        rw (fits, valid)

  -- Given what the hex and ed25519 crates promise, a well-formed identity whose three public
  -- keys differ creates a group: the roster is valid, has the identity as its only member, and
  -- starts at epoch 0.
  pub create_group_total :
      (print : JsonPrinter) (admin : Identity) (handle name : Bytes) (r : Rng)
      → IsWellFormed p admin
      → let me = from_public_bundle handle (public_bundle_for p admin) in
        Distinct (member_keys (me ∷ []))
        → (roster : GroupRoster) × (create_group p print admin me name r
            ≡ (ok roster, (random_array 32 r).1))
          × (validate_roster p print roster ≡ ok tt)
          × (roster.members ≡ (me ∷ []))
          × (roster.epoch ≡ 0)
  unfolding create_group from_public_bundle public_bundle_for has_key
  create_group_total print admin handle name r w d =
      let me = from_public_bundle handle (public_bundle_for p admin) in
      let own : has_key (to_hex p admin.ik_sign.pub_bytes) (me ∷ []) ≡ true =
        rw (bytes_eq_refl (to_hex p admin.ik_sign.pub_bytes)) in
      let bound : All (λ m. member_is_bound p m ≡ true) (me ∷ []) =
        (member_is_bound-public handle admin w, tt) in
      let group_id = to_hex p (random_array 32 r).0 in
      let made =
        sign_unsigned_total print admin w.sign group_id name none (me ∷ []) 0 (omega arith)
          (omega arith) own d bound in
      (
        signed_roster p print group_id name none (to_hex p admin.ik_sign.pub_bytes) (me ∷ []) 0
            admin,
        rw made,
        (sign_unsigned_ok p print group_id name none _ (me ∷ []) 0 admin _ made).1,
        refl,
        refl,
      )
