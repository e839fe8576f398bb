-- ===== src/Vault/Serial/Laws.antt =====
-- An identity comes back from what src/vault.rs stores of it.
use trino_core.Prelude.{
  ℕ, ◌≡◌, refl, Option, none, some, ok, List, [], ◌∷◌, map, Bytes, AreBytes, All, length,
}
use trino_core.Prelude.Int.{ℤ}
use trino_core.Primitives.{Primitives, HexLaws}
use trino_core.Identity.Keys.{KeyPair}
use trino_core.Identity.Keys.Laws.{decode_array_32-to_hex, decode_array_64-to_hex}
use trino_core.Identity.Prekeys.{SignedPreKey, RetiredSignedPreKey, OneTimePreKey, Identity}
use trino_core.Vault.Serial.{
  SerializedSignedPreKey, SerializedIdentity, kp_to_ser, prekey_to_ser, one_time_to_ser,
  serialize_identity, kp_from_ser, prekey_from_ser, one_times_from_ser, retired_from_ser,
  deserialize_identity, legacy_retired_at, or_else,
}

abbrev pub IsArrayOf : ℕ → Bytes → Type 0
IsArrayOf n b = AreBytes b × (length b ≡ n)

abbrev pub IsKeyPair : KeyPair → Type 0
IsKeyPair kp = IsArrayOf 32 kp.priv_bytes × IsArrayOf 32 kp.pub_bytes

abbrev pub IsPrekey : SignedPreKey → Type 0
IsPrekey k = IsKeyPair k.keypair × IsArrayOf 64 k.signature

-- All keys and signatures of an identity are arrays of their sizes.
pub record IsSized (identity : Identity) : Type 0 where
  pub ik_sign : IsKeyPair identity.ik_sign
  pub ik_dh : IsKeyPair identity.ik_dh
  pub nostr : IsKeyPair identity.nostr
  pub signed_prekey : IsPrekey identity.signed_prekey
  pub one_time_prekeys : All (λ o. IsKeyPair o.keypair) identity.one_time_prekeys
  pub retired_signed_prekeys : All (λ r. IsPrekey r.prekey) identity.retired_signed_prekeys

-- What is stored, with or without the times of retirement.
pub stored_as :
    Primitives → (RetiredSignedPreKey → Option ℤ) → Identity → Bytes → SerializedIdentity
stored_as p stored identity totp_secret = record (serialize_identity p identity totp_secret) {
  retired_signed_pre_keys =
      map (λ r. prekey_to_ser p r.prekey (stored r)) identity.retired_signed_prekeys;
}

module _ (p : Primitives) (hex : HexLaws p) where
  kp_lem : (kp : KeyPair) → IsKeyPair kp → kp_from_ser p (kp_to_ser p kp) ≡ ok kp
  unfolding kp_from_ser
  kp_lem kp (a, b) = rw (
    decode_array_32-to_hex p hex kp.priv_bytes a.0 a.1,
    decode_array_32-to_hex p hex kp.pub_bytes b.0 b.1,
  )

  prekey_lem :
      (k : SignedPreKey) (t : Option ℤ)
      → IsPrekey k
      → prekey_from_ser p (prekey_to_ser p k t) ≡ ok k
  unfolding prekey_from_ser
  prekey_lem k t (a, b) = rw (kp_lem k.keypair a, decode_array_64-to_hex p hex k.signature b.0 b.1)

  one_times_lem :
      (os : List OneTimePreKey)
      → All (λ o. IsKeyPair o.keypair) os
      → one_times_from_ser p (map (one_time_to_ser p) os) ≡ ok os
  unfolding one_times_from_ser
  one_times_lem [] h = refl
  one_times_lem (o ∷ os) h = rw (kp_lem o.keypair h.0, one_times_lem os h.1)

  module _ (stored : RetiredSignedPreKey → Option ℤ) (all : List SerializedSignedPreKey)
      (current : SerializedSignedPreKey) where
    -- The retirement time that is read back, stored or not.
    pub retired_lem :
        (rs : List RetiredSignedPreKey)
        → All (λ r. IsPrekey r.prekey) rs
        → All
            (λ r. or_else (stored r) (legacy_retired_at r.prekey.id all current) ≡ r.retired_at)
            rs
        → retired_from_ser p all current (map (λ r. prekey_to_ser p r.prekey (stored r)) rs) ≡ ok rs
    unfolding retired_from_ser
    retired_lem [] h t = refl
    retired_lem (r ∷ rs) h t = rw (prekey_lem r.prekey (stored r) h.0, retired_lem rs h.1 t.1, t.0)

  pub stored_lem :
      (stored : RetiredSignedPreKey → Option ℤ) (identity : Identity) (totp_secret : Bytes)
      → IsSized identity
      → AreBytes totp_secret
      → All
          (λ r.
            or_else (stored r) (
              legacy_retired_at r.prekey.id
                (map (λ r. prekey_to_ser p r.prekey (stored r)) identity.retired_signed_prekeys)
                (prekey_to_ser p identity.signed_prekey none))
            ≡ r.retired_at)
          identity.retired_signed_prekeys
      → deserialize_identity p (stored_as p stored identity totp_secret)
        ≡ ok (identity, totp_secret)
  unfolding deserialize_identity serialize_identity stored_as
  stored_lem stored identity totp_secret v b t = rw (
    kp_lem identity.ik_sign v.ik_sign,
    kp_lem identity.ik_dh v.ik_dh,
    kp_lem identity.nostr v.nostr,
    prekey_lem identity.signed_prekey none v.signed_prekey,
    one_times_lem identity.one_time_prekeys v.one_time_prekeys,
    retired_lem stored
        (map (λ r. prekey_to_ser p r.prekey (stored r)) identity.retired_signed_prekeys)
        (prekey_to_ser p identity.signed_prekey none) identity.retired_signed_prekeys
        v.retired_signed_prekeys t,
    hex.decode-encode totp_secret b,
  )

  times_kept : (rs : List RetiredSignedPreKey) → All (λ r. r.retired_at ≡ r.retired_at) rs
  times_kept [] = tt
  times_kept (r ∷ rs) = (refl, times_kept rs)

  -- Given what the hex crate promises, an identity whose keys and signatures have their sizes
  -- comes back from its serialization as it was, and the secret with it.
  pub deserialize_identity-serialize_identity :
      (identity : Identity) (totp_secret : Bytes)
      → IsSized identity
      → AreBytes totp_secret
      → deserialize_identity p (serialize_identity p identity totp_secret)
        ≡ ok (identity, totp_secret)
  unfolding stored_as serialize_identity
  deserialize_identity-serialize_identity identity totp_secret v b =
      stored_lem (λ r. some r.retired_at) identity totp_secret v b
        (times_kept identity.retired_signed_prekeys)
