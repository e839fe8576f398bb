-- ===== src/Vault/Serial.antt =====
-- What src/vault.rs stores of an identity: the serialized records, and both directions.
pub mod Laws
pub mod Legacy
use trino_core.Prelude.{
  ℕ, Option, none, some, Result, ok, err, ok_or, map_err, Bool, true, false, ltb, if◌then◌else◌,
  List, [], ◌∷◌, map, Bytes, ◌>>=◌,
}
use trino_core.Prelude.Int.{ℤ}
use trino_core.Primitives.{Primitives}
use trino_core.Crypto.{to_hex, from_hex}
use trino_core.Identity.Keys.{KeyPair, IdentityError, decode_array_32, decode_array_64}
use trino_core.Identity.Prekeys.{SignedPreKey, RetiredSignedPreKey, OneTimePreKey, Identity}
use trino_core.Vault.File.{VaultError, bad_payload, identity_failed}

pub record SerializedKeyPair : Type 0 where
  pub priv_hex : Bytes
  pub pub_hex : Bytes

pub record SerializedSignedPreKey : Type 0 where
  pub id : ℕ
  pub keypair : SerializedKeyPair
  pub signature : Bytes
  pub created_at : ℤ
  pub retired_at : Option ℤ

pub record SerializedOneTimePreKey : Type 0 where
  pub id : ℕ
  pub keypair : SerializedKeyPair

pub record SerializedIdentity : Type 0 where
  pub ik_sign : SerializedKeyPair
  pub ik_dh : SerializedKeyPair
  pub nostr : SerializedKeyPair
  pub signed_pre_key : SerializedSignedPreKey
  pub one_time_pre_keys : List SerializedOneTimePreKey
  pub totp_secret : Bytes
  pub retired_signed_pre_keys : List SerializedSignedPreKey

-- The keys with a higher id: the first of those with the lowest one.
-- `.filter(|next| next.id > id).min_by_key(|next| next.id)`
abbrev pub lower_of :
    SerializedSignedPreKey → Option SerializedSignedPreKey → SerializedSignedPreKey
lower_of x none = x
lower_of x (some y) = if ltb y.id x.id then y else x

unfoldable pub next_above : ℕ → List SerializedSignedPreKey → Option SerializedSignedPreKey
next_above id [] = none
next_above id (x ∷ xs) =
    if ltb id x.id then some (lower_of x (next_above id xs)) else next_above id xs

abbrev pub snoc : List SerializedSignedPreKey → SerializedSignedPreKey → List SerializedSignedPreKey
snoc [] y = y ∷ []
snoc (x ∷ xs) y = x ∷ snoc xs y

unfoldable pub legacy_retired_at : ℕ → List SerializedSignedPreKey → SerializedSignedPreKey → ℤ
unfolding next_above
legacy_retired_at id retired current = elim (next_above id (snoc retired current)) [
  | none ↦ current.created_at
  | some next ↦ next.created_at
]

abbrev pub or_else : Option ℤ → ℤ → ℤ
or_else none other = other
or_else (some t) other = t

module _ (p : Primitives) where
  abbrev pub kp_to_ser : KeyPair → SerializedKeyPair
  kp_to_ser kp = record { priv_hex = to_hex p kp.priv_bytes; pub_hex = to_hex p kp.pub_bytes }

  abbrev pub prekey_to_ser : SignedPreKey → Option ℤ → SerializedSignedPreKey
  prekey_to_ser k retired_at = record {
    id = k.id;
    keypair = kp_to_ser k.keypair;
    signature = to_hex p k.signature;
    created_at = k.created_at;
    retired_at = retired_at;
  }

  abbrev pub one_time_to_ser : OneTimePreKey → SerializedOneTimePreKey
  one_time_to_ser o = record { id = o.id; keypair = kp_to_ser o.keypair }

  abbrev pub retired_to_ser : RetiredSignedPreKey → SerializedSignedPreKey
  retired_to_ser r = prekey_to_ser r.prekey (some r.retired_at)

  unfoldable pub serialize_identity : Identity → Bytes → SerializedIdentity
  serialize_identity identity totp_secret = record {
    ik_sign = kp_to_ser identity.ik_sign;
    ik_dh = kp_to_ser identity.ik_dh;
    nostr = kp_to_ser identity.nostr;
    signed_pre_key = prekey_to_ser identity.signed_prekey none;
    one_time_pre_keys = map one_time_to_ser identity.one_time_prekeys;
    totp_secret = to_hex p totp_secret;
    retired_signed_pre_keys = map retired_to_ser identity.retired_signed_prekeys;
  }

  unfoldable pub kp_from_ser : SerializedKeyPair → Result VaultError KeyPair
  kp_from_ser s = do
    priv_bytes ← map_err identity_failed (decode_array_32 p s.priv_hex)
    pub_bytes ← map_err identity_failed (decode_array_32 p s.pub_hex)
    ok (record { priv_bytes = priv_bytes; pub_bytes = pub_bytes })

  unfoldable pub prekey_from_ser : SerializedSignedPreKey → Result VaultError SignedPreKey
  prekey_from_ser s = do
    keypair ← kp_from_ser s.keypair
    signature ← map_err identity_failed (decode_array_64 p s.signature)
    ok (record { id = s.id; keypair = keypair; signature = signature; created_at = s.created_at })

  unfoldable pub one_times_from_ser :
      List SerializedOneTimePreKey → Result VaultError (List OneTimePreKey)
  one_times_from_ser [] = ok []
  one_times_from_ser (o ∷ os) = do
    keypair ← kp_from_ser o.keypair
    rest ← one_times_from_ser os
    ok (record { id = o.id; keypair = keypair } ∷ rest)

  -- With the whole list of retired keys and the current key at hand.
  unfoldable pub retired_from_ser :
      List SerializedSignedPreKey
      → SerializedSignedPreKey
      → List SerializedSignedPreKey
      → Result VaultError (List RetiredSignedPreKey)
  retired_from_ser all current [] = ok []
  retired_from_ser all current (r ∷ rs) = do
    prekey ← prekey_from_ser r
    rest ← retired_from_ser all current rs
    ok (
        record {
          prekey = prekey;
          retired_at = or_else r.retired_at (legacy_retired_at r.id all current);
        }
        ∷ rest)

  unfoldable pub deserialize_identity : SerializedIdentity → Result VaultError (Identity × Bytes)
  deserialize_identity s = do
    ik_sign ← kp_from_ser s.ik_sign
    ik_dh ← kp_from_ser s.ik_dh
    nostr ← kp_from_ser s.nostr
    signed_prekey ← prekey_from_ser s.signed_pre_key
    one_time_prekeys ← one_times_from_ser s.one_time_pre_keys
    retired_signed_prekeys ←
        retired_from_ser s.retired_signed_pre_keys s.signed_pre_key s.retired_signed_pre_keys
    totp_secret ← ok_or (from_hex p s.totp_secret) bad_payload
    ok (
      record {
        ik_sign = ik_sign;
        ik_dh = ik_dh;
        nostr = nostr;
        signed_prekey = signed_prekey;
        one_time_prekeys = one_time_prekeys;
        retired_signed_prekeys = retired_signed_prekeys;
      },
      totp_secret,
    )
