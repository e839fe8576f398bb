-- ===== src/Group/Roster.antt =====
-- The roster of src/group.rs: its records, the bytes that the admin signs, and its validation.
pub mod Validity
pub mod Order
use trino_core.Prelude.{
  ℕ, zero, suc, ◌+◌, ◌*◌, Option, some, none, Result, ok, err, ok_or, ◌==◌, ltb, not, ◌&&◌, ◌||◌,
  if◌then◌else◌, Bool, true, false, List, [], ◌∷◌, ◌++◌, map, Bytes, codes, length, bytes_eq,
  contains, ◌>>=◌,
}
use trino_core.Primitives.{Primitives, is_hex_digit}
use trino_core.Crypto.{to_hex}
use trino_core.Identity.Keys.{ed25519_verify}
use trino_core.Identity.Bundle.{PublicBundle, verify_bundle_binding}
use trino_core.Ratchet.Store.{bytes_leb}

-- `serde_json::Value`, as far as rosters use it.
mutual
  pub data Json : Type 0 where
    null : Json
    text : Bytes → Json
    number : ℕ → Json
    array : JsonItems → Json

  pub data JsonItems : Type 0 where
    nil : JsonItems
    cons : Json → JsonItems → JsonItems

abbrev items : List Json → JsonItems
items [] = nil
items (v ∷ vs) = cons v (items vs)

-- `Value::to_string`
abbrev pub JsonPrinter : Type 0
JsonPrinter = Json → Bytes

abbrev pub max_group_members : ℕ
max_group_members = 128

abbrev pub roster_sig_domain : Bytes
roster_sig_domain = codes "trino/roster/v2" ++ (0 ∷ [])

pub data RosterError : Type 0 where
  empty admin_not_member duplicate_member invalid_signature : RosterError
  too_many_members invalid_member_binding : ℕ → RosterError

pub record FileRef : Type 0 where
  pub url : Bytes
  pub key : Bytes
  pub sha256 : Bytes
  pub mime : Bytes
  pub name : Bytes
  pub size : ℕ
  pub thumb : Option Bytes

pub record MemberBundle : Type 0 where
  pub handle : Bytes
  pub ik_sign_pub : Bytes
  pub ik_dh_pub : Bytes
  pub nostr_pub : Bytes
  pub spk_id : ℕ
  pub spk_pub : Bytes
  pub spk_sig : Bytes
  pub id_sig : Bytes

pub record GroupRoster : Type 0 where
  pub group_id : Bytes
  pub name : Bytes
  pub photo : Option FileRef
  pub admin_pub : Bytes
  pub members : List MemberBundle
  pub epoch : ℕ
  pub signature : Bytes

unfoldable pub from_public_bundle : Bytes → PublicBundle → MemberBundle
from_public_bundle handle bundle = record {
  handle = handle;
  ik_sign_pub = bundle.ik_sign_pub;
  ik_dh_pub = bundle.ik_dh_pub;
  nostr_pub = bundle.nostr_pub;
  spk_id = bundle.spk_id;
  spk_pub = bundle.spk_pub;
  spk_sig = bundle.spk_sig;
  id_sig = bundle.id_sig;
}

unfoldable pub to_public_bundle : MemberBundle → PublicBundle
to_public_bundle m = record {
  ik_sign_pub = m.ik_sign_pub;
  ik_dh_pub = m.ik_dh_pub;
  nostr_pub = m.nostr_pub;
  spk_id = m.spk_id;
  spk_pub = m.spk_pub;
  spk_sig = m.spk_sig;
  opk_id = none;
  opk_pub = none;
  id_sig = m.id_sig;
}

abbrev photo_val : Option FileRef → Json
photo_val none = null
photo_val (some f) = array (
    items
      (text f.url ∷ text f.key ∷ text f.sha256 ∷ text f.mime ∷ text f.name ∷ number f.size ∷ []))

abbrev member_val : MemberBundle → Json
member_val m = array (
    items (
      text m.ik_sign_pub
      ∷ text m.ik_dh_pub
      ∷ text m.nostr_pub
      ∷ number m.spk_id
      ∷ text m.spk_pub
      ∷ text m.spk_sig
      ∷ text m.id_sig
      ∷ text m.handle
      ∷ []))

-- `sort_by_cached_key(|v| v.to_string())`, which is stable.
unfoldable pub insert_by_key : JsonPrinter → Json → List Json → List Json
insert_by_key print x [] = x ∷ []
insert_by_key print x (y ∷ ys) =
    if bytes_leb (print x) (print y) then x ∷ y ∷ ys else y ∷ insert_by_key print x ys

unfoldable pub sort_by_key : JsonPrinter → List Json → List Json
unfolding insert_by_key
sort_by_key print [] = []
sort_by_key print (x ∷ xs) = insert_by_key print x (sort_by_key print xs)

unfoldable pub roster_signing_bytes :
    JsonPrinter → Bytes → Bytes → Option FileRef → Bytes → List MemberBundle → ℕ → Bytes
roster_signing_bytes print group_id name photo admin_pub members epoch =
    let member_vals = sort_by_key print (map member_val members) in
    roster_sig_domain
    ++ print (
        array (
          items (
            text group_id
            ∷ text name
            ∷ photo_val photo
            ∷ text admin_pub
            ∷ array (items member_vals)
            ∷ number epoch
            ∷ [])))

-- All bytes pass the test.
abbrev pub all_bytes : (ℕ → Bool) → Bytes → Bool
all_bytes f [] = true
all_bytes f (b ∷ bs) = f b && all_bytes f bs

unfoldable pub is_canonical_hex : Bytes → ℕ → Bool
is_canonical_hex s len = length s == len * 2 && all_bytes is_hex_digit s

unfoldable pub has_key : Bytes → List MemberBundle → Bool
has_key k [] = false
has_key k (m ∷ ms) = bytes_eq m.ik_sign_pub k || has_key k ms

unfoldable pub is_member : GroupRoster → Bytes → Bool
is_member roster ik_sign_pub = has_key ik_sign_pub roster.members

-- The keys in the order of the two loops of `validate_roster`.
abbrev pub member_keys : List MemberBundle → List Bytes
member_keys [] = []
member_keys (m ∷ ms) = m.ik_sign_pub ∷ m.ik_dh_pub ∷ m.nostr_pub ∷ member_keys ms

-- Those loops: every `seen.insert(key)` is new.
unfoldable pub all_new : List Bytes → List Bytes → Bool
all_new seen [] = true
all_new seen (k ∷ ks) = let rest = all_new (k ∷ seen) ks in if contains k seen then false else rest

abbrev pub is_ok {ℓ κ} : {E : Type ℓ} {A : Type κ} → Result E A → Bool
is_ok (ok a) = true
is_ok (err e) = false

module _ (p : Primitives) where
  unfoldable pub member_is_bound : MemberBundle → Bool
  member_is_bound m =
      is_canonical_hex m.ik_sign_pub 32
      && is_canonical_hex m.ik_dh_pub 32
      && is_canonical_hex m.nostr_pub 32
      && is_canonical_hex m.spk_pub 32
      && is_canonical_hex m.spk_sig 64
      && is_canonical_hex m.id_sig 64
      && verify_bundle_binding p (to_public_bundle m)

  -- `.position(|m| !member_is_bound(m))`, from a place on.
  unfoldable pub find_unbound : ℕ → List MemberBundle → Option ℕ
  find_unbound i [] = none
  find_unbound i (m ∷ ms) =
      let rest = find_unbound (suc i) ms in if not (member_is_bound m) then some i else rest

  -- `decode_32` and `decode_64` of this file, by the length, with the error dropped as the only
  -- caller drops it.
  unfoldable pub decode_exact : ℕ → Bytes → Option Bytes
  decode_exact n s = elim (p.hex_decode s) [
    | none ↦ none
    | some v ↦ if not (length v == n) then none else some v
  ]

  -- The last check of `validate_roster`.
  unfoldable pub is_signed : JsonPrinter → GroupRoster → Bool
  is_signed print roster = elim (decode_exact 32 roster.admin_pub) [
    | none ↦ false
    | some admin_pub ↦ elim (decode_exact 64 roster.signature) [
      | none ↦ false
      | some sig ↦
          ed25519_verify p admin_pub
            (roster_signing_bytes print roster.group_id roster.name roster.photo roster.admin_pub
              roster.members roster.epoch)
            sig
    ]
  ]

  -- The checks of the members and the signature.
  unfoldable pub validate_members : JsonPrinter → GroupRoster → Result RosterError (Unit {0})
  validate_members print roster = elim (find_unbound 0 roster.members) [
    | some i ↦ err (invalid_member_binding i)
    | none ↦ if not (is_signed print roster) then err invalid_signature else ok tt
  ]

  unfoldable pub validate_roster : JsonPrinter → GroupRoster → Result RosterError (Unit {0})
  unfolding all_new validate_members is_member
  validate_roster print roster =
      let count = length roster.members in
      if count == 0
      then err empty
      else if ltb max_group_members count
      then err (too_many_members count)
      else if not (is_member roster roster.admin_pub)
      then err admin_not_member
      else if not (all_new [] (member_keys roster.members))
      then err duplicate_member
      else validate_members print roster

  unfoldable pub verify_roster : JsonPrinter → GroupRoster → Bool
  verify_roster print roster = is_ok (validate_roster print roster)
