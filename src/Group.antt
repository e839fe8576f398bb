-- ===== src/Group.antt =====
-- src/group.rs: how the admin of a group changes its roster, and what a member does with a roster
-- that arrives.
pub mod Roster
pub mod Serde
pub mod Changes
pub mod Incoming
pub mod Honest
pub mod Permitted
pub mod Convergence
use trino_core.Prelude.{
  ℕ, ◌+◌, ◌%◌, ◌^◌, Option, some, none, Result, ok, err, map_err, leb, not, ◌&&◌, if◌then◌else◌,
  Bool, true, false, List, [], ◌∷◌, ◌++◌, Bytes, length, bytes_eq, ◌>>=◌,
}
use trino_core.Primitives.{Primitives, Rng}
use trino_core.Crypto.{random_array, to_hex}
use trino_core.Identity.Keys.{ed25519_sign}
use trino_core.Identity.Prekeys.{Identity}
use trino_core.Group.Roster.{
  JsonPrinter, RosterError, FileRef, MemberBundle, GroupRoster, max_group_members,
  roster_signing_bytes, is_member, has_key, validate_roster, verify_roster, is_ok,
}

pub data GroupError : Type 0 where
  not_admin remove_admin hex full : GroupError
  invalid_roster : RosterError → GroupError

pub data RosterRejection : Type 0 where
  sender_not_admin not_a_member group_mismatch admin_changed stale : RosterRejection
  invalid : RosterError → RosterRejection

pub data RosterDecision : Type 0 where
  accept pending_invite : RosterDecision
  reject : RosterRejection → RosterDecision

-- `epoch + 1` on a `u64`, in a release build.
abbrev pub next_epoch : ℕ → ℕ
next_epoch epoch = (epoch + 1) % 2 ^ 64

-- `.filter(|m| m.ik_sign_pub != ik_sign_pub)`
unfoldable pub without : Bytes → List MemberBundle → List MemberBundle
without k [] = []
without k (m ∷ ms) = if not (bytes_eq m.ik_sign_pub k) then m ∷ without k ms else without k ms

module _ (p : Primitives) (print : JsonPrinter) where
  -- The roster that is signed, before its validation.
  abbrev pub signed_roster :
      Bytes → Bytes → Option FileRef → Bytes → List MemberBundle → ℕ → Identity → GroupRoster
  signed_roster group_id name photo admin_pub members epoch admin = record {
    group_id = group_id;
    name = name;
    photo = photo;
    admin_pub = admin_pub;
    members = members;
    epoch = epoch;
    signature = to_hex p (
        ed25519_sign p admin.ik_sign
          (roster_signing_bytes print group_id name photo admin_pub members epoch));
  }

  unfoldable pub sign_unsigned :
      Bytes
      → Bytes
      → Option FileRef
      → Bytes
      → List MemberBundle
      → ℕ
      → Identity
      → Result GroupError GroupRoster
  sign_unsigned group_id name photo admin_pub members epoch admin =
      if not (leb (length members) max_group_members)
      then err full
      else (let roster = signed_roster group_id name photo admin_pub members epoch admin in
          map_err invalid_roster (validate_roster p print roster) >>= λ _. ok roster)

  unfoldable pub create_group :
      Identity → MemberBundle → Bytes → Rng → Result GroupError GroupRoster × Rng
  create_group admin admin_bundle name r =
      let (seed, r') = random_array 32 r in
      (
        sign_unsigned (to_hex p seed) name none admin_bundle.ik_sign_pub (admin_bundle ∷ []) 0
            admin,
        r',
      )

  unfoldable pub assert_admin : GroupRoster → Identity → Result GroupError (Unit {0})
  assert_admin roster admin =
      if not (bytes_eq (to_hex p admin.ik_sign.pub_bytes) roster.admin_pub)
      then err not_admin
      else ok tt

  unfoldable pub add_member : GroupRoster → Identity → MemberBundle → Result GroupError GroupRoster
  unfolding assert_admin
  add_member roster admin member = do
    _ ← assert_admin roster admin
    (if has_key member.ik_sign_pub roster.members
        then ok roster
        else if leb max_group_members (length roster.members)
        then err full
        else sign_unsigned roster.group_id roster.name roster.photo roster.admin_pub
            (roster.members ++ (member ∷ [])) (next_epoch roster.epoch) admin)

  unfoldable pub remove_member : GroupRoster → Identity → Bytes → Result GroupError GroupRoster
  unfolding assert_admin
  remove_member roster admin ik_sign_pub = do
    _ ← assert_admin roster admin
    (if bytes_eq ik_sign_pub roster.admin_pub
        then err remove_admin
        else sign_unsigned roster.group_id roster.name roster.photo roster.admin_pub
            (without ik_sign_pub roster.members) (next_epoch roster.epoch) admin)

  unfoldable pub set_group_name : GroupRoster → Identity → Bytes → Result GroupError GroupRoster
  unfolding assert_admin
  set_group_name roster admin name = do
    _ ← assert_admin roster admin
    sign_unsigned roster.group_id name roster.photo roster.admin_pub roster.members
        (next_epoch roster.epoch) admin

  unfoldable pub set_group_photo :
      GroupRoster → Identity → Option FileRef → Result GroupError GroupRoster
  unfolding assert_admin
  set_group_photo roster admin photo = do
    _ ← assert_admin roster admin
    sign_unsigned roster.group_id roster.name photo roster.admin_pub roster.members
        (next_epoch roster.epoch) admin

  unfoldable pub check_update_rules : GroupRoster → GroupRoster → Result RosterRejection (Unit {0})
  check_update_rules current incoming =
      if not (bytes_eq incoming.group_id current.group_id)
      then err group_mismatch
      else if not (bytes_eq incoming.admin_pub current.admin_pub)
      then err admin_changed
      else if leb incoming.epoch current.epoch
      then err stale
      else ok tt

  unfoldable pub accept_roster_update : GroupRoster → GroupRoster → Bool
  unfolding check_update_rules
  accept_roster_update current incoming =
      is_ok (check_update_rules current incoming) && verify_roster p print incoming

  abbrev decide : Result RosterRejection (Unit {0}) → RosterDecision
  decide (ok _) = accept
  decide (err why) = reject why

  abbrev decide_update : Option GroupRoster → GroupRoster → RosterDecision
  decide_update none incoming = pending_invite
  decide_update (some current) incoming = decide (check_update_rules current incoming)

  unfoldable pub evaluate_incoming_roster :
      Option GroupRoster → GroupRoster → Bytes → Bytes → RosterDecision
  evaluate_incoming_roster current incoming sender_ik_sign_pub my_ik_sign_pub =
      if not (bytes_eq sender_ik_sign_pub incoming.admin_pub)
      then reject sender_not_admin
      else elim (validate_roster p print incoming) [
        | err e ↦ reject (invalid e)
        | ok _ ↦
            if not (is_member incoming my_ik_sign_pub)
            then reject not_a_member
            else decide_update current incoming
      ]
