-- ===== src/Group/Changes.antt =====
-- The changes that the admin makes to a roster: what they do to the membership, and that every
-- member accepts them.
use trino_core.Prelude.{
  ℕ, ◌+◌, ◌^◌, ◌<◌, ◌≡◌, refl, Option, Result, ok, ◌||◌, if◌then◌else◌, Bool, true, false, List, [],
  ◌∷◌, ◌++◌, Bytes, bytes_eq, bytes_eq_iff, bytes_eq_refl, arith, ap, ◌∙◌,
}
use trino_core.Primitives.{Primitives}
use trino_core.Crypto.{to_hex}
use trino_core.Identity.Prekeys.{Identity}
use trino_core.Group.Roster.{
  JsonPrinter, FileRef, MemberBundle, GroupRoster, is_member, has_key, validate_roster,
  verify_roster,
}
use trino_core.Group.{
  GroupError, without, next_epoch, signed_roster, sign_unsigned, add_member, remove_member,
  set_group_name, set_group_photo, check_update_rules, accept_roster_update,
}

-- A change, as the admin asks for it.
pub data Change : Type 0 where
  add : MemberBundle → Change
  remove : Bytes → Change
  rename : Bytes → Change
  show : Option FileRef → Change

abbrev pub apply :
    Primitives → JsonPrinter → Change → GroupRoster → Identity → Result GroupError GroupRoster
apply p print (add member) roster admin = add_member p print roster admin member
apply p print (remove key) roster admin = remove_member p print roster admin key
apply p print (rename name) roster admin = set_group_name p print roster admin name
apply p print (show photo) roster admin = set_group_photo p print roster admin photo

-- Adding somebody who is a member already.
abbrev pub is_idle : Change → GroupRoster → Bool
is_idle (add member) roster = is_member roster member.ik_sign_pub
is_idle (remove key) roster = false
is_idle (rename name) roster = false
is_idle (show photo) roster = false

-- Whether `k` is a member after the change, when `before` tells whether it was one.
abbrev pub member_after : Change → Bytes → Bool → Bool
member_after (add member) k before = before || bytes_eq member.ik_sign_pub k
member_after (remove key) k before = if bytes_eq key k then false else before
member_after (rename name) k before = before
member_after (show photo) k before = before

pub has_key-append :
    (k : Bytes) (ms : List MemberBundle) (m : MemberBundle)
    → has_key k (ms ++ (m ∷ [])) ≡ (has_key k ms || bytes_eq m.ik_sign_pub k)
unfolding has_key
has_key-append k [] m = ground arith
has_key-append k (x ∷ ms) m = ground (arith, has_key-append k ms m)

pub has_key-without :
    (k j : Bytes) (ms : List MemberBundle)
    → has_key j (without k ms) ≡ (if bytes_eq k j then false else has_key j ms)
unfolding has_key without
has_key-without k j [] = ground arith
has_key-without k j (x ∷ ms) = ground (
  arith,
  has_key-without k j ms,
  bytes_eq_iff k j,
  bytes_eq_iff x.ik_sign_pub k,
  bytes_eq_iff x.ik_sign_pub j,
)

module _ (p : Primitives) (print : JsonPrinter) where
  -- A successor of a roster that members take.
  pub record IsNext (roster r : GroupRoster) : Type 0 where
    pub group : r.group_id ≡ roster.group_id
    pub admin : r.admin_pub ≡ roster.admin_pub
    pub newer : r.epoch ≡ next_epoch roster.epoch
    pub validated : validate_roster p print r ≡ ok tt

  IsNext-accepted :
      (roster r : GroupRoster)
      → roster.epoch + 1 < 2 ^ 64
      → IsNext roster r
      → accept_roster_update p print roster r ≡ true
  unfolding accept_roster_update check_update_rules verify_roster
  IsNext-accepted roster r small n = ground (
    arith,
    n.group,
    n.admin,
    n.newer,
    n.validated,
    bytes_eq_refl roster.group_id,
    bytes_eq_refl roster.admin_pub,
  )

  pub sign_unsigned_ok :
      (group_id name : Bytes) (photo : Option FileRef) (admin_pub : Bytes)
      (members : List MemberBundle) (epoch : ℕ) (admin : Identity) (r : GroupRoster)
      → sign_unsigned p print group_id name photo admin_pub members epoch admin ≡ ok r
      → (r ≡ signed_roster p print group_id name photo admin_pub members epoch admin)
        × (validate_roster p print r ≡ ok tt)
  unfolding sign_unsigned
  sign_unsigned_ok group_id name photo admin_pub members epoch admin r h = ground arith

  signed-IsNext :
      (roster r : GroupRoster) (name : Bytes) (photo : Option FileRef) (members : List MemberBundle)
      (admin : Identity)
      → sign_unsigned p print roster.group_id name photo roster.admin_pub members
          (next_epoch roster.epoch)
          admin
        ≡ ok r
      → IsNext roster r × ((k : Bytes) → is_member r k ≡ has_key k members)
  unfolding is_member
  signed-IsNext roster r name photo members admin h =
      let (e, v) =
        sign_unsigned_ok roster.group_id name photo roster.admin_pub members
          (next_epoch roster.epoch) admin r h in
      (
        record {
          group = ap (λ x. x.group_id) e;
          admin = ap (λ x. x.admin_pub) e;
          newer = ap (λ x. x.epoch) e;
          validated = v;
        },
        λ k. ap (λ x. has_key k x.members) e,
      )

  -- What the change signs, and the members of that roster.
  abbrev pub members_after : Change → GroupRoster → List MemberBundle
  members_after (add member) roster = roster.members ++ (member ∷ [])
  members_after (remove key) roster = without key roster.members
  members_after (rename name) roster = roster.members
  members_after (show photo) roster = roster.members

  members_after_lem :
      (c : Change) (roster : GroupRoster) (k : Bytes)
      → has_key k (members_after c roster) ≡ member_after c k (is_member roster k)
  unfolding is_member
  members_after_lem (add member) roster k = has_key-append k roster.members member
  members_after_lem (remove key) roster k = has_key-without key k roster.members
  members_after_lem (rename name) roster k = refl
  members_after_lem (show photo) roster k = refl

  apply_signs :
      (c : Change) (roster r : GroupRoster) (admin : Identity)
      → apply p print c roster admin ≡ ok r
      → is_idle c roster ≡ false
      → (name : Bytes) × (photo : Option FileRef) × (sign_unsigned p print roster.group_id name
            photo roster.admin_pub
            (members_after c roster)
            (next_epoch roster.epoch)
            admin
          ≡ ok r)
  unfolding add_member remove_member set_group_name set_group_photo is_member
  apply_signs (add member) roster r admin h new = (roster.name, roster.photo, ground arith)
  apply_signs (remove key) roster r admin h new = (roster.name, roster.photo, ground arith)
  apply_signs (rename name) roster r admin h new = (name, roster.photo, ground arith)
  apply_signs (show photo) roster r admin h new = (roster.name, photo, ground arith)

  apply_admin :
      (c : Change) (roster r : GroupRoster) (admin : Identity)
      → apply p print c roster admin ≡ ok r
      → to_hex p admin.ik_sign.pub_bytes ≡ roster.admin_pub
  unfolding add_member remove_member set_group_name set_group_photo
  apply_admin (add member) roster r admin h =
      ground (arith, bytes_eq_iff (to_hex p admin.ik_sign.pub_bytes) roster.admin_pub)
  apply_admin (remove key) roster r admin h =
      ground (arith, bytes_eq_iff (to_hex p admin.ik_sign.pub_bytes) roster.admin_pub)
  apply_admin (rename name) roster r admin h =
      ground (arith, bytes_eq_iff (to_hex p admin.ik_sign.pub_bytes) roster.admin_pub)
  apply_admin (show photo) roster r admin h =
      ground (arith, bytes_eq_iff (to_hex p admin.ik_sign.pub_bytes) roster.admin_pub)

  -- Only the admin makes changes. A change that was made, other than adding somebody who is a
  -- member already, is accepted as an update of the roster from before, as long as the epoch
  -- does not wrap; and it changes the membership as asked, and no further.
  pub change_accepted :
      (c : Change) (roster r : GroupRoster) (admin : Identity)
      → apply p print c roster admin ≡ ok r
      → is_idle c roster ≡ false
      → roster.epoch + 1 < 2 ^ 64
      → (to_hex p admin.ik_sign.pub_bytes ≡ roster.admin_pub)
        × (accept_roster_update p print roster r ≡ true)
        × ((k : Bytes) → is_member r k ≡ member_after c k (is_member roster k))
  change_accepted c roster r admin h new small =
      let (name, photo, signed) = apply_signs c roster r admin h new in
      let (next, members) =
        signed-IsNext roster r name photo (members_after c roster) admin signed in
      (
        apply_admin c roster r admin h,
        IsNext-accepted roster r small next,
        λ k. members k ∙ members_after_lem c roster k,
      )
