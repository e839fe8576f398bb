-- ===== src/Group/Permitted.antt =====
-- Every change that the admin of a group may make goes through, in src/group.rs.
use trino_core.Prelude.{
  ◌+◌, ◌^◌, ◌<◌, ◌≤◌, ◌≡◌, refl, Option, none, some, ok, true, false, List, [], ◌∷◌, ◌++◌, Bytes,
  bytes_eq, bytes_eq_refl, arith, ◌∙◌, length, leb, All, Distinct, contains, length-append,
  Bool-cases, inl, inr, sym, if◌then◌else◌, bytes_eq_iff,
}
use mathlib.Core.Path.{subst}
use trino_core.Primitives.{Primitives, HexLaws, SignatureLaws}
use trino_core.Crypto.{to_hex}
use trino_core.Identity.Keys.Laws.{IsEd25519}
use trino_core.Identity.Prekeys.{Identity}
use trino_core.Group.Roster.{
  JsonPrinter, FileRef, MemberBundle, GroupRoster, is_member, has_key, validate_roster,
  verify_roster, member_is_bound, member_keys, max_group_members,
}
use trino_core.Group.Roster.Validity.{IsRoster, validate_roster_iff}
use trino_core.Group.{
  without, next_epoch, signed_roster, sign_unsigned, add_member, remove_member, set_group_name,
  set_group_photo, accept_roster_update, evaluate_incoming_roster, accept, reject, not_a_member,
  check_update_rules, assert_admin,
}
use trino_core.Group.Changes.{
  Change, add, remove, rename, show, apply, member_after, members_after, is_idle, has_key-append,
  has_key-without, change_accepted,
}
use trino_core.Group.Honest.{sign_unsigned_total}

-- A list of members that a valid roster may have.
record AreMembers (p : Primitives) (admin_pub : Bytes) (ms : List MemberBundle) : Type 0 where
  inhabited : 0 < length ms
  bounded : length ms ≤ max_group_members
  admin : has_key admin_pub ms ≡ true
  distinct : Distinct (member_keys ms)
  bound : All (λ m. member_is_bound p m ≡ true) ms

-- What the admin may ask for: a new member that is bound to its keys, none of which is in the
-- roster yet, while there is room; anybody but the admin to go; and any name and photo.
abbrev pub IsPermitted : Primitives → Change → GroupRoster → Type 0
IsPermitted p (add m) roster =
    (is_member roster m.ik_sign_pub ≡ false)
    × (length roster.members < max_group_members)
    × (member_is_bound p m ≡ true)
    × Distinct (member_keys (roster.members ++ (m ∷ [])))
IsPermitted p (remove key) roster = bytes_eq key roster.admin_pub ≡ false
IsPermitted p (rename name) roster = Unit
IsPermitted p (show photo) roster = Unit

-- What the roster has for a signing key.
abbrev pub bundle_of : Bytes → List MemberBundle → Option MemberBundle
bundle_of k [] = none
bundle_of k (m ∷ ms) = if bytes_eq m.ik_sign_pub k then some m else bundle_of k ms

-- The same after the change, by what there was before, and the name and the photo.
abbrev pub bundle_after : Change → Bytes → Option MemberBundle → Option MemberBundle
bundle_after (add m) k before = if bytes_eq m.ik_sign_pub k then some m else before
bundle_after (remove key) k before = if bytes_eq key k then none else before
bundle_after (rename name) k before = before
bundle_after (show photo) k before = before

abbrev pub name_after : Change → Bytes → Bytes
name_after (add m) before = before
name_after (remove key) before = before
name_after (rename name) before = name
name_after (show photo) before = before

abbrev pub photo_after : Change → Option FileRef → Option FileRef
photo_after (add m) before = before
photo_after (remove key) before = before
photo_after (rename name) before = before
photo_after (show photo) before = photo

-- The roster that the change makes: the next of its group by the same admin, with what was asked for
-- and the rest as before.
pub record IsMade (c : Change) (roster r : GroupRoster) : Type 0 where
  pub group : r.group_id ≡ roster.group_id
  pub admin : r.admin_pub ≡ roster.admin_pub
  pub epoch : r.epoch ≡ roster.epoch + 1
  pub name : r.name ≡ name_after c roster.name
  pub photo : r.photo ≡ photo_after c roster.photo
  pub bundles : (k : Bytes) → bundle_of k r.members ≡ bundle_after c k (bundle_of k roster.members)

bundle_of-append :
    (k : Bytes) (ms : List MemberBundle) (m : MemberBundle)
    → has_key m.ik_sign_pub ms ≡ false
    → bundle_of k (ms ++ (m ∷ [])) ≡ (if bytes_eq m.ik_sign_pub k then some m else bundle_of k ms)
unfolding has_key
bundle_of-append k [] m new = refl
bundle_of-append k (x ∷ ms) m new = ground (
  arith,
  new,
  bytes_eq_iff x.ik_sign_pub k,
  bytes_eq_iff m.ik_sign_pub k,
  bytes_eq_iff x.ik_sign_pub m.ik_sign_pub,
  bundle_of-append k ms m,
)

bundle_of-without :
    (k key : Bytes) (ms : List MemberBundle)
    → bundle_of k (without key ms) ≡ (if bytes_eq key k then none else bundle_of k ms)
unfolding without
bundle_of-without k key [] = ground arith
bundle_of-without k key (x ∷ ms) = ground (
  arith,
  bytes_eq_iff x.ik_sign_pub k,
  bytes_eq_iff key k,
  bytes_eq_iff x.ik_sign_pub key,
  bundle_of-without k key ms,
)

has_key-length : (k : Bytes) (ms : List MemberBundle) → has_key k ms ≡ true → 0 < length ms
unfolding has_key
has_key-length k [] h = absurd (ground arith)
has_key-length k (m ∷ ms) h = omega arith

length-without : (k : Bytes) (ms : List MemberBundle) → length (without k ms) ≤ length ms
unfolding without
length-without k [] = omega arith
length-without k (m ∷ ms) = ground (arith, length-without k ms)

without-member_keys :
    (k j : Bytes) (ms : List MemberBundle)
    → contains j (member_keys ms) ≡ false
    → contains j (member_keys (without k ms)) ≡ false
unfolding without contains
without-member_keys k j [] h = h
without-member_keys k j (m ∷ ms) h = ground (arith, without-member_keys k j ms)

without-Distinct :
    (k : Bytes) (ms : List MemberBundle)
    → Distinct (member_keys ms)
    → Distinct (member_keys (without k ms))
unfolding without contains
without-Distinct k [] d = tt
without-Distinct k (m ∷ ms) d =
    let rest = without-Distinct k ms d.1.1.1 in
    let keep = λ (j : Bytes). without-member_keys k j ms in
    elim (Bool-cases (bytes_eq m.ik_sign_pub k)) [
      | inl gone ↦ rw gone rest
      | inr kept ↦ rw kept (
        ground (arith, d.0, keep m.ik_sign_pub),
        (
          ground (arith, d.1.0, keep m.ik_dh_pub),
          (ground (arith, d.1.1.0, keep m.nostr_pub), rest),
        ),
      )
    ]

without-All :
    (P : MemberBundle → Type 0) (k : Bytes) (ms : List MemberBundle)
    → All P ms
    → All P (without k ms)
unfolding without
without-All P k [] h = tt
without-All P k (m ∷ ms) h = elim (Bool-cases (bytes_eq m.ik_sign_pub k)) [
  | inl gone ↦ rw gone (without-All P k ms h.1)
  | inr kept ↦ rw kept (h.0, without-All P k ms h.1)
]

All-snoc :
    (P : MemberBundle → Type 0) (ms : List MemberBundle) (m : MemberBundle)
    → All P ms
    → P m
    → All P (ms ++ (m ∷ []))
All-snoc P [] m h x = (x, tt)
All-snoc P (y ∷ ms) m h x = (h.0, All-snoc P ms m h.1 x)

module _ (p : Primitives) (print : JsonPrinter) where
  -- The members after a permitted change.
  permitted-AreMembers :
      (c : Change) (roster : GroupRoster)
      → IsRoster p print roster
      → IsPermitted p c roster
      → AreMembers p roster.admin_pub (members_after p print c roster)
  unfolding is_member
  permitted-AreMembers (add m) roster v h = record {
    inhabited = omega (arith, length-append roster.members (m ∷ []));
    bounded = omega (arith, length-append roster.members (m ∷ []), h.1);
    admin = has_key-append roster.admin_pub roster.members m ∙ ground (arith, v.admin);
    distinct = h.3;
    bound = All-snoc _ roster.members m v.bound h.2;
  }
  permitted-AreMembers (remove key) roster v h =
      let stays : has_key roster.admin_pub (without key roster.members) ≡ true =
        has_key-without key roster.admin_pub roster.members ∙ ground (arith, v.admin, h) in
      record {
        inhabited = has_key-length roster.admin_pub (without key roster.members) stays;
        bounded = omega (arith, length-without key roster.members, v.bounded);
        admin = stays;
        distinct = without-Distinct key roster.members v.distinct;
        bound = without-All _ key roster.members v.bound;
      }
  permitted-AreMembers (rename name) roster v h = record {
    inhabited = v.inhabited;
    bounded = v.bounded;
    admin = v.admin;
    distinct = v.distinct;
    bound = v.bound;
  }
  permitted-AreMembers (show photo) roster v h = record {
    inhabited = v.inhabited;
    bounded = v.bounded;
    admin = v.admin;
    distinct = v.distinct;
    bound = v.bound;
  }

  not_idle : (c : Change) (roster : GroupRoster) → IsPermitted p c roster → is_idle c roster ≡ false
  not_idle (add m) roster h = h.0
  not_idle (remove key) roster h = refl
  not_idle (rename name) roster h = refl
  not_idle (show photo) roster h = refl

  module _ (hex : HexLaws p) (signing : SignatureLaws p) (admin : Identity)
      (key : IsEd25519 p admin.ik_sign) where
    signs :
        (roster : GroupRoster) (name : Bytes) (photo : Option FileRef) (ms : List MemberBundle)
        → to_hex p admin.ik_sign.pub_bytes ≡ roster.admin_pub
        → AreMembers p roster.admin_pub ms
        → sign_unsigned p print roster.group_id name photo roster.admin_pub ms
            (next_epoch roster.epoch)
            admin
          ≡ ok (
              signed_roster p print roster.group_id name photo roster.admin_pub ms
                (next_epoch roster.epoch)
                admin)
    signs roster name photo ms own a =
        let epoch = next_epoch roster.epoch in
        subst
          (λ k.
            sign_unsigned p print roster.group_id name photo k ms epoch admin
            ≡ ok (signed_roster p print roster.group_id name photo k ms epoch admin))
          own
          (sign_unsigned_total p hex signing print admin key roster.group_id name photo ms epoch
            a.inhabited a.bounded (subst (λ k. has_key k ms ≡ true) (sym own) a.admin) a.distinct
            a.bound)

    -- What the change signs.
    abbrev made : Change → GroupRoster → GroupRoster
    made c roster =
        signed_roster p print roster.group_id (name_after c roster.name)
          (photo_after c roster.photo) roster.admin_pub (members_after p print c roster)
          (next_epoch roster.epoch) admin

    apply_total :
        (c : Change) (roster : GroupRoster)
        → to_hex p admin.ik_sign.pub_bytes ≡ roster.admin_pub
        → IsPermitted p c roster
        → AreMembers p roster.admin_pub (members_after p print c roster)
        → apply p print c roster admin ≡ ok (made c roster)
    unfolding add_member remove_member set_group_name set_group_photo assert_admin is_member
    apply_total (add m) roster own h a =
        let room : leb max_group_members (length roster.members) ≡ false = ground (arith, h.1) in
        rw (own, bytes_eq_refl roster.admin_pub, h.0, room)
          (signs roster roster.name roster.photo (roster.members ++ (m ∷ [])) own a)
    apply_total (remove k) roster own h a =
        rw (own, bytes_eq_refl roster.admin_pub, h)
          (signs roster roster.name roster.photo (without k roster.members) own a)
    apply_total (rename name) roster own h a =
        rw (own, bytes_eq_refl roster.admin_pub)
          (signs roster name roster.photo roster.members own a)
    apply_total (show photo) roster own h a =
        rw (own, bytes_eq_refl roster.admin_pub)
          (signs roster roster.name photo roster.members own a)

    made_bundles :
        (c : Change) (roster : GroupRoster) (k : Bytes)
        → IsPermitted p c roster
        → bundle_of k (members_after p print c roster)
          ≡ bundle_after c k (bundle_of k roster.members)
    unfolding is_member
    made_bundles (add m) roster k h = bundle_of-append k roster.members m h.0
    made_bundles (remove key) roster k h = bundle_of-without k key roster.members
    made_bundles (rename name) roster k h = refl
    made_bundles (show photo) roster k h = refl

    -- Who is a member of the new roster takes it from the admin, and who is not is told so.
    taken_by_members :
        (roster r : GroupRoster) (k : Bytes)
        → accept_roster_update p print roster r ≡ true
        → r.admin_pub ≡ roster.admin_pub
        → evaluate_incoming_roster p print (some roster) r roster.admin_pub k
          ≡ (if is_member r k then accept else reject not_a_member)
    unfolding accept_roster_update evaluate_incoming_roster verify_roster check_update_rules
    taken_by_members roster r k accepted same =
        ground (arith, accepted, same, bytes_eq_refl roster.admin_pub)

    -- Given what the hex and ed25519 crates promise: in a valid roster whose epoch does not
    -- wrap, the admin, whose signing key pair belongs together, asks for a change that is
    -- permitted: a new member that is bound to its keys, all keys of the members being different
    -- then, while there are fewer than 128; anybody but the admin to go; or any name or photo.
    -- The change succeeds. The new roster has the group and the admin of the old one, the next
    -- epoch, and name, photo, membership and the bundle under each key exactly as asked. Who
    -- holds the old roster and gets the new one from the admin accepts it if the new one has
    -- them as a member, and else rejects it for that.
    pub permitted_change_succeeds :
        (c : Change) (roster : GroupRoster)
        → validate_roster p print roster ≡ ok tt
        → to_hex p admin.ik_sign.pub_bytes ≡ roster.admin_pub
        → IsPermitted p c roster
        → roster.epoch + 1 < 2 ^ 64
        → (r : GroupRoster) × (apply p print c roster admin ≡ ok r)
          × IsMade c roster r
          × ((k : Bytes) → is_member r k ≡ member_after c k (is_member roster k))
          × ((k : Bytes)
              → evaluate_incoming_roster p print (some roster) r roster.admin_pub k
                ≡ (if is_member r k then accept else reject not_a_member))
    permitted_change_succeeds c roster valid own h small =
        let members =
          permitted-AreMembers c roster ((validate_roster_iff p print roster).0 valid) h in
        let r = made c roster in
        let e = apply_total c roster own h members in
        let (_, accepted, changed) =
          change_accepted p print c roster r admin e (not_idle c roster h) small in
        (
          r,
          e,
          record {
            group = refl;
            admin = refl;
            epoch = omega arith;
            name = refl;
            photo = refl;
            bundles = λ k. made_bundles c roster k h;
          },
          changed,
          λ k. taken_by_members roster r k accepted refl,
        )
