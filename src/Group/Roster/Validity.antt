-- ===== src/Group/Roster/Validity.antt =====
-- What a roster that passes `validate_roster` of src/group.rs is.
use trino_core.Prelude.{
  ℕ, suc, ◌<◌, ◌≤◌, ◌≡◌, ◌↔◌, refl, none, ok, true, false, List, [], ◌∷◌, Bytes, All, length,
  bytes_eq_iff, contains, Distinct, arith, Option-cases, inl, inr,
}
use trino_core.Primitives.{Primitives}
use trino_core.Group.Roster.{
  JsonPrinter, MemberBundle, GroupRoster, is_member, member_keys, all_new, member_is_bound,
  find_unbound, is_signed, validate_members, validate_roster, max_group_members,
}

split_seen :
    (k : Bytes) (seen ks : List Bytes)
    → All (λ j. contains j (k ∷ seen) ≡ false) ks
      ↔ (All (λ j. contains j seen ≡ false) ks × (contains k ks ≡ false))
unfolding contains
split_seen k seen [] = (λ h. (tt, refl), λ h. tt)
split_seen k seen (x ∷ xs) =
    let (f, g) = split_seen k seen xs in
    (
      λ h.
          let (a, b) = f h.1 in
          ((ground (arith, h.0), a), ground (arith, h.0, b, bytes_eq_iff x k, bytes_eq_iff k x)),
      λ h. (
        ground (arith, h.0.0, h.1, bytes_eq_iff x k, bytes_eq_iff k x),
        g (h.0.1, ground (arith, h.1)),
      ),
    )

-- No key twice, and none of those seen before.
all_new_iff :
    (seen ks : List Bytes)
    → (all_new seen ks ≡ true) ↔ (All (λ k. contains k seen ≡ false) ks × Distinct ks)
unfolding all_new
all_new_iff seen [] = (λ h. (tt, tt), λ h. refl)
all_new_iff seen (k ∷ ks) =
    let (f, g) = all_new_iff (k ∷ seen) ks in
    let (split, join) = split_seen k seen ks in
    (
      λ h. let (a, d) = f (ground arith) in let (b, c) = split a in ((ground arith, b), (c, d)),
      λ h. let rest = g (join (h.0.1, h.1.0), h.1.1) in ground (arith, h.0.0, rest),
    )

none_seen : (ks : List Bytes) → All (λ k. contains k [] ≡ false) ks
unfolding contains
none_seen [] = tt
none_seen (k ∷ ks) = (refl, none_seen ks)

module _ (p : Primitives) (print : JsonPrinter) where
  find_unbound_iff :
      (i : ℕ) (ms : List MemberBundle)
      → (find_unbound p i ms ≡ none) ↔ All (λ m. member_is_bound p m ≡ true) ms
  unfolding find_unbound
  find_unbound_iff i [] = (λ h. tt, λ h. refl)
  find_unbound_iff i (m ∷ ms) =
      let (f, g) = find_unbound_iff (suc i) ms in
      (λ h. (ground arith, f (ground arith)), λ h. let rest = g h.1 in ground (arith, h.0, rest))

  -- What a valid roster is: it has members, not too many, the admin among them; no key stands
  -- twice in it; every member signed its own keys; and the admin signed it all.
  pub record IsRoster (roster : GroupRoster) : Type 0 where
    pub inhabited : 0 < length roster.members
    pub bounded : length roster.members ≤ max_group_members
    pub admin : is_member roster roster.admin_pub ≡ true
    pub distinct : Distinct (member_keys roster.members)
    pub bound : All (λ m. member_is_bound p m ≡ true) roster.members
    pub signed : is_signed p print roster ≡ true

  passed :
      (roster : GroupRoster)
      → validate_roster p print roster ≡ ok tt
      → (0 < length roster.members)
        × (length roster.members ≤ max_group_members)
        × (is_member roster roster.admin_pub ≡ true)
        × (all_new [] (member_keys roster.members) ≡ true)
        × (find_unbound p 0 roster.members ≡ none)
        × (is_signed p print roster ≡ true)
  unfolding validate_roster validate_members
  passed roster h = elim (Option-cases (find_unbound p 0 roster.members)) [
    | inl bound ↦ ground arith
    | inr (i, bad) ↦ absurd (ground arith)
  ]

  validate_roster-passed :
      (roster : GroupRoster)
      → 0 < length roster.members
      → length roster.members ≤ max_group_members
      → is_member roster roster.admin_pub ≡ true
      → all_new [] (member_keys roster.members) ≡ true
      → find_unbound p 0 roster.members ≡ none
      → is_signed p print roster ≡ true
      → validate_roster p print roster ≡ ok tt
  unfolding validate_roster validate_members
  validate_roster-passed roster a b c d e f = ground arith

  -- `validate_roster` passes exactly the rosters that have members, at most 128, the admin among
  -- them, no key twice, every member bound to its keys, and the signature of the admin over it
  -- all.
  pub validate_roster_iff :
      (roster : GroupRoster) → (validate_roster p print roster ≡ ok tt) ↔ IsRoster roster
  validate_roster_iff roster =
      let (new, all) = all_new_iff [] (member_keys roster.members) in
      let (bound, find) = find_unbound_iff 0 roster.members in
      (
        λ h.
            let (a, b, c, d, e, f) = passed roster h in
            record {
              inhabited = a;
              bounded = b;
              admin = c;
              distinct = (new d).1;
              bound = bound e;
              signed = f;
            },
        λ v.
            validate_roster-passed roster v.inhabited v.bounded v.admin
              (all (none_seen (member_keys roster.members), v.distinct)) (find v.bound) v.signed,
      )
