-- ===== src/Group/Roster/Order.antt =====
-- What the admin of a group signs, in src/group.rs, does not depend on the order of the members.
use mathlib.Core.List.{Perm}
use mathlib.Core.List.{Permᴰ}
use mathlib.Core.List.Permᴰ.{nil, cons, swap, trans}
use mathlib.Core.Logic.{∥∥₁_elim}
use native.Mathlib.Decide.{ℕ_discrete}
use trino_core.Prelude.{ℕ, ◌≡◌, refl, ◌∙◌, true, false, Option, List, [], ◌∷◌, map, Bytes, arith}
use trino_core.Ratchet.Store.{bytes_leb}
use trino_core.Group.Roster.{
  Json, JsonPrinter, MemberBundle, FileRef, member_val, insert_by_key, sort_by_key,
  roster_signing_bytes,
}

bytes_leb_total : (x y : Bytes) → bytes_leb x y ≡ false → bytes_leb y x ≡ true
unfolding bytes_leb
bytes_leb_total [] y h = absurd (ground arith)
bytes_leb_total (a ∷ x) [] h = refl
bytes_leb_total (a ∷ x) (b ∷ y) h = ground (arith, bytes_leb_total x y)

bytes_leb_antisym : (x y : Bytes) → bytes_leb x y ≡ true → bytes_leb y x ≡ true → x ≡ y
unfolding bytes_leb
bytes_leb_antisym [] [] h k = refl
bytes_leb_antisym [] (b ∷ y) h k = absurd (ground arith)
bytes_leb_antisym (a ∷ x) [] h k = absurd (ground arith)
bytes_leb_antisym (a ∷ x) (b ∷ y) h k = ground (arith, bytes_leb_antisym x y)

bytes_leb_trans :
    (x y z : Bytes) → bytes_leb x y ≡ true → bytes_leb y z ≡ true → bytes_leb x z ≡ true
unfolding bytes_leb
bytes_leb_trans [] y z h k = refl
bytes_leb_trans (a ∷ x) [] z h k = absurd (ground arith)
bytes_leb_trans (a ∷ x) (b ∷ y) [] h k = absurd (ground arith)
bytes_leb_trans (a ∷ x) (b ∷ y) (c ∷ z) h k = ground (arith, bytes_leb_trans x y z)

module _ (print : JsonPrinter) (injective : (v w : Json) → print v ≡ print w → v ≡ w) where
  -- Two insertions commute.
  insert_by_key_comm :
      (x y : Json) (zs : List Json)
      → insert_by_key print x (insert_by_key print y zs)
        ≡ insert_by_key print y (insert_by_key print x zs)
  unfolding insert_by_key
  insert_by_key_comm x y [] = ground (
    arith,
    bytes_leb_total (print x) (print y),
    bytes_leb_antisym (print x) (print y),
    injective x y,
  )
  insert_by_key_comm x y (z ∷ zs) = ground (
    arith,
    insert_by_key_comm x y zs,
    bytes_leb_total (print x) (print y),
    bytes_leb_antisym (print x) (print y),
    injective x y,
    bytes_leb_trans (print x) (print y) (print z),
    bytes_leb_trans (print y) (print x) (print z),
  )

  sort_by_key-Perm :
      (ms ns : List MemberBundle)
      → Permᴰ ms ns
      → sort_by_key print (map member_val ms) ≡ sort_by_key print (map member_val ns)
  unfolding sort_by_key
  sort_by_key-Perm _ _ nil = refl
  sort_by_key-Perm _ _ (cons {a} {b} {l₁} {l₂} e h) =
      let rest = sort_by_key-Perm l₁ l₂ h in cc (e, rest)
  sort_by_key-Perm _ _ (swap {a} {b} {a'} {b'} {l} e f) =
      rw (e, f)
        (insert_by_key_comm (member_val b') (member_val a') (sort_by_key print (map member_val l)))
  sort_by_key-Perm _ _ (trans {l₁} {l₂} {l₃} h k) =
      sort_by_key-Perm l₁ l₂ h ∙ sort_by_key-Perm l₂ l₃ k

  -- If the printer writes different JSON values differently, what the admin signs does not
  -- depend on the order of the members.
  pub roster_signing_bytes-Perm :
      (group_id name : Bytes) (photo : Option FileRef) (admin_pub : Bytes)
      (members others : List MemberBundle) (epoch : ℕ)
      → Perm members others
      → roster_signing_bytes print group_id name photo admin_pub members epoch
        ≡ roster_signing_bytes print group_id name photo admin_pub others epoch
  unfolding roster_signing_bytes
  roster_signing_bytes-Perm group_id name photo admin_pub members others epoch h =
      let set : IsSet Bytes = hlevel ℕ_discrete in
      ∥∥₁_elim h (set _ _) (λ d. rw (sort_by_key-Perm members others d) refl)
