-- ===== src/Prelude/Members.antt =====
-- Lists of distinct byte strings: membership, concatenation, and counting.
use Prim.Native.Nat.{suc, ◌≤◌}
use mathlib.Core.Bool.{true, false, ◌||◌}
use mathlib.Core.List.{List, [], ◌∷◌, ◌++◌}
use mathlib.Core.Logic.{inl, inr}
use mathlib.Core.Path.{◌≡◌, refl}
use native.Mathlib.Omega.{arith}
use trino_core.Prelude.Lists.{
  Bytes, length, bytes_eq, bytes_eq_iff, bytes_eq_refl, contains, Distinct,
}
use trino_core.Prelude.Tests.{if◌then◌else◌, Bool-cases}

-- Every member of the first list is one of the second.
abbrev pub IsWithin : List Bytes → List Bytes → Type 0
IsWithin xs ys = (k : Bytes) → contains k xs ≡ true → contains k ys ≡ true

pub contains-append :
    (k : Bytes) (xs ys : List Bytes) → contains k (xs ++ ys) ≡ (contains k xs || contains k ys)
unfolding contains
contains-append k [] ys = refl
contains-append k (x ∷ xs) ys = ground (arith, contains-append k xs ys)

pub append-Distinct :
    (xs ys : List Bytes)
    → Distinct xs
    → Distinct ys
    → ((k : Bytes) → contains k xs ≡ true → contains k ys ≡ false)
    → Distinct (xs ++ ys)
unfolding contains
append-Distinct [] ys dx dy apart = dy
append-Distinct (x ∷ xs) ys dx dy apart = ground (
  arith,
  contains-append x xs ys,
  apart x,
  bytes_eq_refl x,
  append-Distinct xs ys dx.1 dy (λ k h. apart k (ground arith)),
)

erase : Bytes → List Bytes → List Bytes
erase k [] = []
erase k (x ∷ xs) = if bytes_eq x k then xs else x ∷ erase k xs

length-erase :
    (k : Bytes) (xs : List Bytes) → contains k xs ≡ true → suc (length (erase k xs)) ≡ length xs
unfolding erase contains
length-erase k [] h = cc
length-erase k (x ∷ xs) h = ground (arith, length-erase k xs)

contains-erase :
    (k j : Bytes) (xs : List Bytes)
    → contains j xs ≡ true
    → bytes_eq k j ≡ false
    → contains j (erase k xs) ≡ true
unfolding erase contains
contains-erase k j [] h ne = cc
contains-erase k j (x ∷ xs) h ne =
    ground (arith, bytes_eq_iff x k, bytes_eq_iff x j, bytes_eq_iff k j, contains-erase k j xs)

absent_differs :
    (x k : Bytes) (xs : List Bytes)
    → contains x xs ≡ false
    → contains k xs ≡ true
    → bytes_eq x k ≡ false
absent_differs x k xs absent there = elim (Bool-cases (bytes_eq x k)) [
  | inl same ↦ absurd (cc ((bytes_eq_iff x k).0 same))
  | inr other ↦ other
]

-- Distinct members of a list are no more than its length.
pub length-le_of_IsWithin :
    (xs ys : List Bytes) → Distinct xs → IsWithin xs ys → length xs ≤ length ys
unfolding contains
length-le_of_IsWithin [] ys d h = omega arith
length-le_of_IsWithin (x ∷ xs) ys d h =
    let here : contains x ys ≡ true = h x (rw (bytes_eq_refl x)) in
    let rest : IsWithin xs (erase x ys) =
      λ k m. contains-erase x k ys (h k (rw m (ground arith))) (absent_differs x k xs d.0 m) in
    omega (arith, length-erase x ys here, length-le_of_IsWithin xs (erase x ys) d.1 rest)

-- If they are as many as the list is long, they are all of it.
pub IsWithin-of_length :
    (xs ys : List Bytes) → Distinct xs → IsWithin xs ys → length ys ≤ length xs → IsWithin ys xs
unfolding contains
IsWithin-of_length xs ys d h len k there = elim (Bool-cases (contains k xs)) [
  | inl present ↦ present
  | inr absent ↦ absurd (
      omega (
        arith,
        length-le_of_IsWithin (k ∷ xs) ys (absent, d)
            (λ j m. elim (Bool-cases (bytes_eq k j)) [
              | inl same ↦ cc ((bytes_eq_iff k j).0 same)
              | inr other ↦ h j (ground arith)
            ]),
      ))
]
