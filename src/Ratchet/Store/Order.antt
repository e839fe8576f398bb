-- ===== src/Ratchet/Store/Order.antt =====
-- The order list of the skipped-key store: sorting, adoption and removal of entries.
use trino_core.Prelude.{
  ◌≡◌, refl, Bytes, List, [], ◌∷◌, not, bytes_eq, bytes_eq_iff, contains, false, ◌&&◌, ◌||◌, arith,
  Distinct, All, true, Bool-cases, inl, inr,
}
use trino_core.Ratchet.Store.{bytes_leb, insert_sorted, sort, unknown_keys, retain_ne}

contains-insert_sorted :
    (k x : Bytes) (xs : List Bytes)
    → contains k (insert_sorted x xs) ≡ (bytes_eq x k || contains k xs)
unfolding insert_sorted contains
contains-insert_sorted k x [] = refl
contains-insert_sorted k x (y ∷ ys) = ground (arith, contains-insert_sorted k x ys)

insert_sorted-Distinct :
    (x : Bytes) (xs : List Bytes)
    → contains x xs ≡ false
    → Distinct xs
    → Distinct (insert_sorted x xs)
unfolding insert_sorted contains
insert_sorted-Distinct x [] h d = ground arith
insert_sorted-Distinct x (y ∷ ys) h d = ground (
  arith,
  bytes_eq_iff x y,
  bytes_eq_iff y x,
  contains-insert_sorted y x ys,
  insert_sorted-Distinct x ys,
)

pub contains-sort : (k : Bytes) (xs : List Bytes) → contains k (sort xs) ≡ contains k xs
unfolding sort contains
contains-sort k [] = refl
contains-sort k (x ∷ xs) = ground (arith, contains-insert_sorted k x (sort xs), contains-sort k xs)

pub sort-Distinct : (xs : List Bytes) → Distinct xs → Distinct (sort xs)
unfolding sort
sort-Distinct [] d = tt
sort-Distinct (x ∷ xs) d =
    insert_sorted-Distinct x (sort xs) (ground (arith, contains-sort x xs)) (sort-Distinct xs d.1)

pub contains-unknown_keys :
    (k : Bytes) (known ks : List Bytes)
    → contains k (unknown_keys known ks) ≡ (not (contains k known) && contains k ks)
unfolding unknown_keys contains
contains-unknown_keys k known [] = ground arith
contains-unknown_keys k known (x ∷ ks) =
    ground (arith, bytes_eq_iff x k, contains-unknown_keys k known ks)

pub unknown_keys-Distinct : (known ks : List Bytes) → Distinct ks → Distinct (unknown_keys known ks)
unfolding unknown_keys
unknown_keys-Distinct known [] d = tt
unknown_keys-Distinct known (x ∷ ks) d =
    ground (arith, contains-unknown_keys x known ks, unknown_keys-Distinct known ks d.1)

pub contains-retain_ne :
    (id k : Bytes) (ks : List Bytes)
    → contains k (retain_ne id ks) ≡ (not (bytes_eq id k) && contains k ks)
unfolding retain_ne contains
contains-retain_ne id k [] = ground arith
contains-retain_ne id k (x ∷ ks) =
    ground
      (arith, bytes_eq_iff id k, bytes_eq_iff x k, bytes_eq_iff x id, contains-retain_ne id k ks)

pub retain_ne-Distinct : (id : Bytes) (ks : List Bytes) → Distinct ks → Distinct (retain_ne id ks)
unfolding retain_ne
retain_ne-Distinct id [] d = tt
retain_ne-Distinct id (x ∷ ks) d =
    ground (arith, contains-retain_ne id x ks, retain_ne-Distinct id ks d.1)

-- From the least to the greatest, in the order of `String`.
abbrev pub IsAscending : List Bytes → Type 0
IsAscending [] = Unit
IsAscending (x ∷ xs) = All (λ y. bytes_leb x y ≡ true) xs × IsAscending xs

bytes_leb_total : (x y : Bytes) → bytes_leb x y ≡ false → bytes_leb y x ≡ true
unfolding bytes_leb
bytes_leb_total [] y h = absurd (ground arith)
bytes_leb_total (a ∷ x) [] h = refl
bytes_leb_total (a ∷ x) (b ∷ y) h = ground (arith, bytes_leb_total x y)

bytes_leb_trans :
    (x y z : Bytes) → bytes_leb x y ≡ true → bytes_leb y z ≡ true → bytes_leb x z ≡ true
unfolding bytes_leb
bytes_leb_trans [] y z h k = refl
bytes_leb_trans (a ∷ x) [] z h k = absurd (ground arith)
bytes_leb_trans (a ∷ x) (b ∷ y) [] h k = absurd (ground arith)
bytes_leb_trans (a ∷ x) (b ∷ y) (c ∷ z) h k = ground (arith, bytes_leb_trans x y z)

lower_All :
    (x y : Bytes) (ys : List Bytes)
    → bytes_leb x y ≡ true
    → All (λ z. bytes_leb y z ≡ true) ys
    → All (λ z. bytes_leb x z ≡ true) ys
lower_All x y [] h a = tt
lower_All x y (z ∷ ys) h a = (bytes_leb_trans x y z h a.0, lower_All x y ys h a.1)

insert_sorted-All :
    (P : Bytes → Type 0) (x : Bytes) (xs : List Bytes) → P x → All P xs → All P (insert_sorted x xs)
unfolding insert_sorted
insert_sorted-All P x [] h a = (h, tt)
insert_sorted-All P x (y ∷ ys) h a = elim (Bool-cases (bytes_leb x y)) [
  | inl le ↦ rw le (h, a)
  | inr gt ↦ rw gt (a.0, insert_sorted-All P x ys h a.1)
]

insert_sorted-IsAscending :
    (x : Bytes) (xs : List Bytes) → IsAscending xs → IsAscending (insert_sorted x xs)
unfolding insert_sorted
insert_sorted-IsAscending x [] a = (tt, tt)
insert_sorted-IsAscending x (y ∷ ys) a = elim (Bool-cases (bytes_leb x y)) [
  | inl le ↦ rw le ((le, lower_All x y ys le a.0), a)
  | inr gt ↦
      rw gt
        (insert_sorted-All _ x ys (bytes_leb_total x y gt) a.0, insert_sorted-IsAscending x ys a.1)
]

pub sort-IsAscending : (xs : List Bytes) → IsAscending (sort xs)
unfolding sort
sort-IsAscending [] = tt
sort-IsAscending (x ∷ xs) = insert_sorted-IsAscending x (sort xs) (sort-IsAscending xs)
