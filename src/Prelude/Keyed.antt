-- ===== src/Prelude/Keyed.antt =====
-- A hash map keyed by byte strings, as an association list with one entry for a key.
use Prim.Native.Nat.{suc, ◌≤◌}
use mathlib.Core.Bool.{true, false}
use mathlib.Core.List.{List, [], ◌∷◌}
use mathlib.Core.Option.{Option, none, some}
use mathlib.Core.Path.{◌≡◌, refl}
use native.Mathlib.Omega.{arith}
use trino_core.Prelude.Lists.{Bytes, length, bytes_eq, bytes_eq_iff, contains, Distinct}
use trino_core.Prelude.Tests.{if◌then◌else◌}

module _ {ℓ} {V : Type ℓ} where
  abbrev pub keys : List (Bytes × V) → List Bytes
  keys [] = []
  keys ((j, v) ∷ m) = j ∷ keys m

  unfoldable pub lookup : Bytes → List (Bytes × V) → Option V
  lookup k [] = none
  lookup k ((j, v) ∷ m) = if bytes_eq j k then some v else lookup k m

  unfoldable pub insert : Bytes → V → List (Bytes × V) → List (Bytes × V)
  insert k v [] = (k, v) ∷ []
  insert k v ((j, w) ∷ m) = if bytes_eq j k then (k, v) ∷ m else (j, w) ∷ insert k v m

  unfoldable pub remove : Bytes → List (Bytes × V) → List (Bytes × V)
  remove k [] = []
  remove k ((j, w) ∷ m) = if bytes_eq j k then m else (j, w) ∷ remove k m

  pub lookup-insert :
      (k j : Bytes) (v : V) (m : List (Bytes × V))
      → lookup j (insert k v m) ≡ (if bytes_eq k j then some v else lookup j m)
  unfolding lookup insert
  lookup-insert k j v [] = refl
  lookup-insert k j v ((i, w) ∷ m) =
      ground (arith, bytes_eq_iff k j, bytes_eq_iff i k, bytes_eq_iff i j, lookup-insert k j v m)

  pub lookup-eq-none :
      (k : Bytes) (m : List (Bytes × V)) → contains k (keys m) ≡ false → lookup k m ≡ none
  unfolding lookup contains
  lookup-eq-none k [] h = refl
  lookup-eq-none k ((i, w) ∷ m) h = ground (arith, lookup-eq-none k m)

  pub contains-keys_of_none :
      (k : Bytes) (m : List (Bytes × V)) → lookup k m ≡ none → contains k (keys m) ≡ false
  unfolding lookup contains
  contains-keys_of_none k [] h = refl
  contains-keys_of_none k ((i, w) ∷ m) h = ground (arith, contains-keys_of_none k m)

  pub contains-keys_of_some :
      (k : Bytes) (v : V) (m : List (Bytes × V)) → lookup k m ≡ some v → contains k (keys m) ≡ true
  unfolding lookup contains
  contains-keys_of_some k v [] h = ground arith
  contains-keys_of_some k v ((i, w) ∷ m) h = ground (arith, contains-keys_of_some k v m)

  pub lookup-remove :
      (k j : Bytes) (m : List (Bytes × V))
      → Distinct (keys m)
      → lookup j (remove k m) ≡ (if bytes_eq k j then none else lookup j m)
  unfolding lookup remove
  lookup-remove k j [] h = ground arith
  lookup-remove k j ((i, w) ∷ m) h = ground (
    arith,
    bytes_eq_iff k j,
    bytes_eq_iff i k,
    bytes_eq_iff i j,
    lookup-remove k j m h.1,
    lookup-eq-none i m h.0,
  )

  pub length-insert :
      (k : Bytes) (v : V) (m : List (Bytes × V))
      → length (insert k v m) ≡ (if contains k (keys m) then length m else suc (length m))
  unfolding insert contains
  length-insert k v [] = refl
  length-insert k v ((i, w) ∷ m) = ground (arith, length-insert k v m)

  pub length-remove :
      (k : Bytes) (m : List (Bytes × V))
      → contains k (keys m) ≡ true
      → suc (length (remove k m)) ≡ length m
  unfolding remove contains
  length-remove k [] h = cc
  length-remove k ((i, w) ∷ m) h = ground (arith, length-remove k m)

  pub contains-insert :
      (k j : Bytes) (v : V) (m : List (Bytes × V))
      → contains j (keys (insert k v m)) ≡ (if bytes_eq k j then true else contains j (keys m))
  unfolding contains insert
  contains-insert k j v [] = ground arith
  contains-insert k j v ((i, w) ∷ m) =
      ground (arith, bytes_eq_iff k j, bytes_eq_iff i k, bytes_eq_iff i j, contains-insert k j v m)

  pub insert-Distinct :
      (k : Bytes) (v : V) (m : List (Bytes × V))
      → Distinct (keys m)
      → Distinct (keys (insert k v m))
  unfolding insert contains
  insert-Distinct k v [] h = ground arith
  insert-Distinct k v ((i, w) ∷ m) h = ground (
    arith,
    bytes_eq_iff i k,
    bytes_eq_iff k i,
    contains-insert k i v m,
    insert-Distinct k v m h.1,
  )

  pub contains-remove :
      (k j : Bytes) (m : List (Bytes × V))
      → Distinct (keys m)
      → contains j (keys (remove k m)) ≡ (if bytes_eq k j then false else contains j (keys m))
  unfolding contains remove
  contains-remove k j [] h = ground arith
  contains-remove k j ((i, w) ∷ m) h =
      ground
        (arith, bytes_eq_iff k j, bytes_eq_iff i k, bytes_eq_iff i j, contains-remove k j m h.1)

  pub remove-Distinct :
      (k : Bytes) (m : List (Bytes × V)) → Distinct (keys m) → Distinct (keys (remove k m))
  unfolding remove
  remove-Distinct k [] h = tt
  remove-Distinct k ((i, w) ∷ m) h =
      ground (arith, contains-remove k i m h.1, remove-Distinct k m h.1)

  pub length-remove-le : (k : Bytes) (m : List (Bytes × V)) → length (remove k m) ≤ length m
  unfolding remove
  length-remove-le k [] = omega arith
  length-remove-le k ((i, w) ∷ m) = ground (arith, length-remove-le k m)
