-- ===== src/Identity/Prekeys/OneTime.antt =====
-- The report of a rotation, and the one-time use of one-time prekeys.
use trino_core.Prelude.{
  ℕ, suc, ◌≤◌, ◌≡◌, refl, Option, some, none, List, [], ◌∷◌, ◌==◌, if◌then◌else◌, false, length,
  arith, Bool-cases, inl, inr, Option-cases,
}
use trino_core.Prelude.Int.{ℤ}
use trino_core.Primitives.{Primitives, Rng}
use trino_core.Identity.Prekeys.{
  RetiredSignedPreKey, OneTimePreKey, Identity, retain_fresh, expire, rotate_signed_prekey_if_due,
  take_prekey, consume_one_time_prekey,
}

length-retain_fresh-le :
    (now : ℤ) (xs : List RetiredSignedPreKey) → length (retain_fresh now xs) ≤ length xs
unfolding retain_fresh
length-retain_fresh-le now [] = omega arith
length-retain_fresh-le now (x ∷ xs) = ground (arith, length-retain_fresh-le now xs)

retain_fresh_all :
    (now : ℤ) (xs : List RetiredSignedPreKey)
    → length (retain_fresh now xs) ≡ length xs
    → retain_fresh now xs ≡ xs
unfolding retain_fresh
retain_fresh_all now [] h = refl
retain_fresh_all now (x ∷ xs) h =
    ground (arith, retain_fresh_all now xs, length-retain_fresh-le now xs)

-- When a rotation reports no change, the identity is what it was, and no random bytes were
-- drawn.
pub rotation_unchanged :
    (p : Primitives) (identity : Identity) (now : ℤ) (r : Rng)
    → (rotate_signed_prekey_if_due p identity now r).0.1 ≡ false
    → rotate_signed_prekey_if_due p identity now r ≡ ((identity, false), r)
unfolding rotate_signed_prekey_if_due expire
rotation_unchanged p identity now r h =
    ground (arith, retain_fresh_all now identity.retired_signed_prekeys)

unfoldable count_id : ℕ → List OneTimePreKey → ℕ
count_id k [] = 0
count_id k (x ∷ xs) = if x.id == k then suc (count_id k xs) else count_id k xs

-- How often an id is among the one-time prekeys.
unfoldable pub stock : ℕ → Identity → ℕ
unfolding count_id
stock k identity = count_id k identity.one_time_prekeys

take_none : (k : ℕ) (xs : List OneTimePreKey) → take_prekey k xs ≡ none → count_id k xs ≡ 0
unfolding take_prekey count_id
take_none k [] e = refl
take_none k (x ∷ xs) e = ground (arith, take_none k xs)

take_some :
    (k j : ℕ) (xs rest : List OneTimePreKey) (x : OneTimePreKey)
    → take_prekey k xs ≡ some (x, rest)
    → (x.id ≡ k) × (count_id j xs ≡ (if j == k then suc (count_id j rest) else count_id j rest))
unfolding take_prekey count_id
take_some k j [] rest x e = cc
take_some k j (y ∷ ys) rest x e = elim (Bool-cases (y.id == k)) [
  | inl here ↦ ground arith
  | inr later ↦ elim (Option-cases (take_prekey k ys)) [
    | inl absent ↦ ground arith
    | inr (found, there) ↦ ground (arith, take_some k j ys found.1 found.0 there)
  ]
]

-- What consuming the id `k` did, by what it returned: nothing, and the id was not in stock; or a
-- prekey with that id, of which there is one less while all others are as many as before.
abbrev pub IsConsumed : ℕ → Identity → Option OneTimePreKey × Identity → Type 0
IsConsumed k before (none, after) = (after ≡ before) × (stock k before ≡ 0)
IsConsumed k before (some x, after) =
    (x.id ≡ k)
    × ((j : ℕ) → stock j before ≡ (if j == k then suc (stock j after) else stock j after))

-- Consuming a one-time prekey takes exactly one prekey of that id out of the stock and leaves as
-- many of every other id; or it returns nothing, changes nothing, and there was none of that id.
pub consume_one_time_prekey-IsConsumed :
    (identity : Identity) (k : ℕ) → IsConsumed k identity (consume_one_time_prekey identity k)
unfolding consume_one_time_prekey stock
consume_one_time_prekey-IsConsumed identity k =
    elim (Option-cases (take_prekey k identity.one_time_prekeys)) [
      | inl absent ↦
          rw (absent, consume_one_time_prekey) (refl, take_none k identity.one_time_prekeys absent)
      | inr ((x, rest), found) ↦
          rw (found, consume_one_time_prekey)
            (
              (take_some k k identity.one_time_prekeys rest x found).0,
              λ j. (take_some k j identity.one_time_prekeys rest x found).1,
            )
    ]
