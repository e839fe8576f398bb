-- ===== src/Identity/Lifetime/Retained.antt =====
-- The list of retired prekeys of src/identity.rs, as it grows and expires in order.
use trino_core.Prelude.{
  ◌≤◌, ◌<◌, ◌≡◌, refl, ap, true, Bool-cases, inl, inr, List, [], ◌∷◌, ◌++◌, All, arith,
}
use trino_core.Prelude.Int.{ℤ, IsTime, pos_part, sub_i64-IsTime}
use trino_core.Identity.Prekeys.{SignedPreKey, RetiredSignedPreKey, retain_fresh, is_retained}
use trino_core.Identity.Prekeys.Rotation.{AreLinked, All-snoc}

-- Times of retirement do not fall.
abbrev pub Ascend : List RetiredSignedPreKey → Type 0
Ascend [] = Unit
Ascend (x ∷ xs) = All (λ y. pos_part x.retired_at ≤ pos_part y.retired_at) xs × Ascend xs

-- What expires is a part of the list.
pub All-retain_fresh :
    (P : RetiredSignedPreKey → Type 0) (now : ℤ) (xs : List RetiredSignedPreKey)
    → All P xs
    → All P (retain_fresh now xs)
unfolding retain_fresh
All-retain_fresh P now [] h = tt
All-retain_fresh P now (x ∷ xs) h = elim (Bool-cases (is_retained now x)) [
  | inl kept ↦ rw (kept) (h.0, All-retain_fresh P now xs h.1)
  | inr dropped ↦ rw (dropped) (All-retain_fresh P now xs h.1)
]

module _ (now : ℤ) (tn : IsTime now) where
  is_retained-later :
      (x y : RetiredSignedPreKey)
      → IsTime x.retired_at
      → IsTime y.retired_at
      → pos_part x.retired_at ≤ pos_part y.retired_at
      → is_retained now x ≡ true
      → is_retained now y ≡ true
  unfolding is_retained
  is_retained-later x y tx ty h kept =
      ground (arith, sub_i64-IsTime now x.retired_at tn tx, sub_i64-IsTime now y.retired_at tn ty)

  -- If the first key of an ascending list is kept, all are.
  retain_fresh_same :
      (x : RetiredSignedPreKey) (xs : List RetiredSignedPreKey)
      → is_retained now x ≡ true
      → IsTime x.retired_at
      → All (λ y. IsTime y.retired_at) xs
      → All (λ y. pos_part x.retired_at ≤ pos_part y.retired_at) xs
      → retain_fresh now xs ≡ xs
  unfolding retain_fresh
  retain_fresh_same x [] kept tx ts h = refl
  retain_fresh_same x (y ∷ ys) kept tx ts h =
      let also = is_retained-later x y tx ts.0 h.0 kept in
      rw also (ap (◌∷◌ y) (retain_fresh_same x ys kept tx ts.1 h.1))

  pub retain_fresh-Ascend :
      (xs : List RetiredSignedPreKey) → Ascend xs → Ascend (retain_fresh now xs)
  unfolding retain_fresh
  retain_fresh-Ascend [] h = tt
  retain_fresh-Ascend (x ∷ xs) h = elim (Bool-cases (is_retained now x)) [
    | inl kept ↦ rw kept (All-retain_fresh _ now xs h.0, retain_fresh-Ascend xs h.1)
    | inr dropped ↦ rw dropped (retain_fresh-Ascend xs h.1)
  ]

  -- The oldest keys expire first, so the others stay linked.
  pub retain_fresh-AreLinked :
      (xs : List RetiredSignedPreKey) (current : SignedPreKey)
      → All (λ x. IsTime x.retired_at) xs
      → Ascend xs
      → AreLinked xs current
      → AreLinked (retain_fresh now xs) current
  unfolding retain_fresh
  retain_fresh-AreLinked [] current ts a l = tt
  retain_fresh-AreLinked (x ∷ xs) current ts a l = elim (Bool-cases (is_retained now x)) [
    | inl kept ↦ rw (kept, retain_fresh_same x xs kept ts.0 ts.1 a.0) l
    | inr dropped ↦ rw dropped (retain_fresh-AreLinked xs current ts.1 a.1 l.2)
  ]

pub All-impl {ℓ κ μ} :
    {A : Type ℓ} (P : A → Type κ) (Q : A → Type μ) (xs : List A)
    → ((x : A) → P x → Q x)
    → All P xs
    → All Q xs
All-impl P Q [] f h = tt
All-impl P Q (x ∷ xs) f h = (f x h.0, All-impl P Q xs f h.1)

pub Ascend-snoc :
    (xs : List RetiredSignedPreKey) (y : RetiredSignedPreKey)
    → Ascend xs
    → All (λ x. pos_part x.retired_at ≤ pos_part y.retired_at) xs
    → Ascend (xs ++ (y ∷ []))
Ascend-snoc [] y a h = (tt, tt)
Ascend-snoc (x ∷ xs) y a h = (All-snoc _ xs y a.0 h.0, Ascend-snoc xs y a.1 h.1)

pub AreLinked-snoc :
    (xs : List RetiredSignedPreKey) (y : RetiredSignedPreKey) (current fresh : SignedPreKey)
    → AreLinked xs current
    → y.prekey ≡ current
    → current.id < fresh.id
    → y.retired_at ≡ fresh.created_at
    → AreLinked (xs ++ (y ∷ [])) fresh
AreLinked-snoc [] y current fresh l e up at = (rw e up, at, tt)
AreLinked-snoc (x ∷ []) y current fresh l e up at = (rw e l.0, rw e l.1, (rw e up, at, tt))
AreLinked-snoc (x ∷ x' ∷ xs) y current fresh l e up at =
    (l.0, l.1, AreLinked-snoc (x' ∷ xs) y current fresh l.2 e up at)
