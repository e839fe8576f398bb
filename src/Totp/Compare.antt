-- ===== src/Totp/Compare.antt =====
-- `constant_time_str_eq` of src/totp.rs decides equality, though it looks at every byte.
use Prim.Native.Nat.{bit_or, bit_xor}
use trino_core.Prelude.{
  ℕ, zero, suc, ◌+◌, ◌≤◌, ◌<◌, ◌≡◌, ◌↔◌, refl, ap, Bool, true, false, not, Bool-cases, inl, inr,
  ◌&&◌, ◌==◌, ltb, if◌then◌else◌, [], ◌∷◌, Bytes, AreBytes, length, arith,
}
use mathlib.Core.Path.{subst}
use trino_core.Totp.{differences, constant_time_str_eq}

-- A run over `count` numbers from `start` on that meets no failure.
no_failure : (ℕ → Bool) → ℕ → ℕ → Bool
no_failure test start zero = true
no_failure test start (suc count) =
    let later = no_failure test (suc start) count in if test start then later else false

no_failure_at :
    (test : ℕ → Bool) (start count k : ℕ)
    → no_failure test start count ≡ true
    → start ≤ k
    → k < start + count
    → test k ≡ true
unfolding no_failure
no_failure_at test start zero k passed from to = absurd (omega arith)
no_failure_at test start (suc count) k passed from to = elim (Bool-cases (start == k)) [
  | inl here ↦ let at : start ≡ k = ground arith in subst (λ n. test n ≡ true) at (ground arith)
  | inr there ↦ no_failure_at test (suc start) count k (ground arith) (ground arith) (omega arith)
]

-- On two bytes: `^` is zero on equal ones, `|` is zero on zeros, and both give bytes.
abbrev is_fine : ℕ → ℕ → Bool
is_fine x y =
    (if bit_xor x y == 0 then x == y else not (x == y))
    && (if bit_or x y == 0 then x == 0 && y == 0 else not (x == 0 && y == 0))
    && ltb (bit_xor x y) 256
    && ltb (bit_or x y) 256

-- The test passes on all pairs of bytes, by evaluation.
table : no_failure (λ x. no_failure (is_fine x) 0 256) 0 256 ≡ true
unfolding no_failure
table = refl

is_fine_lem : (x y : ℕ) → x < 256 → y < 256 → is_fine x y ≡ true
is_fine_lem x y hx hy =
    let row = no_failure_at (λ k. no_failure (is_fine k) 0 256) 0 256 x table (omega arith) hx in
    no_failure_at (is_fine x) 0 256 y row (omega arith) hy

xor-eq-zero : (x y : ℕ) → x < 256 → y < 256 → ((bit_xor x y ≡ 0) ↔ (x ≡ y)) × (bit_xor x y < 256)
xor-eq-zero x y hx hy = ground (arith, is_fine_lem x y hx hy)

or-eq-zero :
    (x y : ℕ) → x < 256 → y < 256 → ((bit_or x y ≡ 0) ↔ ((x ≡ 0) × (y ≡ 0))) × (bit_or x y < 256)
or-eq-zero x y hx hy = ground (arith, is_fine_lem x y hx hy)

differences_iff :
    (diff : ℕ) (a b : Bytes)
    → diff < 256
    → AreBytes a
    → AreBytes b
    → length a ≡ length b
    → (differences diff a b ≡ 0) ↔ ((diff ≡ 0) × (a ≡ b))
unfolding differences
differences_iff diff [] [] hd ha hb e = ground arith
differences_iff diff [] (y ∷ ys) hd ha hb e = absurd (omega (arith, e))
differences_iff diff (x ∷ xs) [] hd ha hb e = absurd (omega (arith, e))
differences_iff diff (x ∷ xs) (y ∷ ys) hd ha hb e =
    let (same, small) = xor-eq-zero x y ha.0 hb.0 in
    let (none_yet, byte) = or-eq-zero diff (bit_xor x y) hd small in
    let (f, g) =
      differences_iff (bit_or diff (bit_xor x y)) xs ys byte ha.1 hb.1 (omega (arith, e)) in
    (
      λ h.
          let (zero_so_far, rest) = f h in
          let (before, here) = none_yet.0 zero_so_far in (before, cc (same.0 here, rest)),
      λ h. g (none_yet.1 (h.0, same.1 (cc (h.1))), cc (h.1)),
    )

-- On byte strings the comparison decides equality.
pub constant_time_str_eq_iff :
    (a b : Bytes) → AreBytes a → AreBytes b → (constant_time_str_eq a b ≡ true) ↔ (a ≡ b)
unfolding constant_time_str_eq
constant_time_str_eq_iff a b ha hb = (
  λ h.
      let e : length a ≡ length b = ground arith in
      let zero_diff : differences 0 a b ≡ 0 = ground arith in
      ((differences_iff 0 a b (omega arith) ha hb e).0 zero_diff).1,
  λ e.
      let el : length a ≡ length b = ap length e in
      let zero_diff = (differences_iff 0 a b (omega arith) ha hb el).1 (refl, e) in
      ground (arith, zero_diff, el),
)
