-- ===== src/Prelude/Int.antt =====
-- Signed integers over the native numbers, and Rust's `i64`.
use Prim.Native.Nat.{ℕ, suc, ◌+◌, ◌-◌, ◌%◌, ◌^◌, ◌≤◌, ◌<◌}
use mathlib.Core.Bool.{Bool}
use mathlib.Core.Path.{◌≡◌}
use native.Mathlib.Omega.{arith}
use trino_core.Prelude.Tests.{ltb, leb, if◌then◌else◌}

-- `negsuc n` is -(n + 1).
pub data ℤ : Type 0 where
  pos : ℕ → ℤ
  negsuc : ℕ → ℤ

abbrev pub pos_part : ℤ → ℕ
pos_part (pos n) = n
pos_part (negsuc n) = 0

abbrev pub neg_part : ℤ → ℕ
neg_part (pos n) = 0
neg_part (negsuc n) = suc n

-- a - b, as an integer.
abbrev pub sub_ℕ : ℕ → ℕ → ℤ
sub_ℕ a b = if leb b a then pos (a - b) else negsuc (b - a - 1)

infix 50 ◌≤ℤ◌
abbrev pub ◌≤ℤ◌ : ℤ → ℤ → Type 0
a ≤ℤ b = pos_part a + neg_part b ≤ pos_part b + neg_part a

abbrev pub ltb_ℤ : ℤ → ℤ → Bool
ltb_ℤ a b = ltb (pos_part a + neg_part b) (pos_part b + neg_part a)

abbrev pub leb_ℤ : ℤ → ℤ → Bool
leb_ℤ a b = leb (pos_part a + neg_part b) (pos_part b + neg_part a)

-- The bit pattern of 64 bits, and the number that it stands for.
abbrev pub to_bits : ℤ → ℕ
to_bits (pos n) = n % 2 ^ 64
to_bits (negsuc n) = 2 ^ 64 - 1 - n % 2 ^ 64

abbrev pub of_bits : ℕ → ℤ
of_bits u = if ltb u (2 ^ 63) then pos u else negsuc (2 ^ 64 - 1 - u)

-- `a - b` on `i64`.
unfoldable pub sub_i64 : ℤ → ℤ → ℤ
sub_i64 a b = of_bits (to_bits (sub_ℕ (pos_part a + neg_part b) (neg_part a + pos_part b)))

-- `a + b` on `i64`.
unfoldable pub add_i64 : ℤ → ℤ → ℤ
add_i64 a b = of_bits (to_bits (sub_ℕ (pos_part a + pos_part b) (neg_part a + neg_part b)))

-- A time between the epoch and 2^62 seconds after it.
abbrev pub IsTime : ℤ → Type 0
IsTime t = (neg_part t ≡ 0) × (pos_part t < 2 ^ 62)

-- Between such times the subtraction does not wrap.
pub sub_i64-IsTime :
    (a b : ℤ)
    → IsTime a
    → IsTime b
    → (pos_part (sub_i64 a b) + pos_part b ≡ neg_part (sub_i64 a b) + pos_part a)
unfolding sub_i64
sub_i64-IsTime a b h k = ground arith
