-- ===== src/Prelude/Decimal.antt =====
-- `to_string` of an unsigned integer, `to_be_bytes` of a `u32`, and that they lose nothing.
use trino_core.Prelude.Tests.{ltb, if◌then◌else◌}
use trino_core.Prelude.Lists.{Bytes}
use Prim.Native.Nat.{ℕ, zero, suc, ◌+◌, ◌-◌, ◌*◌, ◌/◌, ◌%◌, ◌^◌, ◌<◌}
use mathlib.Core.List.{[], ◌∷◌, ◌++◌}
use mathlib.Core.Path.{◌≡◌, refl, sym, ap, ◌∙◌}
use native.Mathlib.Omega.{arith}

-- The digits, most significant first; a number has fewer digits than the fuel `suc n`.
unfoldable pub decimal_digits : ℕ → ℕ → Bytes
decimal_digits zero n = []
decimal_digits (suc fuel) n =
    let more = decimal_digits fuel (n / 10) in
    if ltb n 10 then (48 + n) ∷ [] else more ++ ((48 + n % 10) ∷ [])

unfoldable pub decimal : ℕ → Bytes
unfolding decimal_digits
decimal n = decimal_digits (suc n) n

-- Reading the digits back.
unfoldable pub read_digits : ℕ → Bytes → ℕ
read_digits acc [] = acc
read_digits acc (d ∷ ds) = read_digits (acc * 10 + (d - 48)) ds

pub read_digits-append :
    (acc : ℕ) (xs ys : Bytes) → read_digits acc (xs ++ ys) ≡ read_digits (read_digits acc xs) ys
unfolding read_digits
read_digits-append acc [] ys = refl
read_digits-append acc (x ∷ xs) ys = read_digits-append (acc * 10 + (x - 48)) xs ys

read_digits-decimal_digits : (fuel n : ℕ) → n < fuel → read_digits 0 (decimal_digits fuel n) ≡ n
unfolding decimal_digits read_digits
read_digits-decimal_digits zero n h = elim h [ ]
read_digits-decimal_digits (suc fuel) n h = ground (
  arith,
  read_digits-append 0 (decimal_digits fuel (n / 10)) ((48 + n % 10) ∷ []),
  read_digits-decimal_digits fuel (n / 10),
)

pub read_digits-decimal : (n : ℕ) → read_digits 0 (decimal n) ≡ n
unfolding decimal
read_digits-decimal n = read_digits-decimal_digits (suc n) n (omega arith)

pub decimal_injective : (n m : ℕ) → decimal n ≡ decimal m → n ≡ m
decimal_injective n m e = sym (read_digits-decimal n) ∙ ap (read_digits 0) e ∙ read_digits-decimal m

unfoldable pub to_be_bytes : ℕ → Bytes
to_be_bytes n = (n / 2 ^ 24 % 256) ∷ (n / 2 ^ 16 % 256) ∷ (n / 2 ^ 8 % 256) ∷ (n % 256) ∷ []
