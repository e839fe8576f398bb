-- ===== src/Totp/Code.antt =====
-- The codes of src/totp.rs: six digits, which spell the truncated digest.
use native.Mathlib.Nat.{one-le-pow, div-le_self}
use native.Mathlib.Omega.{arith, pow_step}
use trino_core.Prelude.{
  ℕ, zero, suc, ◌+◌, ◌-◌, ◌*◌, ◌/◌, ◌%◌, ◌^◌, ◌≤◌, ◌<◌, ◌≡◌, refl, ap, ◌∙◌, true, All, [], ◌∷◌,
  ◌++◌, Bytes, AreBytes, length, length-append, length-drop, Bool-cases, take, drop, ltb, inl, inr,
}
use trino_core.Prelude.Decimal.{decimal, decimal_digits, read_digits, read_digits-decimal}
use trino_core.Totp.{
  HmacSha1, truncated, zeros, padded, totp_code, is_ascii_digit, to_be_bytes_64, byte_at,
}

abbrev pub AreDigits : Bytes → Type 0
AreDigits = All (λ c. is_ascii_digit c ≡ true)

AreDigits-append : (a b : Bytes) → AreDigits a → AreDigits b → AreDigits (a ++ b)
AreDigits-append [] b ha hb = hb
AreDigits-append (c ∷ a) b ha hb = (ha.0, AreDigits-append a b ha.1 hb)

decimal_digits-AreDigits : (fuel n : ℕ) → AreDigits (decimal_digits fuel n)
unfolding decimal_digits
decimal_digits-AreDigits zero n = tt
decimal_digits-AreDigits (suc fuel) n = elim (Bool-cases (ltb n 10)) [
  | inl small ↦ let digit : is_ascii_digit (48 + n) ≡ true = ground arith in rw small (digit, tt)
  | inr large ↦
      let digit : is_ascii_digit (48 + n % 10) ≡ true = ground arith in
      rw large (
        AreDigits-append (decimal_digits fuel (n / 10)) ((48 + n % 10) ∷ [])
          (decimal_digits-AreDigits fuel (n / 10)) (digit, tt))
]

zeros-AreDigits : (n : ℕ) → AreDigits (zeros n)
unfolding zeros
zeros-AreDigits zero = tt
zeros-AreDigits (suc n) = (refl, zeros-AreDigits n)

length-zeros : (n : ℕ) → length (zeros n) ≡ n
unfolding zeros
length-zeros zero = refl
length-zeros (suc n) = ap suc (length-zeros n)

read_digits-zeros : (n : ℕ) (b : Bytes) → read_digits 0 (zeros n ++ b) ≡ read_digits 0 b
unfolding zeros read_digits
read_digits-zeros zero b = refl
read_digits-zeros (suc n) b = read_digits-zeros n b

-- A number below a power of ten has no more digits than the exponent.
length-decimal_digits-le : (k fuel n : ℕ) → n < 10 ^ suc k → length (decimal_digits fuel n) ≤ suc k
unfolding decimal_digits
length-decimal_digits-le k zero n h = omega arith
length-decimal_digits-le zero (suc fuel) n h = ground arith
length-decimal_digits-le (suc k) (suc fuel) n h =
    let step : 10 ^ suc (suc k) ≡ 10 * 10 ^ suc k = pow_step 10 (suc k) in
    let below : n / 10 < 10 ^ suc k = omega (arith, step, h) in
    ground (
      arith,
      length-decimal_digits-le k fuel (n / 10) below,
      length-append (decimal_digits fuel (n / 10)) ((48 + n % 10) ∷ []),
    )

pub length-padded : (width n : ℕ) → n < 10 ^ suc width → length (padded (suc width) n) ≡ suc width
unfolding padded decimal
length-padded width n h = omega (
  arith,
  length-append (zeros (suc width - length (decimal n))) (decimal n),
  length-zeros (suc width - length (decimal n)),
  length-decimal_digits-le width (suc n) n h,
)

pub padded-AreDigits : (width n : ℕ) → AreDigits (padded width n)
unfolding padded decimal
padded-AreDigits width n =
    AreDigits-append (zeros (width - length (decimal n))) (decimal n) (zeros-AreDigits _)
      (decimal_digits-AreDigits (suc n) n)

pub read_digits-padded : (width n : ℕ) → read_digits 0 (padded width n) ≡ n
unfolding padded
read_digits-padded width n =
    read_digits-zeros (width - length (decimal n)) (decimal n) ∙ read_digits-decimal n

-- The number that bytes spell, the first being the most significant.
abbrev pub be_number : Bytes → ℕ
be_number [] = 0
be_number (b ∷ bs) = b * 256 ^ length bs + be_number bs

abbrev pub last_byte : Bytes → ℕ
last_byte [] = 0
last_byte (b ∷ []) = b
last_byte (b ∷ c ∷ bs) = last_byte (c ∷ bs)

-- The dynamic truncation of RFC 4226: the last four bits name an offset, and of the four bytes
-- there the top bit is left out.
abbrev pub dynamic_truncation : Bytes → ℕ
dynamic_truncation mac = be_number (take 4 (drop (last_byte mac % 16) mac)) % 2 ^ 31

byte_at-drop : (i j n : ℕ) (bs : Bytes) → n ≡ i + j → byte_at n bs ≡ byte_at j (drop i bs)
byte_at-drop zero j n bs e = ap (λ m. byte_at m bs) (omega (arith, e))
byte_at-drop (suc i) j n [] e = refl
byte_at-drop (suc i) j zero (b ∷ bs) e = absurd (omega arith)
byte_at-drop (suc i) j (suc n) (b ∷ bs) e = byte_at-drop i j n bs (omega arith)

byte_at-last_byte : (b : ℕ) (bs : Bytes) → byte_at (length bs) (b ∷ bs) ≡ last_byte (b ∷ bs)
byte_at-last_byte b [] = refl
byte_at-last_byte b (c ∷ bs) = byte_at-last_byte c bs

drop-AreBytes : (i : ℕ) (bs : Bytes) → AreBytes bs → AreBytes (drop i bs)
drop-AreBytes zero bs h = h
drop-AreBytes (suc i) [] h = tt
drop-AreBytes (suc i) (b ∷ bs) h = drop-AreBytes i bs h.1

word_lem :
    (bs : Bytes)
    → 4 ≤ length bs
    → AreBytes bs
    → byte_at 0 bs % 128 * 2 ^ 24 + byte_at 1 bs * 2 ^ 16 + byte_at 2 bs * 2 ^ 8 + byte_at 3 bs
      ≡ be_number (take 4 bs) % 2 ^ 31
word_lem [] h a = absurd (omega arith)
word_lem (w ∷ []) h a = absurd (omega arith)
word_lem (w ∷ x ∷ []) h a = absurd (omega arith)
word_lem (w ∷ x ∷ y ∷ []) h a = absurd (omega arith)
word_lem (w ∷ x ∷ y ∷ z ∷ bs) h a = omega (arith, a.0, a.1.0, a.1.1.0, a.1.1.1.0)

truncated_lem :
    (mac : Bytes) → length mac ≡ 20 → AreBytes mac → truncated mac ≡ dynamic_truncation mac
unfolding truncated
truncated_lem [] h a = absurd (omega arith)
truncated_lem (b ∷ bs) h a =
    let mac = b ∷ bs in
    let i = last_byte mac % 16 in
    let o = byte_at (length mac - 1) mac % 16 in
    let end : length mac - 1 ≡ length bs = omega arith in
    let start : o ≡ i =
      ap (λ n. byte_at n mac % 16) end ∙ ap (λ n. n % 16) (byte_at-last_byte b bs) in
    omega (
      arith,
      byte_at-drop i 0 o mac (omega (arith, start)),
      byte_at-drop i 1 (o + 1) mac (omega (arith, start)),
      byte_at-drop i 2 (o + 2) mac (omega (arith, start)),
      byte_at-drop i 3 (o + 3) mac (omega (arith, start)),
      word_lem (drop i mac) (omega (arith, h, length-drop i mac)) (drop-AreBytes i mac a),
    )

be_number-to_be_bytes_64 : (n : ℕ) → n < 2 ^ 64 → be_number (to_be_bytes_64 n) ≡ n
be_number-to_be_bytes_64 n h = omega arith

to_be_bytes_64-AreBytes : (n : ℕ) → AreBytes (to_be_bytes_64 n)
to_be_bytes_64-AreBytes n = ground arith

pub totp_code-AreDigits :
    (hmac : HmacSha1) (secret : Bytes) (time digits step : ℕ)
    → let code = totp_code hmac secret time (suc digits) step in
      (length code ≡ suc digits) × AreDigits code
unfolding totp_code
totp_code-AreDigits hmac secret time digits step =
    let n = truncated (hmac secret (to_be_bytes_64 (time / step))) % 10 ^ suc digits in
    let small : n < 10 ^ suc digits = grind (arith, one-le-pow (suc digits) 10) in
    (length-padded digits n small, padded-AreDigits (suc digits) n)

-- If the HMAC has 20 bytes, a code of one to nine digits at a time below 2^64, with a step that
-- is not 0, has exactly as many characters as asked for, all of them digits. It spells, modulo
-- that power of ten, the dynamic truncation of RFC 4226 (the big-endian number in the four bytes
-- at the offset that the low half of the last byte names, modulo 2^31) of the HMAC of an
-- eight-byte string that is the number of the step in big-endian.
pub totp_code_lem :
    (hmac : HmacSha1) (secret : Bytes) (time digits step : ℕ)
    → ((m : Bytes) → (length (hmac secret m) ≡ 20) × AreBytes (hmac secret m))
    → time < 2 ^ 64
    → digits < 9
    → 0 < step
    → let code = totp_code hmac secret time (suc digits) step in
      (counter : Bytes) × (length counter ≡ 8)
      × AreBytes counter
      × (be_number counter ≡ time / step)
      × (length code ≡ suc digits)
      × AreDigits code
      × (read_digits 0 code ≡ dynamic_truncation (hmac secret counter) % 10 ^ suc digits)
unfolding totp_code
totp_code_lem hmac secret time digits step tag fits few positive =
    let counter = to_be_bytes_64 (time / step) in
    let mac = hmac secret counter in
    let (len, are_digits) = totp_code-AreDigits hmac secret time digits step in
    (
      counter,
      refl,
      to_be_bytes_64-AreBytes (time / step),
      be_number-to_be_bytes_64 (time / step) (omega (arith, div-le_self time step)),
      len,
      are_digits,
      read_digits-padded (suc digits) (truncated mac % 10 ^ suc digits)
          ∙ ap (λ t. t % 10 ^ suc digits) (truncated_lem mac (tag counter).0 (tag counter).1),
    )

pub AreDigits-AreBytes : (a : Bytes) → AreDigits a → AreBytes a
AreDigits-AreBytes [] h = tt
AreDigits-AreBytes (c ∷ a) h = (ground (arith, h.0), AreDigits-AreBytes a h.1)

-- A code is a byte string.
pub totp_code-AreBytes :
    (hmac : HmacSha1) (secret : Bytes) (time digits step : ℕ)
    → AreBytes (totp_code hmac secret time digits step)
unfolding totp_code
totp_code-AreBytes hmac secret time digits step = AreDigits-AreBytes _ (padded-AreDigits digits _)
