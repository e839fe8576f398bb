-- ===== src/Tests/Toy/Codec.antt =====
-- Hexadecimal with lower-case digits.
use trino_core.Prelude.{
  ℕ, ◌+◌, ◌*◌, ◌-◌, ◌/◌, ◌%◌, ◌<◌, ◌≡◌, refl, true, ltb, leb, ◌&&◌, if◌then◌else◌, Option, some,
  none, [], ◌∷◌, Bytes, AreBytes, length, arith,
}
use trino_core.Primitives.{is_hex_digit, IsLowerHex}

unfoldable pub digit : ℕ → ℕ
digit n = if ltb n 10 then n + 48 else n + 87

unfoldable pub undigit : ℕ → Option ℕ
undigit b =
    if leb 48 b && leb b 57
    then some (b - 48)
    else if leb 97 b && leb b 102
    then some (b - 87)
    else none

abbrev pair : Option ℕ → Option ℕ → Option Bytes → Option Bytes
pair none l rest = none
pair (some h) none rest = none
pair (some h) (some l) none = none
pair (some h) (some l) (some rest) = some ((16 * h + l) ∷ rest)

unfoldable pub encode : Bytes → Bytes
unfolding digit
encode [] = []
encode (b ∷ bs) = digit (b / 16) ∷ digit (b % 16) ∷ encode bs

unfoldable pub decode : Bytes → Option Bytes
unfolding undigit
decode [] = some []
decode (x ∷ []) = none
decode (x ∷ y ∷ rest) = pair (undigit x) (undigit y) (decode rest)

undigit-digit : (n : ℕ) → n < 16 → undigit (digit n) ≡ some n
unfolding undigit digit
undigit-digit n h = ground arith

pub decode-encode : (v : Bytes) → AreBytes v → decode (encode v) ≡ some v
unfolding decode encode
decode-encode [] h = refl
decode-encode (b ∷ bs) h =
    let back : 16 * (b / 16) + b % 16 ≡ b = omega arith in
    rw (
      undigit-digit (b / 16) (omega (arith, h.0)),
      undigit-digit (b % 16) (omega arith),
      decode-encode bs h.1,
      back,
    )

undigit_lem : (x n : ℕ) → undigit x ≡ some n → (n < 16) × (digit n ≡ x)
unfolding undigit digit
undigit_lem x n h = ground arith

digit-lower : (n : ℕ) → n < 16 → is_hex_digit (digit n) ≡ true
unfolding digit
digit-lower n h = ground arith

pub length-encode : (v : Bytes) → length (encode v) ≡ 2 * length v
unfolding encode
length-encode [] = refl
length-encode (b ∷ bs) = omega (arith, length-encode bs)

pub encode-IsLowerHex : (v : Bytes) → AreBytes v → IsLowerHex (encode v)
unfolding encode
encode-IsLowerHex [] h = tt
encode-IsLowerHex (b ∷ bs) h = (
  digit-lower (b / 16) (omega (arith, h.0)),
  (digit-lower (b % 16) (omega arith), encode-IsLowerHex bs h.1),
)

-- What a successful decoding of two digits and the rest was made of.
pair_lem :
    (x y : Option ℕ) (rest : Option Bytes) (v : Bytes)
    → pair x y rest ≡ some v
    → (h l : ℕ) × (r : Bytes) × (x ≡ some h)
      × (y ≡ some l)
      × (rest ≡ some r)
      × (v ≡ ((16 * h + l) ∷ r))
pair_lem none y rest v e = absurd (ground arith)
pair_lem (some h) none rest v e = absurd (ground arith)
pair_lem (some h) (some l) none v e = absurd (ground arith)
pair_lem (some h) (some l) (some r) v e = (h, l, r, refl, refl, refl, ground arith)

pub decode-AreBytes : (s v : Bytes) → decode s ≡ some v → AreBytes v
unfolding decode
decode-AreBytes [] v e = ground arith
decode-AreBytes (x ∷ []) v e = absurd (ground arith)
decode-AreBytes (x ∷ y ∷ rest) v e =
    let (h, l, r, eh, el, er, ev) = pair_lem _ _ _ v e in
    rw ev (omega (arith, (undigit_lem x h eh).0, (undigit_lem y l el).0), decode-AreBytes rest r er)

pub encode-decode : (s v : Bytes) → IsLowerHex s → decode s ≡ some v → encode v ≡ s
unfolding decode encode
encode-decode [] v lower e = ground arith
encode-decode (x ∷ []) v lower e = absurd (ground arith)
encode-decode (x ∷ y ∷ rest) v lower e =
    let (h, l, r, eh, el, er, ev) = pair_lem _ _ _ v e in
    let (bh, dh) = undigit_lem x h eh in
    let (bl, dl) = undigit_lem y l el in
    let high : (16 * h + l) / 16 ≡ h = omega (arith, bl) in
    let low : (16 * h + l) % 16 ≡ l = omega (arith, bl) in
    rw (ev, encode, high, low, dh, dl, encode-decode rest r lower.1.1 er)
