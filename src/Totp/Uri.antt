-- ===== src/Totp/Uri.antt =====
-- `urlencode` of src/totp.rs loses nothing, and writes only what a URI may hold.
use trino_core.Prelude.{
  ℕ, ◌+◌, ◌-◌, ◌*◌, ◌/◌, ◌%◌, ◌<◌, ◌≡◌, ◌⊎◌, inl, inr, refl, ap, ◌∙◌, true, Bool-cases, ltb, ◌==◌,
  if◌then◌else◌, List, [], ◌∷◌, ◌++◌, Bytes, AreBytes, All, arith,
}
use trino_core.Totp.{is_unreserved, upper_hex, percent, utf8_char, utf8, urlencode}

-- What a reader of the URI makes of it: `%` and two digits are a byte.
pub hex_value : ℕ → ℕ
hex_value d = if ltb d 58 then d - 48 else d - 55

pub unescape : Bytes → Bytes
unfolding hex_value
unescape [] = []
unescape (c ∷ []) = c ∷ []
unescape (c ∷ d ∷ []) = c ∷ d ∷ []
unescape (c ∷ d ∷ e ∷ rest) =
    let shorter = unescape rest in
    let longer = unescape (d ∷ e ∷ rest) in
    if c == b'%' then (hex_value d * 16 + hex_value e) ∷ shorter else c ∷ longer

unescape-percent :
    (bs rest : Bytes) → AreBytes bs → unescape (percent bs ++ rest) ≡ bs ++ unescape rest
unfolding unescape hex_value percent upper_hex
unescape-percent [] rest h = refl
unescape-percent (b ∷ bs) rest h =
    let more = unescape-percent bs rest h.1 in ground (arith, h.0, more)

unescape-unreserved :
    (c : ℕ) (rest : Bytes) → is_unreserved c ≡ true → unescape (c ∷ rest) ≡ c ∷ unescape rest
unfolding unescape is_unreserved
unescape-unreserved c [] h = refl
unescape-unreserved c (d ∷ []) h = refl
unescape-unreserved c (d ∷ e ∷ rest) h = ground arith

-- Code points.
abbrev pub AreChars : List ℕ → Type 0
AreChars = All (λ c. c < 0x110000)

utf8_char-AreBytes : (c : ℕ) → c < 0x110000 → AreBytes (utf8_char c)
unfolding utf8_char
utf8_char-AreBytes c h = ground arith

utf8_char-unreserved : (c : ℕ) → is_unreserved c ≡ true → utf8_char c ≡ c ∷ []
unfolding utf8_char is_unreserved
utf8_char-unreserved c h = ground arith

-- Reading back.
unescape-urlencode : (cs : List ℕ) → AreChars cs → unescape (urlencode cs) ≡ utf8 cs
unfolding urlencode utf8 unescape
unescape-urlencode [] h = refl
unescape-urlencode (c ∷ cs) h = elim (Bool-cases (is_unreserved c)) [
  | inl plain ↦
      rw (plain, utf8_char-unreserved c plain)
        (unescape-unreserved c (urlencode cs) plain ∙ ap (◌∷◌ c) (unescape-urlencode cs h.1))
  | inr special ↦ rw special (
      unescape-percent (utf8_char c) (urlencode cs) (utf8_char-AreBytes c h.0)
      ∙ ap (◌++◌ (utf8_char c)) (unescape-urlencode cs h.1))
]

-- Letters, digits, `-`, `_`, `.`, `~`, and `%`.
abbrev pub IsSafe : ℕ → Type 0
IsSafe b = (is_unreserved b ≡ true) ⊎ (b ≡ b'%')

All-append : (xs ys : Bytes) → All IsSafe xs → All IsSafe ys → All IsSafe (xs ++ ys)
All-append [] ys h k = k
All-append (x ∷ xs) ys h k = (h.0, All-append xs ys h.1 k)

upper_hex-IsSafe : (n : ℕ) → n < 16 → IsSafe (upper_hex n)
unfolding upper_hex is_unreserved
upper_hex-IsSafe n h = inl (ground arith)

percent-AreSafe : (bs : Bytes) → AreBytes bs → All IsSafe (percent bs)
unfolding percent
percent-AreSafe [] h = tt
percent-AreSafe (b ∷ bs) h = (
  inr refl,
  (
    upper_hex-IsSafe (b / 16) (omega (arith, h.0)),
    (upper_hex-IsSafe (b % 16) (omega arith), percent-AreSafe bs h.1),
  ),
)

urlencode-AreSafe : (cs : List ℕ) → AreChars cs → All IsSafe (urlencode cs)
unfolding urlencode
urlencode-AreSafe [] h = tt
urlencode-AreSafe (c ∷ cs) h = elim (Bool-cases (is_unreserved c)) [
  | inl plain ↦ rw plain (inl plain, urlencode-AreSafe cs h.1)
  | inr special ↦ rw special (
      All-append (percent (utf8_char c)) (urlencode cs)
        (percent-AreSafe (utf8_char c) (utf8_char-AreBytes c h.0)) (urlencode-AreSafe cs h.1))
]

-- A reader who takes `%` and two digits for a byte gets the UTF-8 bytes of any text back from
-- its URL-encoding, which has only letters, digits, `-`, `_`, `.`, `~` and `%`.
pub urlencode_lem :
    (cs : List ℕ) → AreChars cs → (unescape (urlencode cs) ≡ utf8 cs) × All IsSafe (urlencode cs)
urlencode_lem cs h = (unescape-urlencode cs h, urlencode-AreSafe cs h)
