-- ===== src/Totp.antt =====
-- src/totp.rs: one-time codes from a shared secret and the clock, and the URI that shares it.
pub mod Compare
pub mod Code
pub mod Window
pub mod Base32
pub mod Uri
use Prim.Native.Nat.{bit_or, bit_xor}
use trino_core.Prelude.{
  ℕ, zero, suc, ◌+◌, ◌-◌, ◌*◌, ◌/◌, ◌%◌, ◌^◌, Option, none, some, Bool, true, false, not, ◌&&◌,
  ◌||◌, ltb, leb, ◌==◌, if◌then◌else◌, List, [], ◌∷◌, ◌++◌, Bytes, codes, length, get_elem?,
}
use trino_core.Prelude.Decimal.{decimal}
use trino_core.Prelude.Int.{ℤ, pos, negsuc, to_bits, add_i64}
use trino_core.Primitives.{Rng}
use trino_core.Crypto.{random_bytes}

-- `Hmac::<Sha1>` of the `hmac` and `sha1` crates, on key and message.
abbrev pub HmacSha1 : Type 0
HmacSha1 = Bytes → Bytes → Bytes

abbrev pub default_digits : ℕ
default_digits = 6

abbrev pub default_step : ℕ
default_step = 30

abbrev pub generate_totp_secret : Rng → Bytes × Rng
generate_totp_secret r = random_bytes 20 r

-- `to_be_bytes` of a `u64`.
abbrev pub to_be_bytes_64 : ℕ → Bytes
to_be_bytes_64 n =
    (n / 2 ^ 56 % 256)
    ∷ (n / 2 ^ 48 % 256)
    ∷ (n / 2 ^ 40 % 256)
    ∷ (n / 2 ^ 32 % 256)
    ∷ (n / 2 ^ 24 % 256)
    ∷ (n / 2 ^ 16 % 256)
    ∷ (n / 2 ^ 8 % 256)
    ∷ (n % 256)
    ∷ []

-- An index into the digest, which is in range where it is used; out of range the code panics.
abbrev pub byte_at : ℕ → Bytes → ℕ
byte_at i bs = elim (get_elem? bs i) [ none ↦ 0 | some b ↦ b ]

-- The 31 bits at the offset that the last byte names. The shifted bytes have no bit in common,
-- so that `|` is `+`.
unfoldable pub truncated : Bytes → ℕ
truncated mac =
    let offset = byte_at (length mac - 1) mac % 16 in
    byte_at offset mac % 128 * 2 ^ 24
    + byte_at (offset + 1) mac * 2 ^ 16
    + byte_at (offset + 2) mac * 2 ^ 8
    + byte_at (offset + 3) mac

unfoldable pub zeros : ℕ → Bytes
zeros zero = []
zeros (suc n) = b'0' ∷ zeros n

-- `format!("{:0width$}", n)`
unfoldable pub padded : ℕ → ℕ → Bytes
unfolding zeros
padded width n = zeros (width - length (decimal n)) ++ decimal n

module _ (hmac : HmacSha1) where
  -- For a step that is not 0, and fewer than ten digits: with others the code panics or wraps around.
  unfoldable pub totp_code : Bytes → ℕ → ℕ → ℕ → Bytes
  totp_code secret time digits step =
      padded digits (truncated (hmac secret (to_be_bytes_64 (time / step))) % 10 ^ digits)

  -- At the present time `now`.
  unfoldable pub totp_now : ℤ → Bytes → Bytes
  totp_now now secret = totp_code secret (to_bits now) default_digits default_step

-- `char::is_whitespace`: the White_Space property of Unicode.
unfoldable pub is_whitespace : ℕ → Bool
is_whitespace c =
    (leb 9 c && leb c 13)
    || c == 32
    || c == 0x85
    || c == 0xa0
    || c == 0x1680
    || (leb 0x2000 c && leb c 0x200a)
    || c == 0x2028
    || c == 0x2029
    || c == 0x202f
    || c == 0x205f
    || c == 0x3000

abbrev pub is_ascii_digit : ℕ → Bool
is_ascii_digit c = leb b'0' c && leb c b'9'

-- `input.chars().filter(|c| !c.is_whitespace())`, on the characters of a text.
unfoldable pub strip : List ℕ → List ℕ
strip [] = []
strip (c ∷ cs) = if not (is_whitespace c) then c ∷ strip cs else strip cs

-- The UTF-8 bytes of a character, and of a text.
unfoldable pub utf8_char : ℕ → Bytes
utf8_char c =
    if ltb c 0x80
    then c ∷ []
    else if ltb c 0x800
    then (0xc0 + c / 64) ∷ (0x80 + c % 64) ∷ []
    else if ltb c 0x10000
    then (0xe0 + c / 4096) ∷ (0x80 + c / 64 % 64) ∷ (0x80 + c % 64) ∷ []
    else (0xf0 + c / 262144) ∷ (0x80 + c / 4096 % 64) ∷ (0x80 + c / 64 % 64) ∷ (0x80 + c % 64) ∷ []

unfoldable pub utf8 : List ℕ → Bytes
utf8 [] = []
utf8 (c ∷ cs) = utf8_char c ++ utf8 cs

unfoldable pub all_digits : List ℕ → Bool
all_digits [] = true
all_digits (c ∷ cs) = is_ascii_digit c && all_digits cs

-- The loop of `constant_time_str_eq` over the zipped bytes.
unfoldable pub differences : ℕ → Bytes → Bytes → ℕ
differences diff [] ys = diff
differences diff (x ∷ xs) [] = diff
differences diff (x ∷ xs) (y ∷ ys) = differences (bit_or diff (bit_xor x y)) xs ys

unfoldable pub constant_time_str_eq : Bytes → Bytes → Bool
constant_time_str_eq a b = if not (length a == length b) then false else differences 0 a b == 0

module _ (hmac : HmacSha1) where
  -- The loop over the three offsets.
  unfoldable pub any_offset : ℤ → Bytes → Bytes → List ℤ → Bool
  any_offset now secret cleaned [] = false
  any_offset now secret cleaned (offset ∷ offsets) =
      let code = totp_code hmac secret (to_bits (add_i64 now offset)) default_digits default_step in
      let rest = any_offset now secret cleaned offsets in
      if constant_time_str_eq code cleaned then true else rest

  -- At the present time `now`.
  unfoldable pub is_totp_code_valid : ℤ → List ℕ → Bytes → Bool
  is_totp_code_valid now input secret =
      let cleaned = strip input in
      if not (length (utf8 cleaned) == default_digits) || not (all_digits cleaned)
      then false
      else any_offset now secret (utf8 cleaned) (negsuc 29 ∷ pos 0 ∷ pos 30 ∷ [])

abbrev pub alphabet : Bytes
alphabet = codes "ABCDEFGHIJKLMNOPQRSTUVWXYZ234567"

abbrev pub letter : ℕ → ℕ
letter i = byte_at i alphabet

-- The inner `while`: five bits at a time, from `bits` bits of `value`; the bits that are left.
unfoldable pub emit : ℕ → ℕ → Bytes × ℕ
emit value zero = ([], 0)
emit value (suc zero) = ([], 1)
emit value (suc (suc zero)) = ([], 2)
emit value (suc (suc (suc zero))) = ([], 3)
emit value (suc (suc (suc (suc zero)))) = ([], 4)
emit value (suc (suc (suc (suc (suc bits))))) =
    let (out, left) = emit value bits in (letter (value / 2 ^ bits % 32) ∷ out, left)

-- The loop over the bytes, on a `u32`, and what follows it.
unfoldable pub base32_loop : ℕ → ℕ → Bytes → Bytes
base32_loop bits value [] =
    if ltb 0 bits then letter (value * 2 ^ (5 - bits) % 2 ^ 32 % 32) ∷ [] else []
base32_loop bits value (b ∷ bs) =
    let value' = value * 2 ^ 8 % 2 ^ 32 + b in
    let (out, left) = emit value' (bits + 8) in out ++ base32_loop left value' bs

unfoldable pub to_base32 : Bytes → Bytes
to_base32 bytes = base32_loop 0 0 bytes

-- `is_ascii_alphanumeric() || matches!(c, '-' | '_' | '.' | '~')`
unfoldable pub is_unreserved : ℕ → Bool
is_unreserved c =
    (leb b'0' c && leb c b'9')
    || (leb b'A' c && leb c b'Z')
    || (leb b'a' c && leb c b'z')
    || c == b'-'
    || c == b'_'
    || c == b'.'
    || c == b'~'

-- `{:X}` of four bits.
unfoldable pub upper_hex : ℕ → ℕ
upper_hex n = if ltb n 10 then n + 48 else n + 55

unfoldable pub percent : Bytes → Bytes
percent [] = []
percent (b ∷ bs) = b'%' ∷ upper_hex (b / 16) ∷ upper_hex (b % 16) ∷ percent bs

unfoldable pub urlencode : List ℕ → Bytes
urlencode [] = []
urlencode (c ∷ cs) = (if is_unreserved c then c ∷ [] else percent (utf8_char c)) ++ urlencode cs

unfoldable pub otpauth_uri : Bytes → List ℕ → List ℕ → Bytes
otpauth_uri secret label issuer =
    codes "otpauth://totp/"
    ++ (urlencode issuer
        ++ (codes ":"
            ++ (urlencode label
                ++ (codes "?secret="
                    ++ (to_base32 secret
                        ++ (codes "&issuer="
                            ++ (urlencode issuer
                                ++ codes "&algorithm=SHA1&digits=6&period=30")))))))
