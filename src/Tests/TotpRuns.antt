-- ===== src/Tests/TotpRuns.antt =====
-- Runs of the theorems about src/totp.rs and src/call_signal.rs.
use trino_core.Prelude.{
  ℕ, ◌+◌, ◌/◌, ◌%◌, ◌^◌, ◌≤◌, ◌<◌, ◌≡◌, ◌↔◌, true, none, some, ok, ◌++◌, Bytes, AreBytes, codes,
  length, arith,
}
use trino_core.Prelude.Decimal.{read_digits}
use trino_core.Prelude.Int.{pos}
use trino_core.Totp.{
  HmacSha1, totp_code, constant_time_str_eq, is_totp_code_valid, strip, to_base32, default_digits,
  default_step,
}
use trino_core.Prelude.{All, List, [], ◌∷◌}
use trino_core.Totp.{urlencode, utf8, utf8_char}
use trino_core.Totp.Uri.{unescape, IsSafe, urlencode_lem}
use trino_core.Totp.Compare.{constant_time_str_eq_iff}
use trino_core.Totp.Code.{AreDigits, be_number, dynamic_truncation, totp_code_lem}
use trino_core.Totp.Window.{is_totp_code_valid_iff}
use trino_core.Totp.Base32.{letters, all_bits, to_base32-eq-letters}
use trino_core.CallSignal.{CallSignal, SignalParser, validate_call_signal, max_call_signal_bytes}
use trino_core.CallSignal.Validity.{IsSignal, validate_call_signal_iff}
use trino_core.Tests.Toy.{stretch, length-stretch, stretch-AreBytes, weigh}

abbrev pub toy_hmac : HmacSha1
toy_hmac k m = stretch 20 (weigh (k ++ m))

abbrev pub secret : Bytes
secret = stretch 20 77

toy_hmac-AreBytes : (m : Bytes) → (length (toy_hmac secret m) ≡ 20) × AreBytes (toy_hmac secret m)
toy_hmac-AreBytes m = (length-stretch 20 _, stretch-AreBytes 20 _)

totp_code_lem_example :
    let code = totp_code toy_hmac secret 59 6 30 in
    (counter : Bytes) × (length counter ≡ 8)
    × AreBytes counter
    × (be_number counter ≡ 59 / 30)
    × (length code ≡ 6)
    × AreDigits code
    × (read_digits 0 code ≡ dynamic_truncation (toy_hmac secret counter) % 10 ^ 6)
totp_code_lem_example =
    totp_code_lem toy_hmac secret 59 5 30 toy_hmac-AreBytes (omega arith) (omega arith)
      (omega arith)

constant_time_str_eq_iff_example :
    (constant_time_str_eq secret (stretch 20 78) ≡ true) ↔ (secret ≡ stretch 20 78)
constant_time_str_eq_iff_example =
    constant_time_str_eq_iff secret (stretch 20 78) (stretch-AreBytes 20 77)
      (stretch-AreBytes 20 78)

is_totp_code_valid_iff_example :
    (is_totp_code_valid toy_hmac (pos 1700000000) (codes "123 456") secret ≡ true) ↔ (
      (t : ℕ) × (t / 30 ≤ 1700000000 / 30 + 1)
      × (1700000000 / 30 ≤ t / 30 + 1)
      × (strip (codes "123 456") ≡ totp_code toy_hmac secret t default_digits default_step))
is_totp_code_valid_iff_example =
    is_totp_code_valid_iff toy_hmac secret 1700000000 (codes "123 456") (omega arith) (omega arith)

to_base32-eq-letters_example : to_base32 secret ≡ letters (all_bits secret)
to_base32-eq-letters_example = to_base32-eq-letters secret (stretch-AreBytes 20 77)

-- A parser that reads every payload as the same end of a call.
abbrev bye : SignalParser
bye payload = some (record {
  kind = codes "bye";
  call_id = codes "0123456789abcdef";
  sdp = none;
  candidate = none;
  video = none;
  renegotiate = none;
})

validate_call_signal_iff_example : (validate_call_signal bye (codes "{}") ≡ ok tt) ↔ (
    (0 < length (codes "{}"))
    × (length (codes "{}") ≤ max_call_signal_bytes)
    × (s : CallSignal) × (bye (codes "{}") ≡ some s)
    × IsSignal s)
validate_call_signal_iff_example = validate_call_signal_iff bye (codes "{}")

-- An `a`, a blank and an `é`.
abbrev label : List ℕ
label = 97 ∷ 32 ∷ 233 ∷ []

urlencode_lem_example :
    (unescape (urlencode label) ≡ 97 ∷ 32 ∷ 0xc3 ∷ 0xa9 ∷ []) × All IsSafe (urlencode label)
unfolding utf8 utf8_char
urlencode_lem_example = urlencode_lem label (ground arith)
