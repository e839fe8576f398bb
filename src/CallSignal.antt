-- ===== src/CallSignal.antt =====
-- src/call_signal.rs: the check of a signal that sets up a call.
pub mod Validity
use trino_core.Prelude.{
  ℕ, ◌*◌, Option, none, some, Result, ok, err, ok_or, Bool, true, false, not, ◌&&◌, ◌||◌, ltb, leb,
  ◌==◌, if◌then◌else◌, [], ◌∷◌, Bytes, codes, length, bytes_eq, take, ◌>>=◌,
}

abbrev pub max_call_signal_bytes : ℕ
max_call_signal_bytes = 64 * 1024

abbrev pub max_sdp_bytes : ℕ
max_sdp_bytes = 56 * 1024

abbrev pub max_candidate_bytes : ℕ
max_candidate_bytes = 4096

pub record IceCandidate : Type 0 where
  pub candidate : Bytes
  pub sdp_mid : Option Bytes
  pub sdp_m_line_index : Option ℕ
  pub username_fragment : Option Bytes

pub record CallSignal : Type 0 where
  pub kind : Bytes
  pub call_id : Bytes
  pub sdp : Option Bytes
  pub candidate : Option IceCandidate
  pub video : Option Bool
  pub renegotiate : Option Bool

-- The messages of the errors.
pub data CallError : Type 0 where
  empty_or_too_large malformed invalid_call_id sdp_required invalid_sdp unexpected_candidate
        unexpected_sdp candidate_required invalid_candidate unexpected_fields unsupported_type :
      CallError

-- `serde_json::from_str::<CallSignal>`
abbrev pub SignalParser : Type 0
SignalParser = Bytes → Option CallSignal

abbrev pub is_some {ℓ} : {A : Type ℓ} → Option A → Bool
is_some none = false
is_some (some a) = true

-- `is_ascii_alphanumeric() || byte == b'_' || byte == b'-'`
unfoldable pub is_id_byte : ℕ → Bool
is_id_byte b =
    (leb b'0' b && leb b b'9')
    || (leb b'A' b && leb b b'Z')
    || (leb b'a' b && leb b b'z')
    || b == b'_'
    || b == b'-'

unfoldable pub all_id_bytes : Bytes → Bool
all_id_bytes [] = true
all_id_bytes (b ∷ bs) = is_id_byte b && all_id_bytes bs

-- `.is_some_and(|value| value.len() > 256)`
abbrev pub is_long : Option Bytes → Bool
is_long none = false
is_long (some value) = ltb 256 (length value)

-- `sdp.starts_with("v=0")`
unfoldable pub starts_with : Bytes → Bytes → Bool
starts_with s prefix = bytes_eq (take (length prefix) s) prefix

-- The three arms of the `match` on the kind.
unfoldable pub validate_description : CallSignal → Result CallError (Unit {0})
validate_description signal = do
  sdp ← ok_or signal.sdp sdp_required
  (if length sdp == 0 || ltb max_sdp_bytes (length sdp) || not (starts_with sdp (codes "v=0"))
      then err invalid_sdp
      else if is_some signal.candidate
      then err unexpected_candidate
      else ok tt)

unfoldable pub validate_ice : CallSignal → Result CallError (Unit {0})
validate_ice signal =
    if is_some signal.sdp
    then err unexpected_sdp
    else (ok_or signal.candidate candidate_required >>= λ c.
        if length c.candidate == 0
          || ltb max_candidate_bytes (length c.candidate)
          || is_long c.sdp_mid
          || is_long c.username_fragment
        then err invalid_candidate
        else ok tt)

unfoldable pub validate_end : CallSignal → Result CallError (Unit {0})
validate_end signal =
    if is_some signal.sdp
      || is_some signal.candidate
      || is_some signal.video
      || is_some signal.renegotiate
    then err unexpected_fields
    else ok tt

unfoldable pub validate_kind : CallSignal → Result CallError (Unit {0})
validate_kind signal =
    if bytes_eq signal.kind (codes "offer") || bytes_eq signal.kind (codes "answer")
    then validate_description signal
    else if bytes_eq signal.kind (codes "ice")
    then validate_ice signal
    else if bytes_eq signal.kind (codes "bye") || bytes_eq signal.kind (codes "reject")
    then validate_end signal
    else err unsupported_type

unfoldable pub validate_signal : CallSignal → Result CallError (Unit {0})
validate_signal signal =
    if ltb (length signal.call_id) 16
      || ltb 64 (length signal.call_id)
      || not (all_id_bytes signal.call_id)
    then err invalid_call_id
    else validate_kind signal

unfoldable pub validate_call_signal : SignalParser → Bytes → Result CallError (Unit {0})
validate_call_signal parse payload =
    if length payload == 0 || ltb max_call_signal_bytes (length payload)
    then err empty_or_too_large
    else (ok_or (parse payload) malformed >>= validate_signal)
