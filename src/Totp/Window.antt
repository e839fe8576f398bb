-- ===== src/Totp/Window.antt =====
-- Which codes `is_totp_code_valid` of src/totp.rs takes: those of the present step of thirty seconds
-- and of its two neighbours, with any white space in between.
use trino_core.Prelude.{
  ℕ, ◌+◌, ◌-◌, ◌/◌, ◌^◌, ◌≤◌, ◌<◌, ◌≡◌, ◌↔◌, inl, inr, refl, sym, ap, ◌∙◌, Bool, true, ◌||◌, ltb,
  List, [], ◌∷◌, Bytes, AreBytes, length, arith, Bool-cases,
}
use trino_core.Prelude.Int.{pos, negsuc, to_bits, add_i64}
use trino_core.Totp.{
  HmacSha1, totp_code, strip, is_whitespace, utf8, utf8_char, all_digits, any_offset,
  constant_time_str_eq, is_totp_code_valid, default_digits, default_step,
}
use trino_core.Totp.Code.{AreDigits, AreDigits-AreBytes, totp_code-AreDigits}
use trino_core.Totp.Compare.{constant_time_str_eq_iff}

all_digits_iff : (cs : List ℕ) → (all_digits cs ≡ true) ↔ AreDigits cs
unfolding all_digits
all_digits_iff [] = (λ h. tt, λ h. refl)
all_digits_iff (c ∷ cs) =
    let (f, g) = all_digits_iff cs in
    (λ h. (ground arith, f (ground arith)), λ h. let rest = g h.1 in ground (arith, h.0, rest))

utf8-digits : (cs : List ℕ) → AreDigits cs → utf8 cs ≡ cs
unfolding utf8 utf8_char
utf8-digits [] h = refl
utf8-digits (c ∷ cs) h =
    let ascii : ltb c 128 ≡ true = ground (arith, h.0) in rw ascii (ap (◌∷◌ c) (utf8-digits cs h.1))

-- The three times of the loop, in seconds.
offsets_lem :
    (now : ℕ)
    → 30 ≤ now
    → now < 2 ^ 62
    → (to_bits (add_i64 (pos now) (negsuc 29)) ≡ now - 30)
      × (to_bits (add_i64 (pos now) (pos 0)) ≡ now)
      × (to_bits (add_i64 (pos now) (pos 30)) ≡ now + 30)
unfolding add_i64
offsets_lem now h k = ground arith

module _ (hmac : HmacSha1) (secret : Bytes) where
  code_at : ℕ → Bytes
  code_at t = totp_code hmac secret t default_digits default_step

  code_at_step : (t u : ℕ) → t / 30 ≡ u / 30 → code_at t ≡ code_at u
  unfolding code_at totp_code
  code_at_step t u e = rw e refl

  code_at-IsCode : (t : ℕ) → (length (code_at t) ≡ 6) × AreDigits (code_at t) × AreBytes (code_at t)
  unfolding code_at
  code_at-IsCode t =
      let (len, digits) = totp_code-AreDigits hmac secret t 5 default_step in
      (len, digits, AreDigits-AreBytes _ digits)

  same :
      (t : ℕ) (cleaned : Bytes)
      → AreBytes cleaned
      → (constant_time_str_eq (code_at t) cleaned ≡ true) ↔ (code_at t ≡ cleaned)
  same t cleaned b = constant_time_str_eq_iff (code_at t) cleaned (code_at-IsCode t).2 b

  -- A time in the step of `now` or in one beside it.
  abbrev IsNear : ℕ → ℕ → Type 0
  IsNear now t = (t / 30 ≤ now / 30 + 1) × (now / 30 ≤ t / 30 + 1)

  module _ (now : ℕ) (after : 30 ≤ now) (small : now < 2 ^ 62) (cleaned : Bytes)
      (b : AreBytes cleaned) where
    abbrev any_time : Bool
    any_time = any_offset hmac (pos now) secret cleaned (negsuc 29 ∷ pos 0 ∷ pos 30 ∷ [])

    any_time_lem : any_time ≡ (
        constant_time_str_eq (code_at (now - 30)) cleaned
        || constant_time_str_eq (code_at now) cleaned
        || constant_time_str_eq (code_at (now + 30)) cleaned)
    unfolding any_offset code_at
    any_time_lem =
        let (early, present, late) = offsets_lem now after small in
        rw (early, present, late) (ground arith)

    any_offset_sound : any_time ≡ true → (t : ℕ) × IsNear now t × (code_at t ≡ cleaned)
    any_offset_sound h = elim (Bool-cases (constant_time_str_eq (code_at (now - 30)) cleaned)) [
      | inl early ↦ (now - 30, omega arith, (same (now - 30) cleaned b).0 early)
      | inr not_early ↦ elim (Bool-cases (constant_time_str_eq (code_at now) cleaned)) [
        | inl present ↦ (now, omega arith, (same now cleaned b).0 present)
        | inr not_present ↦
            (now + 30, omega arith, (same (now + 30) cleaned b).0 (ground (arith, any_time_lem, h)))
      ]
    ]

    any_offset_complete : (t : ℕ) → IsNear now t → code_at t ≡ cleaned → any_time ≡ true
    any_offset_complete t near e = ground (
      arith,
      any_time_lem,
      same (now - 30) cleaned b,
      same now cleaned b,
      same (now + 30) cleaned b,
      code_at_step t (now - 30),
      code_at_step t now,
      code_at_step t (now + 30),
    )

  -- At a present time of at least thirty seconds and below 2^62, an input is taken exactly if,
  -- without its white space, it is the code of some time in the present step of thirty seconds
  -- or in one of its two neighbours.
  pub is_totp_code_valid_iff :
      (now : ℕ) (input : List ℕ)
      → 30 ≤ now
      → now < 2 ^ 62
      → (is_totp_code_valid hmac (pos now) input secret ≡ true) ↔ (
          (t : ℕ) × (t / 30 ≤ now / 30 + 1)
          × (now / 30 ≤ t / 30 + 1)
          × (strip input ≡ totp_code hmac secret t default_digits default_step))
  unfolding is_totp_code_valid code_at
  is_totp_code_valid_iff now input after small = (
    λ h.
        let digits = (all_digits_iff (strip input)).0 (ground arith) in
        let plain = utf8-digits (strip input) digits in
        let any : any_time now after small (utf8 (strip input))
              (rw plain (AreDigits-AreBytes _ digits))
            ≡ true =
          ground arith in
        let (t, near, e) =
          any_offset_sound now after small (utf8 (strip input))
            (rw plain (AreDigits-AreBytes _ digits)) any in
        (t, near.0, near.1, sym plain ∙ sym e),
    λ x.
        let (t, lower, upper, e) = x in
        let (len, digits, bytes) = code_at-IsCode t in
        let own : AreDigits (strip input) = rw e digits in
        let plain = utf8-digits (strip input) own in
        let all = (all_digits_iff (strip input)).1 own in
        let six : length (utf8 (strip input)) ≡ 6 = ap length (plain ∙ e) ∙ len in
        let any =
          any_offset_complete now after small (utf8 (strip input))
            (rw plain (AreDigits-AreBytes _ own)) t (lower, upper) (sym (plain ∙ e)) in
        ground (arith, all, six, any),
  )

-- Digits are no white space.
pub strip-AreDigits : (cs : List ℕ) → AreDigits cs → strip cs ≡ cs
unfolding strip is_whitespace
strip-AreDigits [] h = refl
strip-AreDigits (c ∷ cs) h = ground (arith, h.0, strip-AreDigits cs h.1)
