-- ===== src/Totp/Base32.antt =====
-- `to_base32` of src/totp.rs against a reference: the bits of all bytes in a row, five to a letter.
use trino_core.Prelude.{
  ℕ, zero, suc, ◌+◌, ◌*◌, ◌/◌, ◌%◌, ◌^◌, ◌<◌, ◌≡◌, refl, List, [], ◌∷◌, ◌++◌, Bytes, AreBytes,
  arith,
}
use trino_core.Totp.{letter, emit, base32_loop, to_base32}

-- The bits of a byte, the most significant first.
abbrev pub bits_of : ℕ → List ℕ
bits_of b =
    (b / 128 % 2)
    ∷ (b / 64 % 2)
    ∷ (b / 32 % 2)
    ∷ (b / 16 % 2)
    ∷ (b / 8 % 2)
    ∷ (b / 4 % 2)
    ∷ (b / 2 % 2)
    ∷ (b % 2)
    ∷ []

abbrev pub all_bits : Bytes → List ℕ
all_bits [] = []
all_bits (b ∷ bs) = bits_of b ++ all_bits bs

-- Five bits to a letter; the last ones are filled up with zeros.
abbrev pub letters : List ℕ → Bytes
letters [] = []
letters (a ∷ []) = letter (16 * a) ∷ []
letters (a ∷ b ∷ []) = letter (16 * a + 8 * b) ∷ []
letters (a ∷ b ∷ c ∷ []) = letter (16 * a + 8 * b + 4 * c) ∷ []
letters (a ∷ b ∷ c ∷ d ∷ []) = letter (16 * a + 8 * b + 4 * c + 2 * d) ∷ []
letters (a ∷ b ∷ c ∷ d ∷ e ∷ rest) = letter (16 * a + 8 * b + 4 * c + 2 * d + e) ∷ letters rest

-- The lowest bits of a number.
abbrev low_bits : ℕ → ℕ → List ℕ
low_bits zero v = []
low_bits (suc n) v = (v / 2 ^ n % 2) ∷ low_bits n v

-- The register after a byte: the low bits of the old one, above those of the byte.
next_value : ℕ → ℕ → ℕ
next_value v b = v * 2 ^ 8 % 2 ^ 32 + b

next_lem : (v b : ℕ) → (k : ℕ) × (next_value v b ≡ 256 * (v % 16) + b + 4096 * k)
unfolding next_value
next_lem v b = (v / 16 % 1048576, omega arith)

module _ (v b : ℕ) (byte : b < 256) where
  abbrev w : ℕ
  w = next_value v b

  -- The letters that one byte completes, by how many bits were there before it.
  firsts :
      (w / 8 % 32
        ≡ 16 * (b / 128 % 2) + 8 * (b / 64 % 2) + 4 * (b / 32 % 2) + 2 * (b / 16 % 2) + b / 8 % 2)
      × (w / 16 % 32
          ≡ 16 * (v % 2) + 8 * (b / 128 % 2) + 4 * (b / 64 % 2) + 2 * (b / 32 % 2) + b / 16 % 2)
      × (w / 32 % 32
          ≡ 16 * (v / 2 % 2) + 8 * (v % 2) + 4 * (b / 128 % 2) + 2 * (b / 64 % 2) + b / 32 % 2)
      × (w / 64 % 32
          ≡ 16 * (v / 4 % 2) + 8 * (v / 2 % 2) + 4 * (v % 2) + 2 * (b / 128 % 2) + b / 64 % 2)
      × (w / 128 % 32
          ≡ 16 * (v / 8 % 2) + 8 * (v / 4 % 2) + 4 * (v / 2 % 2) + 2 * (v % 2) + b / 128 % 2)
  firsts =
      let (k, e) = next_lem v b in
      (omega (arith, e), omega (arith, e), omega (arith, e), omega (arith, e), omega (arith, e))

  seconds :
      (w % 32 ≡ 16 * (b / 16 % 2) + 8 * (b / 8 % 2) + 4 * (b / 4 % 2) + 2 * (b / 2 % 2) + b % 2)
      × (w / 2 % 32
          ≡ 16 * (b / 32 % 2) + 8 * (b / 16 % 2) + 4 * (b / 8 % 2) + 2 * (b / 4 % 2) + b / 2 % 2)
      × (w / 4 % 32
          ≡ 16 * (b / 64 % 2) + 8 * (b / 32 % 2) + 4 * (b / 16 % 2) + 2 * (b / 8 % 2) + b / 4 % 2)
  seconds = let (k, e) = next_lem v b in (omega (arith, e), omega (arith, e), omega (arith, e))

  -- The bits that wait for the next byte are the last ones of this byte.
  rests :
      (w % 2 ≡ b % 2) × (w / 2 % 2 ≡ b / 2 % 2) × (w / 4 % 2 ≡ b / 4 % 2) × (w / 8 % 2 ≡ b / 8 % 2)
  rests =
      let (k, e) = next_lem v b in
      (omega (arith, e), omega (arith, e), omega (arith, e), omega (arith, e))

-- The letter of what is left at the end.
last_one : (v : ℕ) → v * 16 % 2 ^ 32 % 32 ≡ 16 * (v % 2)
last_one v = omega arith

last_two : (v : ℕ) → v * 8 % 2 ^ 32 % 32 ≡ 16 * (v / 2 % 2) + 8 * (v % 2)
last_two v = omega arith

last_three : (v : ℕ) → v * 4 % 2 ^ 32 % 32 ≡ 16 * (v / 4 % 2) + 8 * (v / 2 % 2) + 4 * (v % 2)
last_three v = omega arith

last_four :
    (v : ℕ)
    → v * 2 % 2 ^ 32 % 32 ≡ 16 * (v / 8 % 2) + 8 * (v / 4 % 2) + 4 * (v / 2 % 2) + 2 * (v % 2)
last_four v = omega arith

one-div : (v : ℕ) → v / 1 ≡ v
one-div v = omega arith

loop_lem :
    (bits value : ℕ) (bytes : Bytes)
    → bits < 5
    → AreBytes bytes
    → base32_loop bits value bytes ≡ letters (low_bits bits value ++ all_bits bytes)
unfolding base32_loop emit next_value
loop_lem zero v [] h a = refl
loop_lem (suc zero) v [] h a = rw (last_one v, one-div v)
loop_lem (suc (suc zero)) v [] h a = rw (last_two v, one-div v)
loop_lem (suc (suc (suc zero))) v [] h a = rw (last_three v, one-div v)
loop_lem (suc (suc (suc (suc zero)))) v [] h a = rw (last_four v, one-div v)
loop_lem (suc (suc (suc (suc (suc n))))) v bytes h a = absurd (omega arith)
loop_lem zero v (b ∷ bs) h a =
    let w = next_value v b in
    rw (
      (firsts v b a.0).0,
      loop_lem 3 w bs (omega arith) a.1,
      one-div w,
      (rests v b a.0).2,
      (rests v b a.0).1,
      (rests v b a.0).0,
    )
loop_lem (suc zero) v (b ∷ bs) h a =
    let w = next_value v b in
    rw (
      (firsts v b a.0).1,
      loop_lem 4 w bs (omega arith) a.1,
      one-div w,
      one-div v,
      (rests v b a.0).3,
      (rests v b a.0).2,
      (rests v b a.0).1,
      (rests v b a.0).0,
    )
loop_lem (suc (suc zero)) v (b ∷ bs) h a =
    let w = next_value v b in
    rw (
      (firsts v b a.0).2,
      loop_lem 0 w bs (omega arith) a.1,
      one-div w,
      one-div v,
      (seconds v b a.0).0,
    )
loop_lem (suc (suc (suc zero))) v (b ∷ bs) h a =
    let w = next_value v b in
    rw (
      (firsts v b a.0).3,
      (seconds v b a.0).1,
      loop_lem 1 w bs (omega arith) a.1,
      one-div w,
      one-div v,
      (rests v b a.0).0,
    )
loop_lem (suc (suc (suc (suc zero)))) v (b ∷ bs) h a =
    let w = next_value v b in
    rw (
      (firsts v b a.0).4,
      (seconds v b a.0).2,
      loop_lem 2 w bs (omega arith) a.1,
      one-div w,
      one-div v,
      (rests v b a.0).1,
      (rests v b a.0).0,
    )

-- For bytes, the 32-bit register, though it overflows, gives the letters of the reference: the
-- bits of all bytes in a row, five to a letter, the last ones filled up with zeros.
pub to_base32-eq-letters :
    (bytes : Bytes) → AreBytes bytes → to_base32 bytes ≡ letters (all_bits bytes)
unfolding to_base32
to_base32-eq-letters bytes a = loop_lem 0 0 bytes (omega arith) a
