-- ===== src/Tests/Toy.antt =====
-- A toy instance of the third-party functions, which meets all laws that the theorems ask for.
pub mod Codec
pub mod Printer
pub mod Text
use native.Mathlib.Nat.{mul_comm}
use trino_core.Prelude.{
  ℕ, zero, suc, ◌+◌, ◌*◌, ◌%◌, ◌≤◌, ◌^◌, ◌≡◌, refl, ap, Bool, true, false, ◌==◌, leb, not,
  if◌then◌else◌, Option, some, none, List, [], ◌∷◌, ◌++◌, Bytes, AreBytes, length, arith, bytes_eq,
  bytes_eq_refl,
}
use trino_core.Primitives.{Primitives, Rng, HexLaws, HkdfLaws, AeadLaws, CurveLaws, SignatureLaws}
use trino_core.Crypto.{random_bytes}
use trino_core.Tests.Toy.Codec.{
  encode, decode, decode-encode, decode-AreBytes, length-encode, encode-IsLowerHex, encode-decode,
}

-- A checksum, and bytes that are spun from it.
unfoldable pub weigh : Bytes → ℕ
weigh [] = 1
weigh (b ∷ bs) = (b + 31 * weigh bs) % 65536

unfoldable pub stretch : ℕ → ℕ → Bytes
stretch zero c = []
stretch (suc n) c = (c % 256) ∷ stretch n ((5 * c + 1) % 65536)

pub length-stretch : (n c : ℕ) → length (stretch n c) ≡ n
unfolding stretch
length-stretch zero c = refl
length-stretch (suc n) c = ap suc (length-stretch n ((5 * c + 1) % 65536))

pub stretch-AreBytes : (n c : ℕ) → AreBytes (stretch n c)
unfolding stretch
stretch-AreBytes zero c = tt
stretch-AreBytes (suc n) c = (omega arith, stretch-AreBytes n ((5 * c + 1) % 65536))

abbrev tagged : ℕ → Bytes → Option Bytes
tagged tag [] = none
tagged tag (t ∷ msg) = if t == tag then some msg else none

abbrev first : Bytes → ℕ
first [] = 0
first (b ∷ bs) = b

unfoldable pub seed : Bytes → ℕ
unfolding weigh
seed a = weigh a % 251

unfoldable pub point : ℕ → Bytes
point n = (n % 256) ∷ stretch 31 0

unfoldable pub tag_of : Bytes → Bytes → Bytes → ℕ
tag_of key nonce aad = weigh (key ++ nonce ++ aad) % 256

abbrev pub toy : Primitives
toy = record {
  hex_encode = encode;
  hex_decode = decode;
  hkdf = λ salt ikm info n.
      if leb n 8160 then some (stretch n (weigh (salt ++ ikm ++ info))) else none;
  aes_accepts_key = λ key. length key == 32;
  aes_encrypt = λ key nonce msg aad. some (tag_of key nonce aad ∷ msg);
  aes_decrypt = λ key nonce c aad. tagged (tag_of key nonce aad) c;
  pbkdf2 = λ passphrase salt iterations. stretch 32 (weigh (passphrase ++ salt));
  sha256_digest = λ v. stretch 32 (weigh v);
  x25519_secret = λ b. b;
  x25519_public = λ a. point (seed a);
  diffie_hellman = λ a b. point (seed a * first b);
  was_contributory = λ s. not (first s == 0);
  ed25519_generate = λ r. random_bytes 32 r;
  ed25519_public = λ a. stretch 32 (weigh a);
  ed25519_signature = λ a m. stretch 64 (weigh (stretch 32 (weigh a) ++ m));
  ed25519_accepts_key = λ k. length k == 32;
  ed25519_accepts_signature = λ s. length s == 64;
  ed25519_check = λ k m s. bytes_eq s (stretch 64 (weigh (k ++ m)));
  x_only_public = λ b. some (stretch 32 (weigh b));
}

pub toy_hex : HexLaws toy
toy_hex = record {
  decode-encode = decode-encode;
  decode-AreBytes = decode-AreBytes;
  length-encode = length-encode;
  encode-IsLowerHex = encode-IsLowerHex;
  encode-decode = encode-decode;
}

pub toy_hkdf : HkdfLaws toy
toy_hkdf = record {
  produces = λ salt ikm info n h.
      let fits : leb n 8160 ≡ true = ground arith in
      (stretch n (weigh (salt ++ ikm ++ info)), rw fits);
  length-okm =
      λ salt ikm info okm n h. ground (arith, length-stretch n (weigh (salt ++ ikm ++ info)));
  okm-AreBytes =
      λ salt ikm info okm n h. ground (arith, stretch-AreBytes n (weigh (salt ++ ikm ++ info)));
}

opens :
    (tag : ℕ) (c msg : Bytes)
    → ◌≡◌ {A = Option Bytes} (some (tag ∷ msg)) (some c)
    → tagged tag c ≡ some msg
opens tag c msg h = ground arith

pub toy_aead : AeadLaws toy
unfolding tag_of
toy_aead = record {
  accepts = λ key h. ground arith;
  encrypts = λ key nonce msg aad lk ln lm la. (tag_of key nonce aad ∷ msg, refl);
  decrypt-encrypt = λ key nonce msg aad c h. opens (tag_of key nonce aad) c msg h;
  encrypt-AreBytes = λ key nonce msg aad c b h. ground (arith, b);
}

agree_lem : (a b : Bytes) → point (seed a * (seed b % 256)) ≡ point (seed b * (seed a % 256))
unfolding seed
agree_lem a b =
    let small_a : weigh a % 251 % 256 ≡ weigh a % 251 = omega arith in
    let small_b : weigh b % 251 % 256 ≡ weigh b % 251 = omega arith in
    rw (small_a, small_b) (ap point (mul_comm (weigh a % 251) (weigh b % 251)))

pub toy_curve : CurveLaws toy
unfolding point seed
toy_curve = record {
  secret-bytes = λ b. refl;
  length-public = λ a. ap suc (length-stretch 31 0);
  public-AreBytes = λ a. (omega arith, stretch-AreBytes 31 0);
  agree = agree_lem;
}

pub toy_signature : SignatureLaws toy
toy_signature = record {
  length-public = λ a. length-stretch 32 (weigh a);
  public-AreBytes = λ a. stretch-AreBytes 32 (weigh a);
  length-signature = λ a m. length-stretch 64 _;
  signature-AreBytes = λ a m. stretch-AreBytes 64 _;
  accepts_key = λ a. ground (arith, length-stretch 32 (weigh a));
  accepts_signature = λ s h. ground arith;
  verifies = λ a m. bytes_eq_refl _;
}
