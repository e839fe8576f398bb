-- ===== src/Primitives.antt =====
-- The third-party crates that the program calls (hex, hkdf, aes-gcm, pbkdf2, sha2, x25519-dalek,
-- ed25519-dalek, secp256k1), as a record of functions, and what their documentation promises.
use trino_core.Prelude.{
  ℕ, ◌^◌, ◌*◌, ◌≤◌, ◌≡◌, Bool, true, Option, some, ◌&&◌, ◌||◌, Bytes, AreBytes, All, length, leb,
}

-- The bytes that the operating system's generator will hand out.
abbrev pub Rng : Type 0
Rng = ℕ → ℕ

pub record Primitives : Type 0 where
  -- `hex::encode`, `hex::decode`
  pub hex_encode : Bytes → Bytes
  pub hex_decode : Bytes → Option Bytes
  -- `Hkdf::<Sha256>::new(Some(salt), ikm).expand(info, &mut [0; n])`
  pub hkdf : Bytes → Bytes → Bytes → ℕ → Option Bytes
  -- `Aes256Gcm::new_from_slice(key)` succeeds; `encrypt` and `decrypt` on key, nonce, msg, aad
  pub aes_accepts_key : Bytes → Bool
  pub aes_encrypt : Bytes → Bytes → Bytes → Bytes → Option Bytes
  pub aes_decrypt : Bytes → Bytes → Bytes → Bytes → Option Bytes
  -- `pbkdf2_hmac::<Sha256>` on passphrase, salt, iterations; `Sha256::digest`
  pub pbkdf2 : Bytes → Bytes → ℕ → Bytes
  pub sha256_digest : Bytes → Bytes
  -- `StaticSecret::from(b).to_bytes()`, `PublicKey::from(&secret)`, `diffie_hellman`,
  -- `SharedSecret::was_contributory`
  pub x25519_secret : Bytes → Bytes
  pub x25519_public : Bytes → Bytes
  pub diffie_hellman : Bytes → Bytes → Bytes
  pub was_contributory : Bytes → Bool
  -- `SigningKey::generate`, `verifying_key`, `sign`; `VerifyingKey::from_bytes` and
  -- `Signature::from_slice` succeed; `verify` on public key, message, signature
  pub ed25519_generate : Rng → Bytes × Rng
  pub ed25519_public : Bytes → Bytes
  pub ed25519_signature : Bytes → Bytes → Bytes
  pub ed25519_accepts_key : Bytes → Bool
  pub ed25519_accepts_signature : Bytes → Bool
  pub ed25519_check : Bytes → Bytes → Bytes → Bool
  -- `Keypair::from_seckey_slice` with `x_only_public_key().0.serialize()`
  pub x_only_public : Bytes → Option Bytes

-- A lower-case hexadecimal digit.
abbrev pub is_hex_digit : ℕ → Bool
is_hex_digit b = (leb b'0' b && leb b b'9') || (leb b'a' b && leb b b'f')

abbrev pub IsLowerHex : Bytes → Type 0
IsLowerHex = All (λ b. is_hex_digit b ≡ true)

-- hex: two lower-case digits for a byte, and decoding undoes it.
pub record HexLaws (p : Primitives) : Type 0 where
  pub decode-encode : (v : Bytes) → AreBytes v → p.hex_decode (p.hex_encode v) ≡ some v
  pub decode-AreBytes : (s v : Bytes) → p.hex_decode s ≡ some v → AreBytes v
  pub length-encode : (v : Bytes) → length (p.hex_encode v) ≡ 2 * length v
  pub encode-IsLowerHex : (v : Bytes) → AreBytes v → IsLowerHex (p.hex_encode v)
  pub encode-decode : (s v : Bytes) → IsLowerHex s → p.hex_decode s ≡ some v → p.hex_encode v ≡ s

-- hkdf: an output of at most 255 hash lengths is produced, and has the length asked for.
pub record HkdfLaws (p : Primitives) : Type 0 where
  pub produces :
      (salt ikm info : Bytes) (n : ℕ)
      → n ≤ 8160
      → (okm : Bytes) × (p.hkdf salt ikm info n ≡ some okm)
  pub length-okm :
      (salt ikm info okm : Bytes) (n : ℕ) → p.hkdf salt ikm info n ≡ some okm → length okm ≡ n
  pub okm-AreBytes :
      (salt ikm info okm : Bytes) (n : ℕ) → p.hkdf salt ikm info n ≡ some okm → AreBytes okm

-- aes-gcm: a 32-byte key is accepted, what is not longer than 2^36 bytes is encrypted, and decryption under the same key, nonce and associated
-- data undoes encryption.
pub record AeadLaws (p : Primitives) : Type 0 where
  pub accepts : (key : Bytes) → length key ≡ 32 → p.aes_accepts_key key ≡ true
  pub encrypts :
      (key nonce msg aad : Bytes)
      → length key ≡ 32
      → length nonce ≡ 12
      → length msg ≤ 2 ^ 36
      → length aad ≤ 2 ^ 36
      → (c : Bytes) × (p.aes_encrypt key nonce msg aad ≡ some c)
  pub decrypt-encrypt :
      (key nonce msg aad c : Bytes)
      → p.aes_encrypt key nonce msg aad ≡ some c
      → p.aes_decrypt key nonce c aad ≡ some msg
  pub encrypt-AreBytes :
      (key nonce msg aad c : Bytes)
      → AreBytes msg
      → p.aes_encrypt key nonce msg aad ≡ some c
      → AreBytes c

-- x25519-dalek: keys have 32 bytes, a secret is kept as given, and both sides agree.
pub record CurveLaws (p : Primitives) : Type 0 where
  pub secret-bytes : (b : Bytes) → p.x25519_secret b ≡ b
  pub length-public : (a : Bytes) → length (p.x25519_public a) ≡ 32
  pub public-AreBytes : (a : Bytes) → AreBytes (p.x25519_public a)
  pub agree :
      (a b : Bytes)
      → p.diffie_hellman a (p.x25519_public b) ≡ p.diffie_hellman b (p.x25519_public a)

-- ed25519-dalek: keys have 32 bytes and signatures 64, and what was signed verifies.
pub record SignatureLaws (p : Primitives) : Type 0 where
  pub length-public : (a : Bytes) → length (p.ed25519_public a) ≡ 32
  pub public-AreBytes : (a : Bytes) → AreBytes (p.ed25519_public a)
  pub length-signature : (a m : Bytes) → length (p.ed25519_signature a m) ≡ 64
  pub signature-AreBytes : (a m : Bytes) → AreBytes (p.ed25519_signature a m)
  pub accepts_key : (a : Bytes) → p.ed25519_accepts_key (p.ed25519_public a) ≡ true
  pub accepts_signature : (s : Bytes) → length s ≡ 64 → p.ed25519_accepts_signature s ≡ true
  pub verifies :
      (a m : Bytes) → p.ed25519_check (p.ed25519_public a) m (p.ed25519_signature a m) ≡ true

-- secp256k1: the x coordinate of a public key has 32 bytes.
pub record XOnlyLaws (p : Primitives) : Type 0 where
  pub length-x_only : (b x : Bytes) → p.x_only_public b ≡ some x → length x ≡ 32
  pub x_only-AreBytes : (b x : Bytes) → p.x_only_public b ≡ some x → AreBytes x
