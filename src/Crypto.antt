-- ===== src/Crypto.antt =====
-- src/crypto.rs: random bytes, and the wrappers around the third-party ciphers and key derivation.
pub mod Laws
use trino_core.Prelude.{
  ℕ, zero, suc, ◌+◌, ◌%◌, Option, some, none, Result, ok, err, ok_or, ◌==◌, if◌then◌else◌, not,
  List, [], ◌∷◌, ◌++◌, Bytes, length, Action, ◌>>=◌,
}
use trino_core.Primitives.{Primitives, Rng}

abbrev pub key_size : ℕ
key_size = 32

abbrev pub nonce_size : ℕ
nonce_size = 12

pub data CryptoError : Type 0 where
  invalid_key_length : ℕ → ℕ → CryptoError
  invalid_nonce_length : ℕ → ℕ → CryptoError
  aead : CryptoError
  hkdf_failed : CryptoError

-- `rand::thread_rng().fill_bytes(&mut buf)` on a buffer of `n` bytes.
fill : ℕ → Rng → Bytes
fill zero r = []
fill (suc n) r = (r 0 % 256) ∷ fill n (λ i. r (suc i))

unfoldable pub random_bytes : ℕ → Rng → Bytes × Rng
unfolding fill
random_bytes n r = (fill n r, λ i. r (n + i))

abbrev pub random_array : ℕ → Rng → Bytes × Rng
random_array = random_bytes

-- The bytes of each part in turn.
unfoldable pub concat : List Bytes → Bytes
concat [] = []
concat (part ∷ parts) = part ++ concat parts

module _ (p : Primitives) where
  abbrev pub sha256 : Bytes → Bytes
  sha256 data_bytes = p.sha256_digest data_bytes

  abbrev pub pbkdf2_sha256 : Bytes → Bytes → ℕ → Bytes
  pbkdf2_sha256 passphrase salt iterations = p.pbkdf2 passphrase salt iterations

  abbrev pub to_hex : Bytes → Bytes
  to_hex bytes = p.hex_encode bytes

  abbrev pub from_hex : Bytes → Option Bytes
  from_hex s = p.hex_decode s

  unfoldable pub hkdf_expand : Bytes → Bytes → Bytes → ℕ → Result CryptoError Bytes
  hkdf_expand ikm salt info n = ok_or (p.hkdf salt ikm info n) hkdf_failed

  -- `Payload { msg, aad }`, or `Payload::from(msg)`, whose associated data is empty.
  abbrev pub payload_aad : Option Bytes → Bytes
  payload_aad none = []
  payload_aad (some aad) = aad

  -- After the length check: the key schedule, a fresh nonce, the cipher.
  seal : Bytes → Bytes → Option Bytes → Action Rng CryptoError (Bytes × Bytes)
  seal key plaintext associated_data r =
      if p.aes_accepts_key key
      then (let (nonce, r') = random_array nonce_size r in
          (
            ok_or (p.aes_encrypt key nonce plaintext (payload_aad associated_data)) aead
                >>= (λ c. ok (c, nonce)),
            r',
          ))
      else (err aead, r)

  unfoldable pub aes_gcm_encrypt :
      Bytes → Bytes → Option Bytes → Action Rng CryptoError (Bytes × Bytes)
  unfolding seal random_bytes
  aes_gcm_encrypt key plaintext associated_data r =
      if not (length key == key_size)
      then (err (invalid_key_length key_size (length key)), r)
      else seal key plaintext associated_data r

  unfoldable pub aes_gcm_decrypt : Bytes → Bytes → Bytes → Option Bytes → Result CryptoError Bytes
  aes_gcm_decrypt key ciphertext nonce associated_data =
      if not (length key == key_size)
      then err (invalid_key_length key_size (length key))
      else if not (length nonce == nonce_size)
      then err (invalid_nonce_length nonce_size (length nonce))
      else if p.aes_accepts_key key
      then ok_or (p.aes_decrypt key nonce ciphertext (payload_aad associated_data)) aead
      else err aead
