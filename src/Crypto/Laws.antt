-- ===== src/Crypto/Laws.antt =====
-- What the wrappers of src/crypto.rs promise: lengths, and decryption after encryption.
use trino_core.Prelude.{
  ℕ, zero, suc, ◌≡◌, refl, ap, Option, ok, Bytes, AreBytes, length, arith, ◌≤◌, ◌^◌,
}
use trino_core.Primitives.{Primitives, Rng, AeadLaws, HkdfLaws}
use trino_core.Crypto.{
  fill, random_bytes, nonce_size, key_size, aes_gcm_encrypt, aes_gcm_decrypt, payload_aad,
  hkdf_expand,
}

length-fill : (n : ℕ) (r : Rng) → length (fill n r) ≡ n
unfolding fill
length-fill zero r = refl
length-fill (suc n) r = ap suc (length-fill n (λ i. r (suc i)))

fill-AreBytes : (n : ℕ) (r : Rng) → AreBytes (fill n r)
unfolding fill
fill-AreBytes zero r = tt
fill-AreBytes (suc n) r = (omega arith, fill-AreBytes n (λ i. r (suc i)))

pub length-random_bytes : (n : ℕ) (r : Rng) → length (random_bytes n r).0 ≡ n
unfolding random_bytes
length-random_bytes n r = length-fill n r

pub random_bytes-AreBytes : (n : ℕ) (r : Rng) → AreBytes (random_bytes n r).0
unfolding random_bytes
random_bytes-AreBytes n r = fill-AreBytes n r

module _ (p : Primitives) where
  -- Given what the aes-gcm crate promises, a successful encryption used a 32-byte key and handed
  -- back a 12-byte nonce, with which the ciphertext decrypts to the text under the same key and
  -- associated data.
  pub aes_gcm_decrypt-encrypt :
      AeadLaws p
      → (key plaintext : Bytes) (aad : Option Bytes) (r : Rng) {c nonce : Bytes}
      → (aes_gcm_encrypt p key plaintext aad r).0 ≡ ok (c, nonce)
      → (length key ≡ key_size)
        × (length nonce ≡ nonce_size)
        × (aes_gcm_decrypt p key c nonce aad ≡ ok plaintext)
  unfolding aes_gcm_encrypt aes_gcm_decrypt
  aes_gcm_decrypt-encrypt laws key plaintext aad r {c} {nonce} h = ground (
    arith,
    length-random_bytes nonce_size r,
    laws.decrypt-encrypt key nonce plaintext (payload_aad p aad) c,
  )

  pub hkdf_expand_total :
      HkdfLaws p
      → (ikm salt info : Bytes) (n : ℕ) → n ≤ 8160
      → (okm : Bytes) × (hkdf_expand p ikm salt info n ≡ ok okm) × (length okm ≡ n) × AreBytes okm
  unfolding hkdf_expand
  hkdf_expand_total laws ikm salt info n h =
      let (okm, e) = laws.produces salt ikm info n h in
      (okm, rw e, laws.length-okm _ _ _ _ _ e, laws.okm-AreBytes _ _ _ _ _ e)

  -- With a 32-byte key and a text that is not too long, encryption succeeds; what it hands back are
  -- bytes.
  pub aes_gcm_encrypt_total :
      AeadLaws p
      → (key plaintext : Bytes) (aad : Option Bytes) (r : Rng) → length key ≡ key_size
      → AreBytes plaintext
      → length plaintext ≤ 2 ^ 36
      → length (payload_aad p aad) ≤ 2 ^ 36
      → (c nonce : Bytes) × ((aes_gcm_encrypt p key plaintext aad r).0 ≡ ok (c, nonce))
        × AreBytes c
        × AreBytes nonce
  unfolding aes_gcm_encrypt
  aes_gcm_encrypt_total laws key plaintext aad r lk bt lt la =
      let nonce = (random_bytes nonce_size r).0 in
      let (c, e) =
        laws.encrypts key nonce plaintext (payload_aad p aad) lk (length-random_bytes nonce_size r)
          lt la in
      (
        c,
        nonce,
        ground (arith, laws.accepts key),
        laws.encrypt-AreBytes key nonce plaintext (payload_aad p aad) c bt e,
        random_bytes-AreBytes nonce_size r,
      )
