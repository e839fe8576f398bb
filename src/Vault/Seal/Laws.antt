-- ===== src/Vault/Seal/Laws.antt =====
-- A sealed vault opens again with the passphrase and a valid code, and with nothing less.
use trino_core.Prelude.{
  ℕ, ◌≤◌, ◌^◌, ◌≡◌, refl, none, some, ok, err, true, if◌then◌else◌, List, Bytes, AreBytes, length,
  arith, Result-cases, Option-cases, inl, inr,
}
use trino_core.Prelude.Int.{ℤ}
use trino_core.Primitives.{Primitives, Rng, HexLaws, AeadLaws}
use trino_core.Crypto.{random_array, pbkdf2_sha256, aes_gcm_encrypt, aes_gcm_decrypt}
use trino_core.Crypto.Laws.{aes_gcm_encrypt_total, aes_gcm_decrypt-encrypt}
use trino_core.Identity.Prekeys.{Identity}
use trino_core.Totp.{HmacSha1, is_totp_code_valid}
use trino_core.Vault.File.{SealedVault, invalid_totp, vault_version, salt_size, pbkdf2_iterations}
use trino_core.Vault.Serial.{SerializedIdentity, serialize_identity, deserialize_identity}
use trino_core.Vault.Serial.Laws.{IsSized, deserialize_identity-serialize_identity}
use trino_core.Vault.Seal.{PayloadCodec, seal_with, seal_vault, unseal_vault}

-- serde_json: `payload` is written for `s`, and reads back as `s`; the cipher takes its length.
pub record IsPayload (codec : PayloadCodec) (s : SerializedIdentity) (payload : Bytes)
    : Type 0 where
  pub written : codec.to_vec s ≡ some payload
  pub bytes : AreBytes payload
  pub read : codec.from_slice payload ≡ some s
  pub fits : length payload ≤ 2 ^ 36

-- pbkdf2: it fills the buffer of 32 bytes.
abbrev pub DerivesKeys : Primitives → Type 0
DerivesKeys p = (passphrase salt : Bytes) (n : ℕ) → length (p.pbkdf2 passphrase salt n) ≡ 32

module _ (p : Primitives) (codec : PayloadCodec) (hmac : HmacSha1) where
  -- An opened vault has the version of this code, its ciphertext decrypts under the key of the
  -- passphrase and its own salt to a payload of the identity and the secret that are handed out,
  -- and the code is valid for this secret.
  pub unseal_vault_guarded :
      (now : ℤ) (v : SealedVault) (passphrase : Bytes) (input : List ℕ) (identity : Identity)
      (totp_secret : Bytes)
      → unseal_vault p codec hmac now v passphrase input ≡ ok (identity, totp_secret)
      → (v.version ≡ vault_version)
        × (is_totp_code_valid hmac now input totp_secret ≡ true)
        × (plaintext : Bytes) × (s : SerializedIdentity) × (aes_gcm_decrypt p
              (pbkdf2_sha256 p passphrase v.salt pbkdf2_iterations)
              v.ciphertext
              v.nonce
              none
            ≡ ok plaintext)
        × (codec.from_slice plaintext ≡ some s)
        × (deserialize_identity p s ≡ ok (identity, totp_secret))
  unfolding unseal_vault
  unseal_vault_guarded now v passphrase input identity totp_secret h =
      let key = pbkdf2_sha256 p passphrase v.salt pbkdf2_iterations in
      elim (Result-cases (aes_gcm_decrypt p key v.ciphertext v.nonce none)) [
        | inr (e, locked) ↦ absurd (ground arith)
        | inl (plaintext, opened) ↦ elim (Option-cases (codec.from_slice plaintext)) [
          | inl malformed ↦ absurd (ground arith)
          | inr (s, read) ↦ elim (Result-cases (deserialize_identity p s)) [
            | inr (e, refused) ↦ absurd (ground arith)
            | inl ((i, secret), loaded) ↦
                (ground arith, ground arith, plaintext, s, opened, read, ground arith)
          ]
        ]
      ]

  seals_lem :
      (salt : Bytes) (identity : Identity) (totp_secret passphrase payload c nonce : Bytes)
      (r : Rng)
      → codec.to_vec (serialize_identity p identity totp_secret) ≡ some payload
      → (aes_gcm_encrypt p (pbkdf2_sha256 p passphrase salt pbkdf2_iterations) payload none r).0
        ≡ ok (c, nonce)
      → seal_with p codec salt identity totp_secret passphrase r ≡ (
        ok (record { version = vault_version; salt = salt; nonce = nonce; ciphertext = c }),
        (aes_gcm_encrypt p (pbkdf2_sha256 p passphrase salt pbkdf2_iterations) payload none r).1,
      )
  unfolding seal_with
  seals_lem salt identity totp_secret passphrase payload c nonce r written sealed =
      rw (written, seal_with, sealed)

  module _ (hex : HexLaws p) (aead : AeadLaws p) (keys : DerivesKeys p) where
    opens_lem :
        (now : ℤ) (v : SealedVault) (passphrase : Bytes) (input : List ℕ) (identity : Identity)
        (totp_secret payload : Bytes)
        → v.version ≡ vault_version
        → aes_gcm_decrypt p
            (pbkdf2_sha256 p passphrase v.salt pbkdf2_iterations)
            v.ciphertext
            v.nonce
            none
          ≡ ok payload
        → codec.from_slice payload ≡ some (serialize_identity p identity totp_secret)
        → IsSized identity
        → AreBytes totp_secret
        → unseal_vault p codec hmac now v passphrase input ≡ (
            if is_totp_code_valid hmac now input totp_secret
            then ok (identity, totp_secret)
            else err invalid_totp)
    unfolding unseal_vault
    opens_lem now v passphrase input identity totp_secret payload ev opened read sized bytes =
        let loaded =
          deserialize_identity-serialize_identity p hex identity totp_secret sized bytes in
        rw (ev, opened, read, loaded) (ground arith)

    -- Given what the crates promise, and that serde_json writes the serialized identity as bytes
    -- that read back, at most 2^36 of them: sealing an identity, whose keys and signatures have
    -- their sizes, succeeds, and with the same passphrase the vault gives back the identity and
    -- the secret if the code is valid, and the error for an invalid code otherwise.
    pub unseal_vault-seal_vault :
        (identity : Identity) (totp_secret passphrase payload : Bytes) (r : Rng)
        → IsSized identity
        → AreBytes totp_secret
        → IsPayload codec (serialize_identity p identity totp_secret) payload
        → (v : SealedVault) × (r' : Rng) × (seal_vault p codec identity totp_secret passphrase r
            ≡ (ok v, r'))
          × ((now : ℤ) (input : List ℕ)
              → unseal_vault p codec hmac now v passphrase input ≡ (
                  if is_totp_code_valid hmac now input totp_secret
                  then ok (identity, totp_secret)
                  else err invalid_totp))
    unfolding seal_vault
    unseal_vault-seal_vault identity totp_secret passphrase payload r sized bytes w =
        let salt = (random_array salt_size r).0 in
        let r' = (random_array salt_size r).1 in
        let key = pbkdf2_sha256 p passphrase salt pbkdf2_iterations in
        let (c, nonce, sealed, _, _) =
          aes_gcm_encrypt_total p aead key payload none r' (keys passphrase salt pbkdf2_iterations)
            w.bytes w.fits (omega arith) in
        let (_, _, opened) = aes_gcm_decrypt-encrypt p aead key payload none r' sealed in
        (
          record { version = vault_version; salt = salt; nonce = nonce; ciphertext = c },
          (aes_gcm_encrypt p key payload none r').1,
          seals_lem salt identity totp_secret passphrase payload c nonce r' w.written sealed,
          λ now input.
              opens_lem now _ passphrase input identity totp_secret payload refl opened w.read sized
                bytes,
        )
