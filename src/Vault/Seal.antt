-- ===== src/Vault/Seal.antt =====
-- Sealing and unsealing of src/vault.rs.
pub mod Laws
use trino_core.Prelude.{
  ℕ, Option, none, some, Result, ok, err, ok_or, map_err, Bool, true, false, not, ◌==◌,
  if◌then◌else◌, List, Bytes, ◌>>=◌, Action,
}
use trino_core.Prelude.Int.{ℤ}
use trino_core.Primitives.{Primitives, Rng}
use trino_core.Crypto.{random_array, pbkdf2_sha256, aes_gcm_encrypt, aes_gcm_decrypt}
use trino_core.Identity.Prekeys.{Identity}
use trino_core.Totp.{HmacSha1, is_totp_code_valid}
use trino_core.Vault.File.{
  VaultError, SealedVault, unsupported_version, bad_payload, decryption_failed, invalid_totp,
  crypto_failed, vault_version, salt_size, pbkdf2_iterations,
}
use trino_core.Vault.Serial.{SerializedIdentity, serialize_identity, deserialize_identity}

-- `serde_json::to_vec` and `from_slice` on `SerializedIdentity`.
pub record PayloadCodec : Type 0 where
  pub to_vec : SerializedIdentity → Option Bytes
  pub from_slice : Bytes → Option SerializedIdentity

module _ (p : Primitives) (codec : PayloadCodec) where
  -- With the salt drawn: the key, the payload, the cipher.
  unfoldable pub seal_with : Bytes → Identity → Bytes → Bytes → Action Rng VaultError SealedVault
  seal_with salt identity totp_secret passphrase r =
      let key = pbkdf2_sha256 p passphrase salt pbkdf2_iterations in
      elim (codec.to_vec (serialize_identity p identity totp_secret)) [
        | none ↦ (err bad_payload, r)
        | some payload_bytes ↦
            let (sealed, r') = aes_gcm_encrypt p key payload_bytes none r in
            (
              (map_err crypto_failed sealed >>= λ c.
                  ok (record {
                    version = vault_version;
                    salt = salt;
                    nonce = c.1;
                    ciphertext = c.0;
                  })),
              r',
            )
      ]

  unfoldable pub seal_vault : Identity → Bytes → Bytes → Action Rng VaultError SealedVault
  unfolding seal_with
  seal_vault identity totp_secret passphrase r =
      let (salt, r') = random_array salt_size r in seal_with salt identity totp_secret passphrase r'

  module _ (hmac : HmacSha1) where
    abbrev check_totp : ℤ → List ℕ → Identity × Bytes → Result VaultError (Identity × Bytes)
    check_totp now totp_code_input (identity, totp_secret) =
        if not (is_totp_code_valid hmac now totp_code_input totp_secret)
        then err invalid_totp
        else ok (identity, totp_secret)

    -- At the present time `now`.
    unfoldable pub unseal_vault :
        ℤ → SealedVault → Bytes → List ℕ → Result VaultError (Identity × Bytes)
    unseal_vault now blob passphrase totp_code_input =
        if not (blob.version == vault_version)
        then err (unsupported_version blob.version)
        else (let key = pbkdf2_sha256 p passphrase blob.salt pbkdf2_iterations in
            map_err (λ _. decryption_failed) (aes_gcm_decrypt p key blob.ciphertext blob.nonce none)
            >>= λ plaintext. ok_or (codec.from_slice plaintext) bad_payload >>= λ serialized.
                deserialize_identity p serialized >>= check_totp now totp_code_input)
