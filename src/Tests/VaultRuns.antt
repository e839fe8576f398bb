-- ===== src/Tests/VaultRuns.antt =====
-- Runs of the theorems about src/vault.rs.
use trino_core.Prelude.{
  ℕ, ◌≡◌, refl, ◌∙◌, true, none, some, ok, err, if◌then◌else◌, List, Bytes, codes, AreBytes, length,
  arith,
}
use trino_core.Prelude.Int.{pos, ℤ}
use trino_core.Primitives.{Rng}
use trino_core.Crypto.{pbkdf2_sha256, aes_gcm_decrypt}
use trino_core.Totp.{is_totp_code_valid, totp_code, default_digits, default_step}
use trino_core.Totp.Code.{totp_code-AreDigits}
use trino_core.Totp.Window.{is_totp_code_valid_iff, strip-AreDigits}
use trino_core.Vault.File.{
  SealedVault, encode_vault, decode_vault, decode_vault-encode_vault, vault_version,
  pbkdf2_iterations, invalid_totp,
}
use trino_core.Vault.Serial.{SerializedIdentity, serialize_identity, deserialize_identity}
use trino_core.Vault.Serial.Laws.{IsSized, stored_as, deserialize_identity-serialize_identity}
use trino_core.Vault.Serial.Legacy.{deserialize_identity-legacy}
use trino_core.Vault.Seal.{PayloadCodec, seal_vault, unseal_vault}
use trino_core.Vault.Seal.Laws.{IsPayload, unseal_vault-seal_vault, unseal_vault_guarded}
use trino_core.Tests.Toy.{
  toy, toy_hex, toy_aead, toy_curve, toy_signature, stretch, length-stretch, stretch-AreBytes,
}
use trino_core.Tests.Runs.{rng}
use trino_core.Tests.TotpRuns.{toy_hmac, secret}
use trino_core.Tests.IdentityRuns.{bob}

abbrev vault : SealedVault
vault = record { version = 1; salt = stretch 16 4; nonce = stretch 12 5; ciphertext = stretch 40 6 }

decode_vault-encode_vault_example : decode_vault (encode_vault vault) ≡ ok vault
decode_vault-encode_vault_example =
    decode_vault-encode_vault vault (length-stretch 16 4, length-stretch 12 5)

array : (n : ℕ) → AreBytes (stretch 32 n) × (length (stretch 32 n) ≡ 32)
array n = (stretch-AreBytes 32 n, length-stretch 32 n)

public : (a : Bytes) → AreBytes (toy.x25519_public a) × (length (toy.x25519_public a) ≡ 32)
public a = (toy_curve.public-AreBytes a, toy_curve.length-public a)

signature :
    (a m : Bytes) → AreBytes (toy.ed25519_signature a m) × (length (toy.ed25519_signature a m) ≡ 64)
signature a m = (toy_signature.signature-AreBytes a m, toy_signature.length-signature a m)

bob-IsSized : IsSized bob
bob-IsSized = record {
  ik_sign = (array 8, (toy_signature.public-AreBytes _, toy_signature.length-public _));
  ik_dh = (array 20, public _);
  nostr = (array 21, public _);
  signed_prekey = ((array 2, public _), signature _ _);
  one_time_prekeys = ((array 30, public _), ((array 31, public _), tt));
  retired_signed_prekeys = (((array 1, public _), signature _ _), tt);
}

deserialize_identity-serialize_identity_example :
    deserialize_identity toy (serialize_identity toy bob secret) ≡ ok (bob, secret)
deserialize_identity-serialize_identity_example =
    deserialize_identity-serialize_identity toy toy_hex bob secret bob-IsSized
      (stretch-AreBytes 20 77)

deserialize_identity-legacy_example :
    deserialize_identity toy (stored_as toy (λ _. none) bob secret) ≡ ok (bob, secret)
deserialize_identity-legacy_example =
    deserialize_identity-legacy toy toy_hex bob secret bob-IsSized (stretch-AreBytes 20 77)
      (omega arith, refl, tt)

-- A codec that knows one identity.
abbrev stored : SerializedIdentity
stored = serialize_identity toy bob secret

abbrev codec : PayloadCodec
codec = record { to_vec = λ s. some (codes "{}"); from_slice = λ b. some stored }

stored-IsPayload : IsPayload codec stored (codes "{}")
stored-IsPayload = record { written = refl; bytes = omega arith; read = refl; fits = omega arith }

abbrev passphrase : Bytes
passphrase = codes "correct horse"

unseal_vault-seal_vault_example :
    (v : SealedVault) × (r' : Rng) × (seal_vault toy codec bob secret passphrase rng ≡ (ok v, r'))
    × ((now : ℤ) (input : List ℕ)
        → unseal_vault toy codec toy_hmac now v passphrase input ≡ (
            if is_totp_code_valid toy_hmac now input secret
            then ok (bob, secret)
            else err invalid_totp))
unseal_vault-seal_vault_example =
    unseal_vault-seal_vault toy codec toy_hmac toy_hex toy_aead (λ w s n. length-stretch 32 _) bob
      secret passphrase (codes "{}") rng bob-IsSized (stretch-AreBytes 20 77) stored-IsPayload

-- The vault that was sealed, and the code of the present time.
abbrev sealed : SealedVault
sealed = unseal_vault-seal_vault_example.0

abbrev code : Bytes
code = totp_code toy_hmac secret 1700000000 default_digits default_step

code-is_totp_code_valid : is_totp_code_valid toy_hmac (pos 1700000000) code secret ≡ true
code-is_totp_code_valid =
    (is_totp_code_valid_iff toy_hmac secret 1700000000 code (omega arith) (omega arith)).1 (
      1700000000,
      omega arith,
      omega arith,
      strip-AreDigits code (totp_code-AreDigits toy_hmac secret 1700000000 5 30).1,
    )

opened : unseal_vault toy codec toy_hmac (pos 1700000000) sealed passphrase code ≡ ok (bob, secret)
opened = unseal_vault-seal_vault_example.3 (pos 1700000000) code ∙ rw code-is_totp_code_valid

unseal_vault_guarded_example :
    (sealed.version ≡ vault_version)
    × (is_totp_code_valid toy_hmac (pos 1700000000) code secret ≡ true)
    × (plaintext : Bytes) × (s : SerializedIdentity) × (aes_gcm_decrypt toy
          (pbkdf2_sha256 toy passphrase sealed.salt pbkdf2_iterations)
          sealed.ciphertext
          sealed.nonce
          none
        ≡ ok plaintext)
    × (codec.from_slice plaintext ≡ some s)
    × (deserialize_identity toy s ≡ ok (bob, secret))
unseal_vault_guarded_example =
    unseal_vault_guarded toy codec toy_hmac (pos 1700000000) sealed passphrase code bob secret
      opened
