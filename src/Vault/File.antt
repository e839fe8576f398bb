-- ===== src/Vault/File.antt =====
-- The bytes of a vault file in src/vault.rs.
use trino_core.Prelude.{
  ℕ, zero, suc, ◌+◌, ◌≡◌, refl, ap, sym, ◌∙◌, some, none, Result, ok, err, ltb, not, if◌then◌else◌,
  true, false, [], ◌∷◌, ◌++◌, Bytes, codes, length, take, drop, get_elem?, bytes_eq, bytes_eq_refl,
  take-append, drop-append, length-append, length-take, length-drop, arith,
}
use trino_core.Crypto.{CryptoError}
use trino_core.Identity.Keys.{IdentityError}

abbrev pub pbkdf2_iterations : ℕ
pbkdf2_iterations = 600000

abbrev pub salt_size : ℕ
salt_size = 16

abbrev pub vault_version : ℕ
vault_version = 1

abbrev pub vault_magic : Bytes
vault_magic = codes "TRINO" ++ (0 ∷ [])

pub data VaultError : Type 0 where
  unsupported_version : ℕ → VaultError
  corrupted bad_magic decryption_failed invalid_totp bad_payload : VaultError
  crypto_failed : CryptoError → VaultError
  identity_failed : IdentityError → VaultError

pub record SealedVault : Type 0 where
  pub version : ℕ
  pub salt : Bytes
  pub nonce : Bytes
  pub ciphertext : Bytes

unfoldable pub encode_vault : SealedVault → Bytes
encode_vault v = vault_magic ++ (v.version ∷ 0 ∷ (v.salt ++ (v.nonce ++ v.ciphertext)))

-- `bytes[off]`, which is in range where it is used.
abbrev byte_at : ℕ → Bytes → ℕ
byte_at i bs = elim (get_elem? bs i) [ none ↦ 0 | some b ↦ b ]

unfoldable pub decode_vault : Bytes → Result VaultError SealedVault
decode_vault bytes =
    let min_size = length vault_magic + 2 + salt_size + 12 in
    if ltb (length bytes) min_size
    then err corrupted
    else if not (bytes_eq (take (length vault_magic) bytes) vault_magic)
    then err bad_magic
    else ok (record {
      version = byte_at (length vault_magic) bytes;
      salt = take salt_size (drop (length vault_magic + 2) bytes);
      nonce = take 12 (drop (length vault_magic + 2 + salt_size) bytes);
      ciphertext = drop (length vault_magic + 2 + salt_size + 12) bytes;
    })

-- The arrays of a vault have their sizes.
abbrev pub IsSized : SealedVault → Type 0
IsSized v = (length v.salt ≡ salt_size) × (length v.nonce ≡ 12)

take_at : (n : ℕ) (a b : Bytes) → length a ≡ n → take n (a ++ b) ≡ a
take_at n a b e = rw (sym e) (take-append a b)

drop_at : (n : ℕ) (a b : Bytes) → length a ≡ n → drop n (a ++ b) ≡ b
drop_at n a b e = rw (sym e) (drop-append a b)

drop_nil : (n : ℕ) → drop {A = ℕ} n [] ≡ []
drop_nil zero = refl
drop_nil (suc n) = refl

drop-drop : (m n : ℕ) (xs : Bytes) → drop (m + n) xs ≡ drop n (drop m xs)
drop-drop zero n xs = let e : 0 + n ≡ n = omega arith in ap (λ k. drop k xs) e
drop-drop (suc m) n [] = drop_nil (suc m + n) ∙ sym (drop_nil n)
drop-drop (suc m) n (x ∷ xs) =
    let e : suc m + n ≡ suc (m + n) = omega arith in ap (λ k. drop k (x ∷ xs)) e ∙ drop-drop m n xs

-- The three parts after the head of the file.
parts_lem :
    (a b c : Bytes)
    → length a ≡ 16
    → length b ≡ 12
    → (take 16 (a ++ (b ++ c)) ≡ a)
      × (take 12 (drop 16 (a ++ (b ++ c))) ≡ b)
      × (drop 28 (a ++ (b ++ c)) ≡ c)
parts_lem a b c la lb =
    let after = drop_at 16 a (b ++ c) la in
    (
      take_at 16 a (b ++ c) la,
      ap (take 12) after ∙ take_at 12 b c lb,
      drop-drop 16 12 (a ++ (b ++ c)) ∙ ap (drop 12) after ∙ drop_at 12 b c lb,
    )

-- A vault whose salt and nonce have their sizes is read back from its bytes as it was.
pub decode_vault-encode_vault : (v : SealedVault) → IsSized v → decode_vault (encode_vault v) ≡ ok v
unfolding decode_vault encode_vault
decode_vault-encode_vault v s =
    let (salt, nonce, text) = parts_lem v.salt v.nonce v.ciphertext s.0 s.1 in
    let long : ltb (length (encode_vault v)) 36 ≡ false = ground (
      arith,
      length-append v.salt (v.nonce ++ v.ciphertext),
      length-append v.nonce v.ciphertext,
      s.0,
      s.1,
    ) in
    let magic : bytes_eq vault_magic vault_magic ≡ true = bytes_eq_refl vault_magic in
    rw (long, magic, salt, nonce, text)

-- What is read from a file has arrays of the right sizes.
pub decode_vault-IsSized : (bytes : Bytes) (v : SealedVault) → decode_vault bytes ≡ ok v → IsSized v
unfolding decode_vault
decode_vault-IsSized bytes v h = ground (
  arith,
  length-take salt_size (drop 8 bytes),
  length-drop 8 bytes,
  length-take 12 (drop 24 bytes),
  length-drop 24 bytes,
)
