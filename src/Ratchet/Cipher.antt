-- ===== src/Ratchet/Cipher.antt =====
-- The encryption of one message in src/ratchet.rs: the associated data, hex, and the cipher.
pub mod Laws
use trino_core.Prelude.{Option, some, Result, ok, err, map_err, Bytes, List, [], ◌∷◌, ◌>>=◌}
use trino_core.Primitives.{Primitives, Rng}
use trino_core.Crypto.{concat, aes_gcm_encrypt, aes_gcm_decrypt}
use trino_core.Ratchet.State.{
  RatchetError, crypto, MessageHeader, EncryptedMessage, decode_hex, encode_header,
}

module _ (p : Primitives) where
  -- `aes_gcm_encrypt(&message_key, plaintext, Some(&ad))?`
  unfoldable pub seal_message :
      Bytes → Bytes → Bytes → Rng → Result RatchetError (Bytes × Bytes) × Rng
  seal_message key plaintext ad r =
      let (sealed, r') = aes_gcm_encrypt p key plaintext (some ad) r in (map_err crypto sealed, r')

  -- The end of both ways to decrypt, in `ratchet_decrypt_inner` and `try_skipped_message_key`.
  unfoldable pub open_message : Bytes → EncryptedMessage → Bytes → Result RatchetError Bytes
  open_message key msg associated_data = do
    header_bytes ← encode_header p msg.header
    let ad = concat (associated_data ∷ header_bytes ∷ [])
    ciphertext ← decode_hex p msg.ciphertext
    nonce ← decode_hex p msg.nonce
    map_err crypto (aes_gcm_decrypt p key ciphertext nonce (some ad))
