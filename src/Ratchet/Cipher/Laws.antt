-- ===== src/Ratchet/Cipher/Laws.antt =====
-- What was sealed for a header opens again under the same key and associated data.
use trino_core.Prelude.{
  ℕ, ◌+◌, ◌≤◌, ◌^◌, ◌≡◌, Bytes, AreBytes, [], ◌∷◌, ◌++◌, length, arith, some, ok, length-append,
}
use trino_core.Prelude.Decimal.{to_be_bytes}
use trino_core.Primitives.{Primitives, Rng, HexLaws, AeadLaws}
use trino_core.Crypto.{concat, to_hex, aes_gcm_encrypt}
use trino_core.Crypto.Laws.{aes_gcm_decrypt-encrypt, aes_gcm_encrypt_total}
use trino_core.Ratchet.State.{MessageHeader, EncryptedMessage, encode_header, decode_32, decode_hex}
use trino_core.Ratchet.State.Laws.{IsKey}
use trino_core.Ratchet.Cipher.{seal_message, open_message}

-- The 40 bytes of a header.
abbrev pub header_bytes : Bytes → ℕ → ℕ → Bytes
header_bytes d pn n = d ++ (to_be_bytes pn ++ to_be_bytes n)

abbrev pub message_of : Primitives → MessageHeader → Bytes → Bytes → EncryptedMessage
message_of p h c nonce = record { header = h; nonce = to_hex p nonce; ciphertext = to_hex p c }

length-header_bytes : (d : Bytes) (pn n : ℕ) → length (header_bytes d pn n) ≡ length d + 8
unfolding to_be_bytes
length-header_bytes d pn n = omega (arith, length-append d (to_be_bytes pn ++ to_be_bytes n))

length-concat_two : (a b : Bytes) → length (concat (a ∷ b ∷ [])) ≡ length a + length b
unfolding concat
length-concat_two a b = omega (arith, length-append a (b ++ []), length-append b [])

module _ (p : Primitives) (hex : HexLaws p) where
  pub decode_32-to_hex : (d : Bytes) → IsKey d → decode_32 p (to_hex p d) ≡ ok d
  unfolding decode_32
  decode_32-to_hex d (b, len) = ground (arith, hex.decode-encode d b)

  pub encode_header_lem :
      (h : MessageHeader) (d : Bytes)
      → decode_32 p h.dh_pub ≡ ok d
      → encode_header p h ≡ ok (header_bytes d h.pn h.n)
  unfolding encode_header
  encode_header_lem h d e = rw e

  decode_hex-to_hex : (v : Bytes) → AreBytes v → decode_hex p (to_hex p v) ≡ ok v
  unfolding decode_hex
  decode_hex-to_hex v b = rw (hex.decode-encode v b)

  pub open-seal :
      AeadLaws p
      → (h : MessageHeader) (d key plaintext ad : Bytes) (r : Rng) → decode_32 p h.dh_pub ≡ ok d
      → length d ≡ 32
      → length key ≡ 32
      → AreBytes plaintext
      → length plaintext ≤ 2 ^ 36
      → length ad + 40 ≤ 2 ^ 36
      → (c nonce : Bytes) × (r' : Rng) × (seal_message p key plaintext
            (concat (ad ∷ header_bytes d h.pn h.n ∷ []))
            r
          ≡ (ok (c, nonce), r'))
        × (open_message p key (message_of p h c nonce) ad ≡ ok plaintext)
  unfolding seal_message open_message
  open-seal laws h d key plaintext ad r e ld lk bt lt la =
      let full = concat (ad ∷ header_bytes d h.pn h.n ∷ []) in
      let fits : length full ≤ 2 ^ 36 =
        omega
          (arith, length-concat_two ad (header_bytes d h.pn h.n), length-header_bytes d h.pn h.n) in
      let (c, nonce, sealed, bc, bn) =
        aes_gcm_encrypt_total p laws key plaintext (some full) r lk bt lt fits in
      let (_, _, opened) = aes_gcm_decrypt-encrypt p laws key plaintext (some full) r sealed in
      (
        c,
        nonce,
        (aes_gcm_encrypt p key plaintext (some full) r).1,
        rw sealed,
        rw (encode_header_lem h d e, decode_hex-to_hex c bc, decode_hex-to_hex nonce bn, opened),
      )
