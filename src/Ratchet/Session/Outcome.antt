-- ===== src/Ratchet/Session/Outcome.antt =====
-- Which errors the parts of `ratchet_decrypt` of src/ratchet.rs give rise to.
use trino_core.Prelude.{
  ◌≡◌, inl, inr, Bytes, ◌==◌, arith, Option, some, none, Result, ok, err, map_err, ok_or, length,
  Bool-cases, Option-cases, Result-cases, ◌>>=◌,
}
use trino_core.Primitives.{Primitives}
use trino_core.Crypto.{CryptoError}
use trino_core.Ratchet.State.{
  RatchetError, no_sending_chain, no_receiving_chain, out_of_order, too_many_skipped, replay,
  crypto, EncryptedMessage, decode_32, decode_hex, encode_header, kdf_ck,
}
use trino_core.Ratchet.Cipher.{open_message}
use trino_core.Ratchet.Session.{World, receive_step}

-- An outcome that is neither of the two refusals.
abbrev pub IsOtherError : RatchetError → Type 0
IsOtherError no_sending_chain = Unit
IsOtherError no_receiving_chain = Unit
IsOtherError (out_of_order expected got) = Unit
IsOtherError (too_many_skipped k) = ⊥
IsOtherError (replay k) = ⊥
IsOtherError (crypto e) = Unit

abbrev pub IsOther : {A : Type 0} → Result RatchetError A → Type 0
IsOther (ok a) = Unit
IsOther (err e) = IsOtherError e

map_err-IsOther : {A : Type 0} (x : Result CryptoError A) → IsOther (map_err crypto x)
map_err-IsOther (ok a) = tt
map_err-IsOther (err e) = tt

ok_or-IsOther : {A : Type 0} (o : Option A) (e : CryptoError) → IsOther (ok_or o (crypto e))
ok_or-IsOther none e = tt
ok_or-IsOther (some a) e = tt

bind-IsOther :
    {A B : Type 0} (x : Result RatchetError A) (f : A → Result RatchetError B)
    → IsOther x
    → ((a : A) → IsOther (f a))
    → IsOther (x >>= f)
bind-IsOther (ok a) f h k = k a
bind-IsOther (err e) f h k = h

-- The key that a header names.
abbrev pub Names : Primitives → EncryptedMessage → Bytes → Type 0
Names p msg d = (p.hex_decode msg.header.dh_pub ≡ some d) × (length d ≡ 32)

module _ (p : Primitives) where
  pub decode_32-IsOther : (s : Bytes) → IsOther (decode_32 p s)
  unfolding decode_32
  decode_32-IsOther s = elim (Option-cases (p.hex_decode s)) [
    | inl malformed ↦ rw malformed tt
    | inr (v, found) ↦ elim (Bool-cases (length v == 32)) [
      | inl fits ↦ rw (found, fits) tt
      | inr differs ↦ rw (found, differs) tt
    ]
  ]

  pub Names-decode_32 :
      (msg : EncryptedMessage) (d : Bytes) → Names p msg d → decode_32 p msg.header.dh_pub ≡ ok d
  unfolding decode_32
  Names-decode_32 msg d h = ground (arith, h.0, h.1)

  pub decode_32-Names :
      (msg : EncryptedMessage) (d : Bytes) → decode_32 p msg.header.dh_pub ≡ ok d → Names p msg d
  unfolding decode_32
  decode_32-Names msg d h = elim (Option-cases (p.hex_decode msg.header.dh_pub)) [
    | inl malformed ↦ absurd (ground arith)
    | inr (v, found) ↦ ground arith
  ]

  pub open_message-IsOther :
      (key ad : Bytes) (msg : EncryptedMessage) → IsOther (open_message p key msg ad)
  unfolding open_message encode_header decode_hex
  open_message-IsOther key ad msg =
      bind-IsOther _ _ (bind-IsOther _ _ (decode_32-IsOther msg.header.dh_pub) (λ d. tt)) (λ h.
        bind-IsOther _ _ (ok_or-IsOther (p.hex_decode msg.ciphertext) _) (λ c.
          bind-IsOther _ _ (ok_or-IsOther (p.hex_decode msg.nonce) _) (λ n. map_err-IsOther _)))

  pub receive_step-IsOther :
      (msg : EncryptedMessage) (ad : Bytes) (w : World) → IsOther (receive_step p msg ad w).0
  unfolding receive_step
  receive_step-IsOther msg ad w = elim (Option-cases w.0.receiving_chain_key) [
    | inl none_yet ↦ rw none_yet tt
    | inr (ck, chain) ↦ elim (Result-cases (kdf_ck p ck)) [
      | inl ((next_ck, mk), derived) ↦ rw (chain, derived) (open_message-IsOther mk ad msg)
      | inr (e, failed) ↦ rw (chain, failed) tt
    ]
  ]
