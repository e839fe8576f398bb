-- ===== src/Ratchet/Session.antt =====
-- Encryption and decryption of src/ratchet.rs: skipping ahead, the DH step, and the rollback.
pub mod Invariant
pub mod Side
pub mod Chain
pub mod Delivery
pub mod Burst
pub mod AnyOrder
pub mod Once
pub mod Outcome
pub mod Missing
pub mod Refusal
pub mod Turn
pub mod Begin
pub mod Reachable
use trino_core.Prelude.{
  ℕ, zero, suc, ◌+◌, ◌-◌, ◌%◌, ◌^◌, Option, some, none, Result, ok, err, ok_or, map_err, Bytes,
  List, [], ◌∷◌, ◌++◌, length, ltb, leb, ◌==◌, if◌then◌else◌, not, ◌&&◌, ◌||◌, Bool, true, false,
  bytes_eq, contains, lookup, Action, drop,
}
use trino_core.Prelude.Steps.{
  ◌>>=◌, ◌>>◌, next, pure, fail, lift, gets, modify, on_first, on_second, draw,
}
use trino_core.Primitives.{Primitives, Rng}
use trino_core.Crypto.{CryptoError, concat, to_hex, aes_gcm_encrypt, aes_gcm_decrypt}
use trino_core.Identity.Keys.{KeyPair, generate_x25519, x25519_derive_shared}
use trino_core.Ratchet.State.{
  RatchetState, RatchetError, no_sending_chain, no_receiving_chain, too_many_skipped, replay,
  crypto, MessageHeader, EncryptedMessage, max_skip, max_retired_dh_keys, kdf_rk, kdf_ck, decode_32,
  decode_hex, encode_header, skipped_key_id,
}
use trino_core.Ratchet.Cipher.{seal_message, open_message}
use trino_core.Ratchet.Store.{bank_skipped_key, forget_skipped_key}

-- `+= 1` on a `u32`, in a release build.
abbrev pub succ_u32 : ℕ → ℕ
succ_u32 n = (n + 1) % 2 ^ 32

abbrev pub saturating_add : ℕ → ℕ → ℕ
saturating_add a b = if ltb (a + b) (2 ^ 32) then a + b else 2 ^ 32 - 1

-- The ratchet beside the generator of random bytes.
abbrev pub World : Type 0
World = RatchetState × Rng

abbrev pub Ratchet : Type 0 → Type 0
Ratchet = Action World RatchetError

-- A test of two optional keys, `a == Some(b)`.
abbrev pub is_key : Option Bytes → Bytes → Bool
is_key none b = false
is_key (some a) b = bytes_eq a b

-- The bookkeeping at the head of `dh_ratchet_step`: counters, and the key that is retired.
unfoldable pub retire : Bytes → List Bytes → List Bytes
retire previous retired =
    let pushed = retired ++ (previous ∷ []) in
    if leb (length pushed) max_retired_dh_keys then pushed else drop 1 pushed

unfoldable pub retired_after : Option Bytes → Bytes → List Bytes → List Bytes
unfolding retire
retired_after none peer retired = retired
retired_after (some previous) peer retired =
    if not (bytes_eq previous peer) && not (contains previous retired)
    then retire previous retired
    else retired

unfoldable pub begin_step : Bytes → RatchetState → RatchetState
unfolding retired_after
begin_step peer_dh_pub s = record s {
  previous_sending_chain_length = s.sending_msg_number;
  sending_msg_number = 0;
  receiving_msg_number = 0;
  retired_peer_dh_keys = retired_after s.dhr peer_dh_pub s.retired_peer_dh_keys;
  dhr = some peer_dh_pub;
}

-- A retired peer key, or a number of the current chain that was already passed.
unfoldable pub is_replay : RatchetState → Bytes → ℕ → Bool
is_replay s header_dh n =
    contains header_dh s.retired_peer_dh_keys
    || (is_key s.dhr header_dh && ltb n s.receiving_msg_number)

-- The state from before comes back with any error; the random bytes are spent.
abbrev pub roll_back :
    RatchetState → Result RatchetError Bytes × World → Result RatchetError Bytes × World
roll_back snapshot (ok pt, w) = (ok pt, w)
roll_back snapshot (err e, w) = (err e, (snapshot, w.1))

module _ (p : Primitives) where
  -- The `while` of `skip_message_keys`, by the rounds that are left, then the write of the chain key.
  unfoldable pub skip_loop : ℕ → Bytes → Bytes → Action RatchetState RatchetError (Unit {0})
  skip_loop zero dhr ck s = (ok tt, record s { receiving_chain_key = some ck })
  skip_loop (suc rounds) dhr ck s = elim (kdf_ck p ck) [
    | err e ↦ (err (crypto e), s)
    | ok (next_ck, mk) ↦
        let banked = bank_skipped_key (skipped_key_id p dhr s.receiving_msg_number) mk s in
        skip_loop rounds dhr next_ck
          (record banked { receiving_msg_number = succ_u32 banked.receiving_msg_number })
  ]

  unfoldable pub skip_message_keys : ℕ → Action RatchetState RatchetError (Unit {0})
  unfolding skip_loop
  skip_message_keys until s = elim s.receiving_chain_key [
    | none ↦ (ok tt, s)
    | some recv_ck ↦
        if ltb (saturating_add s.receiving_msg_number max_skip) until
        then (err (too_many_skipped max_skip), s)
        else elim s.dhr [
          | none ↦ (ok tt, s)
          | some dhr ↦ skip_loop (until - s.receiving_msg_number) dhr recv_ck s
        ]
  ]

  unfoldable pub dh_ratchet_step : Bytes → Ratchet (Unit {0})
  unfolding begin_step
  dh_ratchet_step peer_dh_pub = do
    on_first (modify (begin_step peer_dh_pub))
    s ← on_first (gets (λ s. s))
    dh_out_recv ← draw (x25519_derive_shared p s.dhs.priv_bytes peer_dh_pub)
    (new_rk, recv_ck) ← lift (map_err crypto (kdf_rk p s.root_key dh_out_recv))
    on_first (modify (λ s. record s { root_key = new_rk; receiving_chain_key = some recv_ck }))
    new_dhs ← draw (generate_x25519 p)
    dh_out_send ← draw (x25519_derive_shared p new_dhs.priv_bytes peer_dh_pub)
    on_first (modify (λ s. record s { dhs = new_dhs }))
    (new_rk2, send_ck) ← lift (map_err crypto (kdf_rk p new_rk dh_out_send))
    on_first (modify (λ s. record s { root_key = new_rk2; sending_chain_key = some send_ck }))

  unfoldable pub ratchet_encrypt : Bytes → Bytes → Ratchet EncryptedMessage
  ratchet_encrypt plaintext associated_data = do
    s ← on_first (gets (λ s. s))
    sending_ck ← lift (ok_or s.sending_chain_key no_sending_chain)
    (next_ck, message_key) ← lift (map_err crypto (kdf_ck p sending_ck))
    on_first (modify (λ s. record s { sending_chain_key = some next_ck }))
    let header : MessageHeader = record {
      dh_pub = to_hex p s.dhs.pub_bytes;
      pn = s.previous_sending_chain_length;
      n = s.sending_msg_number;
    }
    on_first (modify (λ s. record s { sending_msg_number = succ_u32 s.sending_msg_number }))
    header_bytes ← lift (encode_header p header)
    let ad = concat (associated_data ∷ header_bytes ∷ [])
    (ciphertext, nonce) ← on_second (seal_message p message_key plaintext ad)
    pure (record { header = header; nonce = to_hex p nonce; ciphertext = to_hex p ciphertext })

  unfoldable pub try_skipped_message_key :
      EncryptedMessage → Bytes → Bytes → Action RatchetState RatchetError (Option Bytes)
  try_skipped_message_key msg header_dh associated_data s =
      let id = skipped_key_id p header_dh msg.header.n in
      elim (lookup id s.skipped_keys) [
        | none ↦ (ok none, s)
        | some mk ↦ elim (open_message p mk msg associated_data) [
          | err e ↦ (err e, s)
          | ok pt ↦ (ok (some pt), forget_skipped_key id s)
        ]
      ]

  -- Step 2 of `ratchet_decrypt_inner`.
  unfoldable pub enter_chain : EncryptedMessage → Bytes → Ratchet (Unit {0})
  enter_chain msg header_dh w =
      if not (is_key w.0.dhr header_dh)
      then (on_first (skip_message_keys msg.header.pn) >> dh_ratchet_step header_dh) w
      else (ok tt, w)

  -- Step 4 of `ratchet_decrypt_inner`.
  unfoldable pub receive_step : EncryptedMessage → Bytes → Ratchet Bytes
  receive_step msg associated_data = do
    s ← on_first (gets (λ s. s))
    recv_ck ← lift (ok_or s.receiving_chain_key no_receiving_chain)
    (next_ck, message_key) ← lift (map_err crypto (kdf_ck p recv_ck))
    on_first (
        modify (λ s. record s {
          receiving_chain_key = some next_ck;
          receiving_msg_number = succ_u32 s.receiving_msg_number;
        }))
    lift (open_message p message_key msg associated_data)

  -- Steps 3 and 4 of `ratchet_decrypt_inner`.
  unfoldable pub receive_next : EncryptedMessage → Bytes → Ratchet Bytes
  receive_next msg associated_data =
      on_first (skip_message_keys msg.header.n) >> receive_step msg associated_data

  -- What follows when no banked key fits.
  unfoldable pub receive_fresh : EncryptedMessage → Bytes → Bytes → Ratchet Bytes
  receive_fresh msg header_dh associated_data w =
      if is_replay w.0 header_dh msg.header.n
      then (err (replay msg.header.n), w)
      else (enter_chain msg header_dh >> receive_next msg associated_data) w

  unfoldable pub use_skipped : EncryptedMessage → Bytes → Bytes → Option Bytes → Ratchet Bytes
  use_skipped msg header_dh associated_data none = receive_fresh msg header_dh associated_data
  use_skipped msg header_dh associated_data (some pt) = pure pt

  unfoldable pub ratchet_decrypt_inner : EncryptedMessage → Bytes → Ratchet Bytes
  ratchet_decrypt_inner msg associated_data = do
    header_dh ← lift (decode_32 p msg.header.dh_pub)
    skipped ← on_first (try_skipped_message_key msg header_dh associated_data)
    use_skipped msg header_dh associated_data skipped

  unfoldable pub ratchet_decrypt : EncryptedMessage → Bytes → Ratchet Bytes
  ratchet_decrypt msg associated_data w =
      roll_back w.0 (ratchet_decrypt_inner msg associated_data w)
