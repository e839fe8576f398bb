-- ===== src/Ratchet/Session/Delivery.antt =====
-- Delivery on one chain: what a sender encrypts is decrypted by the receiver, in any order.
use trino_core.Prelude.{
  ℕ, suc, ◌+◌, ◌≤◌, ◌<◌, ◌^◌, ◌≡◌, refl, ap, ◌∙◌, Bytes, Bool, true, false, bytes_eq_refl, lookup,
  arith, some, ok, ltb, Bool-cases, inl, inr,
}
use trino_core.Primitives.{Primitives, Rng, HexLaws}
use trino_core.Ratchet.State.{RatchetState, EncryptedMessage, max_skip, skipped_key_id, decode_32}
use trino_core.Ratchet.State.Laws.{IsKey}
use trino_core.Ratchet.Store.{forget_skipped_key}
use trino_core.Ratchet.Cipher.{open_message}
use trino_core.Ratchet.Session.{
  skip_message_keys, try_skipped_message_key, is_replay, enter_chain, receive_step, receive_next,
  receive_fresh, use_skipped, ratchet_decrypt_inner, ratchet_decrypt, succ_u32, is_key,
}
use trino_core.Ratchet.Session.Side.{IsReceiving, skip_message_keys-IsReceiving}
use trino_core.Ratchet.Session.Chain.{
  IsChain, Receives, received, skip_message_keys-Receives, step-Tracks, forget-Receives,
}

-- `msg` is a message of the chain of the peer key `d`, and its text is `pt`.
pub record IsSealed (p : Primitives) (d ad : Bytes) (mk : ℕ → Bytes) (msg : EncryptedMessage)
    (pt : Bytes) : Type 0 where
  pub peer : decode_32 p msg.header.dh_pub ≡ ok d
  pub opens : open_message p (mk msg.header.n) msg ad ≡ ok pt

-- A message of the chain that is current makes no step.
pub enter_chain_same :
    (p : Primitives) (d : Bytes) (msg : EncryptedMessage) (t : RatchetState) (r : Rng)
    → t.dhr ≡ some d
    → enter_chain p msg d (t, r) ≡ (ok tt, (t, r))
unfolding enter_chain
enter_chain_same p d msg t r peer =
    let same : is_key t.dhr d ≡ true = rw (peer, bytes_eq_refl d) in rw same

module _ (p : Primitives) (hex : HexLaws p) (d : Bytes) (dk : IsKey d) (first last : ℕ)
    (ck mk : ℕ → Bytes) (chain : IsChain p first ck mk) (small : last < 2 ^ 32) (ad : Bytes) where
  -- A message that comes late.
  pub decrypt_late :
      (msg : EncryptedMessage) (pt : Bytes) (done : ℕ → Bool) (t : RatchetState) (r : Rng)
      → IsSealed p d ad mk msg pt
      → Receives p d first last ck mk done t
      → done msg.header.n ≡ false
      → first ≤ msg.header.n
      → msg.header.n < t.receiving_msg_number
      → ratchet_decrypt_inner p msg ad (t, r)
        ≡ (ok pt, (forget_skipped_key (skipped_key_id p d msg.header.n) t, r))
  unfolding ratchet_decrypt_inner try_skipped_message_key use_skipped
  decrypt_late msg pt done t r m h new begun below =
      let found : lookup (skipped_key_id p d msg.header.n) t.skipped_keys ≡ some (mk msg.header.n) =
        ground (arith, h.tracks.banked msg.header.n begun) in
      rw (m.peer, found, try_skipped_message_key, m.opens) refl

  not_replay :
      (n : ℕ) (done : ℕ → Bool) (t : RatchetState)
      → Receives p d first last ck mk done t
      → t.receiving_msg_number ≤ n
      → is_replay t d n ≡ false
  unfolding is_replay
  not_replay n done t h above = rw (h.tracks.live, h.tracks.peer) (ground arith)

  -- Once skipped to its number, the message is decrypted by the next key of the chain.
  receive_step_lem :
      (msg : EncryptedMessage) (pt : Bytes) (done : ℕ → Bool) (t : RatchetState) (r : Rng)
      → IsSealed p d ad mk msg pt
      → Receives p d first last ck mk done t
      → t.receiving_msg_number ≡ msg.header.n
      → msg.header.n < last
      → receive_step p msg ad (t, r) ≡ (
        ok pt,
        (
          record t {
            receiving_chain_key = some (ck (suc msg.header.n));
            receiving_msg_number = suc msg.header.n;
          },
          r,
        ),
      )
  unfolding receive_step
  receive_step_lem msg pt done t r m h at below =
      let n = msg.header.n in
      let key : t.receiving_chain_key ≡ some (ck n) = h.key ∙ ap (λ k. some (ck k)) at in
      let up : succ_u32 t.receiving_msg_number ≡ suc n = omega (arith, at) in
      let begun : first ≤ n = omega (arith, h.tracks.begun, at) in
      rw (key, chain.derives n begun, up, m.opens)

  receive_fresh_lem :
      (msg : EncryptedMessage) (t t' : RatchetState) (r : Rng)
      → t.dhr ≡ some d
      → is_replay t d msg.header.n ≡ false
      → skip_message_keys p msg.header.n t ≡ (ok tt, t')
      → receive_fresh p msg d ad (t, r) ≡ receive_step p msg ad (t', r)
  unfolding receive_fresh receive_next
  receive_fresh_lem msg t t' r peer new skipped =
      rw (new, enter_chain_same p d msg t r peer, skipped)

  -- A message that comes in order, or ahead of others.
  pub decrypt_ahead :
      (msg : EncryptedMessage) (pt : Bytes) (done : ℕ → Bool) (t : RatchetState) (r : Rng)
      → IsSealed p d ad mk msg pt
      → Receives p d first last ck mk done t
      → t.receiving_msg_number ≤ msg.header.n
      → msg.header.n ≤ t.receiving_msg_number + max_skip
      → msg.header.n < last
      → (t' : RatchetState) × (ratchet_decrypt_inner p msg ad (t, r) ≡ (ok pt, (t', r)))
        × Receives p d first last ck mk (received msg.header.n done) t'
        × IsReceiving t t'
        × (t'.skipped_keys ≡ (skip_message_keys p msg.header.n t).1.skipped_keys)
        × (t'.receiving_msg_number ≡ suc msg.header.n)
  unfolding ratchet_decrypt_inner try_skipped_message_key use_skipped
  decrypt_ahead msg pt done t r m h above near below =
      let n = msg.header.n in
      let (fine, h', at) =
        skip_message_keys-Receives p hex d dk first last ck mk chain small n done t h above near
          (omega arith) in
      let t' = (skip_message_keys p n t).1 in
      let skipped : skip_message_keys p n t ≡ (ok tt, t') = ap (λ x. (x, t')) fine in
      let stepped =
        receive_fresh_lem msg t t' r h.tracks.peer (not_replay n done t h above) skipped
        ∙ receive_step_lem msg pt done t' r m h' at below in
      (
        record t' { receiving_chain_key = some (ck (suc n)); receiving_msg_number = suc n },
        rw (m.peer, h.tracks.fresh n above, try_skipped_message_key) stepped,
        step-Tracks p hex d dk first last ck mk chain small n done t' h' at below,
        ap {A = RatchetState}
            (λ u. record u {
              receiving_chain_key = some (ck (suc n));
              receiving_msg_number = suc n;
            })
            (skip_message_keys-IsReceiving p n (ck t.receiving_msg_number) d t h.key h.tracks.peer
              (ground arith)),
        refl,
        refl,
      )

  -- A message of the chain that was not received before is decrypted, whether it comes late, in
  -- order or ahead of others, counts as received from then on, and changes the receiving side only.
  pub decrypt_next :
      (msg : EncryptedMessage) (pt : Bytes) (done : ℕ → Bool) (t : RatchetState) (r : Rng)
      → IsSealed p d ad mk msg pt
      → Receives p d first last ck mk done t
      → done msg.header.n ≡ false
      → first ≤ msg.header.n
      → msg.header.n ≤ t.receiving_msg_number + max_skip
      → msg.header.n < last
      → (t' : RatchetState) × (ratchet_decrypt p msg ad (t, r) ≡ (ok pt, (t', r)))
        × Receives p d first last ck mk (received msg.header.n done) t'
        × IsReceiving t t'
  unfolding ratchet_decrypt forget_skipped_key
  decrypt_next msg pt done t r m h new begun near below =
      elim (Bool-cases (ltb msg.header.n t.receiving_msg_number)) [
        | inl late ↦ (
          forget_skipped_key (skipped_key_id p d msg.header.n) t,
          rw (decrypt_late msg pt done t r m h new begun (ground arith)),
          forget-Receives p hex d dk first last ck mk chain small msg.header.n done t h
              (ground arith),
          refl,
        )
        | inr ahead ↦
            let (t', e, h', side, _, _) =
              decrypt_ahead msg pt done t r m h (ground arith) near below in
            (t', rw e, h', side)
      ]
