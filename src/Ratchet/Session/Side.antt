-- ===== src/Ratchet/Session/Side.antt =====
-- What receiving and sending leave alone: each changes its own side of a ratchet.
use trino_core.Prelude.{
  ok, ℕ, zero, suc, ◌-◌, ◌<◌, ◌^◌, ◌≡◌, refl, ap, ◌∙◌, Bytes, some, none, ltb, false, Result-cases,
  inl, inr, arith,
}
use trino_core.Primitives.{Primitives}
use trino_core.Ratchet.State.{RatchetState, max_skip, kdf_ck, skipped_key_id}
use trino_core.Ratchet.Store.{bank_skipped_key}
use trino_core.Ratchet.Store.Cap.{bank_skipped_key_frame}
use trino_core.Ratchet.Session.{skip_loop, skip_message_keys, succ_u32, saturating_add}

-- The state `t` with the receiving side of `u`.
abbrev pub with_received : RatchetState → RatchetState → RatchetState
with_received t u = record t {
  receiving_chain_key = u.receiving_chain_key;
  receiving_msg_number = u.receiving_msg_number;
  skipped_keys = u.skipped_keys;
  skipped_key_order = u.skipped_key_order;
}

-- From `t` to `t'` only the receiving side changed.
abbrev pub IsReceiving : RatchetState → RatchetState → Type 0
IsReceiving t t' = t' ≡ with_received t t'

pub IsReceiving-trans :
    (t t' t'' : RatchetState) → IsReceiving t t' → IsReceiving t' t'' → IsReceiving t t''
IsReceiving-trans t t' t'' h k = k ∙ ap (λ u. with_received u t'') h

-- From `s` to `s'` only the chain key and the counter of the sending side changed.
abbrev pub IsSending : RatchetState → RatchetState → Type 0
IsSending s s' = s' ≡ record s {
  sending_chain_key = s'.sending_chain_key;
  sending_msg_number = s'.sending_msg_number;
}

pub IsSending-trans :
    (s s' s'' : RatchetState) → IsSending s s' → IsSending s' s'' → IsSending s s''
IsSending-trans s s' s'' h k =
    k
    ∙ ap {A = RatchetState}
        (λ u. record u {
          sending_chain_key = s''.sending_chain_key;
          sending_msg_number = s''.sending_msg_number;
        })
        h

module _ (p : Primitives) where
  bank-IsReceiving : (id mk : Bytes) (t : RatchetState) → IsReceiving t (bank_skipped_key id mk t)
  bank-IsReceiving id mk t = rw (bank_skipped_key_frame id mk t)

  skip_loop-IsReceiving :
      (rounds : ℕ) (dhr ck : Bytes) (t : RatchetState)
      → IsReceiving t (skip_loop p rounds dhr ck t).1
  unfolding skip_loop
  skip_loop-IsReceiving zero dhr ck t = refl
  skip_loop-IsReceiving (suc rounds) dhr ck t = elim (Result-cases (kdf_ck p ck)) [
    | inl ((next_ck, mk), derived) ↦
        let banked = bank_skipped_key (skipped_key_id p dhr t.receiving_msg_number) mk t in
        let t' = record banked { receiving_msg_number = succ_u32 banked.receiving_msg_number } in
        rw (derived, skip_loop)
          (IsReceiving-trans t t' _
            (ap {A = RatchetState}
              (λ u. record u { receiving_msg_number = succ_u32 banked.receiving_msg_number })
              (bank-IsReceiving (skipped_key_id p dhr t.receiving_msg_number) mk t))
            (skip_loop-IsReceiving rounds dhr next_ck t'))
    | inr (e, failed) ↦ rw (failed, skip_loop) refl
  ]

  -- With a chain and within the limit, skipping is the loop.
  pub skip_message_keys-eq-skip_loop :
      (until : ℕ) (ck d : Bytes) (t : RatchetState)
      → t.receiving_chain_key ≡ some ck
      → t.dhr ≡ some d
      → ltb (saturating_add t.receiving_msg_number max_skip) until ≡ false
      → skip_message_keys p until t ≡ skip_loop p (until - t.receiving_msg_number) d ck t
  unfolding skip_message_keys
  skip_message_keys-eq-skip_loop until ck d t found peer near = ground arith

  -- Without a receiving chain, or at the number itself, nothing is skipped.
  pub skip_message_keys-none :
      (until : ℕ) (t : RatchetState)
      → t.receiving_chain_key ≡ none
      → skip_message_keys p until t ≡ (ok tt, t)
  unfolding skip_message_keys
  skip_message_keys-none until t none_yet = ground arith

  pub skip_message_keys_at :
      (until : ℕ) (ck d : Bytes) (t : RatchetState)
      → t.receiving_chain_key ≡ some ck
      → t.dhr ≡ some d
      → t.receiving_msg_number ≡ until
      → until < 2 ^ 32
      → skip_message_keys p until t ≡ (ok tt, record t { receiving_chain_key = some ck })
  unfolding skip_loop
  skip_message_keys_at until ck d t found peer at small =
      let near : ltb (saturating_add t.receiving_msg_number max_skip) until ≡ false =
        ground arith in
      let rounds : until - t.receiving_msg_number ≡ 0 = omega (arith, at) in
      skip_message_keys-eq-skip_loop until ck d t found peer near
      ∙ ap (λ k. skip_loop p k d ck t) rounds

  -- Skipping ahead, within the limit.
  pub skip_message_keys-IsReceiving :
      (until : ℕ) (ck d : Bytes) (t : RatchetState)
      → t.receiving_chain_key ≡ some ck
      → t.dhr ≡ some d
      → ltb (saturating_add t.receiving_msg_number max_skip) until ≡ false
      → IsReceiving t (skip_message_keys p until t).1
  skip_message_keys-IsReceiving until ck d t found peer near =
      rw (skip_message_keys-eq-skip_loop until ck d t found peer near)
        (skip_loop-IsReceiving (until - t.receiving_msg_number) d ck t)
