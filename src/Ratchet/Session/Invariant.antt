-- ===== src/Ratchet/Session/Invariant.antt =====
-- The invariant of a ratchet: no operation breaks it, whatever message arrives.
use trino_core.Prelude.{
  ℕ, zero, suc, ◌-◌, ◌≤◌, Bytes, List, [], ◌∷◌, ◌++◌, length, arith, lookup, ltb, Option, some,
  none, Result, ok, err, length-append, length-drop, Bool-cases, Option-cases, Result-cases, inl,
  inr,
}
use trino_core.Prelude.Steps.{on_first, next}
use trino_core.Primitives.{Primitives}
use trino_core.Ratchet.State.{
  RatchetState, RatchetError, EncryptedMessage, max_retired_dh_keys, kdf_ck, skipped_key_id,
  decode_32, max_skip,
}
use trino_core.Ratchet.Store.{bank_skipped_key, forget_skipped_key}
use trino_core.Ratchet.Store.Bank.{IsFullStore}
use trino_core.Ratchet.Store.Cap.{
  bank_skipped_key-IsStore, bank_skipped_key_frame, forget_skipped_key-IsStore,
}
use trino_core.Ratchet.Session.{
  World, Ratchet, skip_loop, skip_message_keys, retired_after, dh_ratchet_step, ratchet_encrypt,
  try_skipped_message_key, enter_chain, receive_next, receive_fresh, ratchet_decrypt_inner,
  ratchet_decrypt, receive_step, use_skipped, roll_back, is_key, is_replay, saturating_add,
}
use trino_core.Ratchet.Cipher.{open_message}

-- The store is in step and below its cap, and few retired keys are kept.
pub record IsValidParts (m : List (Bytes × Bytes)) (order retired_keys : List Bytes) : Type 0 where
  pub store : IsFullStore m order
  pub retired : length retired_keys ≤ max_retired_dh_keys

abbrev pub IsValid : RatchetState → Type 0
IsValid s = IsValidParts s.skipped_keys s.skipped_key_order s.retired_peer_dh_keys

-- A call that keeps the invariant, by success or by failure.
abbrev Keeps : {A : Type 0} → Ratchet A → Type 0
Keeps m = (w : World) → IsValid w.0 → IsValid (m w).1.0

next-IsValid :
    {A B : Type 0} (x : Result RatchetError A × World) (f : A → Ratchet B)
    → IsValid x.1.0
    → ((a : A) → Keeps (f a))
    → IsValid (next x f).1.0
next-IsValid (ok a, w) f v k = k a w v
next-IsValid (err e, w) f v k = v

retired_after-le :
    (dhr : Option Bytes) (peer : Bytes) (retired : List Bytes)
    → length retired ≤ max_retired_dh_keys
    → length (retired_after dhr peer retired) ≤ max_retired_dh_keys
unfolding retired_after
retired_after-le none peer retired h = h
retired_after-le (some previous) peer retired h =
    ground
      (arith, length-append retired (previous ∷ []), length-drop 1 (retired ++ (previous ∷ [])))

bank-IsValid : (id mk : Bytes) (s : RatchetState) → IsValid s → IsValid (bank_skipped_key id mk s)
bank-IsValid id mk s v = record {
  store = bank_skipped_key-IsStore id mk s v.store;
  retired = rw (bank_skipped_key_frame id mk s) v.retired;
}

forget-IsValid : (id : Bytes) (s : RatchetState) → IsValid s → IsValid (forget_skipped_key id s)
unfolding forget_skipped_key
forget-IsValid id s v = record {
  store = forget_skipped_key-IsStore id s v.store;
  retired = v.retired;
}

module _ (p : Primitives) where
  skip_loop-IsValid :
      (rounds : ℕ) (dhr ck : Bytes) (s : RatchetState)
      → IsValid s
      → IsValid (skip_loop p rounds dhr ck s).1
  unfolding skip_loop
  skip_loop-IsValid zero dhr ck s v = v
  skip_loop-IsValid (suc rounds) dhr ck s v = elim (Result-cases (kdf_ck p ck)) [
    | inl (k, e) ↦
        rw (e, skip_loop)
          (skip_loop-IsValid rounds dhr k.0 _
            (bank-IsValid (skipped_key_id p dhr s.receiving_msg_number) k.1 s v))
    | inr (e, failed) ↦ rw (failed, skip_loop) v
  ]

  skip_message_keys-IsValid :
      (until : ℕ) (s : RatchetState) → IsValid s → IsValid (skip_message_keys p until s).1
  unfolding skip_message_keys
  skip_message_keys-IsValid until s v = elim (Option-cases s.receiving_chain_key) [
    | inl idle ↦ rw (idle, skip_message_keys) v
    | inr (ck, e) ↦ elim (Bool-cases (ltb (saturating_add s.receiving_msg_number max_skip) until)) [
      | inl far ↦ rw (e, far, skip_message_keys) v
      | inr near ↦ elim (Option-cases s.dhr) [
        | inl idle ↦ rw (e, near, idle, skip_message_keys) v
        | inr (dhr, d) ↦
            rw (e, near, d, skip_message_keys)
              (skip_loop-IsValid (until - s.receiving_msg_number) dhr ck s v)
      ]
    ]
  ]

  dh_ratchet_step-IsValid : (peer : Bytes) → Keeps (dh_ratchet_step p peer)
  unfolding dh_ratchet_step
  dh_ratchet_step-IsValid peer w v =
      ground (arith, retired_after-le w.0.dhr peer w.0.retired_peer_dh_keys v.retired)

  try_skipped_message_key-IsValid :
      (msg : EncryptedMessage) (dh ad : Bytes) (s : RatchetState)
      → IsValid s
      → IsValid (try_skipped_message_key p msg dh ad s).1
  unfolding try_skipped_message_key
  try_skipped_message_key-IsValid msg dh ad s v =
      elim (Option-cases (lookup (skipped_key_id p dh msg.header.n) s.skipped_keys)) [
        | inl absent ↦ rw (absent, try_skipped_message_key) v
        | inr (mk, found) ↦ elim (Result-cases (open_message p mk msg ad)) [
          | inl (pt, e) ↦
              rw (found, e, try_skipped_message_key)
                (forget-IsValid (skipped_key_id p dh msg.header.n) s v)
          | inr (e, failed) ↦ rw (found, failed, try_skipped_message_key) v
        ]
      ]

  enter_chain-IsValid : (msg : EncryptedMessage) (dh : Bytes) → Keeps (enter_chain p msg dh)
  unfolding enter_chain
  enter_chain-IsValid msg dh w v = elim (Bool-cases (is_key w.0.dhr dh)) [
    | inl same ↦ rw (same, enter_chain) v
    | inr other ↦
        rw (other, enter_chain)
          (next-IsValid (on_first (skip_message_keys p msg.header.pn) w) (λ _. dh_ratchet_step p dh)
            (skip_message_keys-IsValid msg.header.pn w.0 v) (λ _. dh_ratchet_step-IsValid dh))
  ]

  receive_step-IsValid : (msg : EncryptedMessage) (ad : Bytes) → Keeps (receive_step p msg ad)
  unfolding receive_step
  receive_step-IsValid msg ad w v = elim (Option-cases w.0.receiving_chain_key) [
    | inl idle ↦ rw idle v
    | inr (ck, e) ↦ elim (Result-cases (kdf_ck p ck)) [
      | inl (k, derived) ↦ rw (e, derived) v
      | inr (e', failed) ↦ rw (e, failed) v
    ]
  ]

  receive_next-IsValid : (msg : EncryptedMessage) (ad : Bytes) → Keeps (receive_next p msg ad)
  unfolding receive_next
  receive_next-IsValid msg ad w v =
      next-IsValid (on_first (skip_message_keys p msg.header.n) w) (λ _. receive_step p msg ad)
        (skip_message_keys-IsValid msg.header.n w.0 v) (λ _. receive_step-IsValid msg ad)

  receive_fresh-IsValid :
      (msg : EncryptedMessage) (dh ad : Bytes) → Keeps (receive_fresh p msg dh ad)
  unfolding receive_fresh
  receive_fresh-IsValid msg dh ad w v = elim (Bool-cases (is_replay w.0 dh msg.header.n)) [
    | inl stale ↦ rw (stale, receive_fresh) v
    | inr new ↦
        rw (new, receive_fresh)
          (next-IsValid (enter_chain p msg dh w) (λ _. receive_next p msg ad)
            (enter_chain-IsValid msg dh w v) (λ _. receive_next-IsValid msg ad))
  ]

  use_skipped-IsValid :
      (msg : EncryptedMessage) (dh ad : Bytes) (skipped : Option Bytes)
      → Keeps (use_skipped p msg dh ad skipped)
  unfolding use_skipped
  use_skipped-IsValid msg dh ad none w v = receive_fresh-IsValid msg dh ad w v
  use_skipped-IsValid msg dh ad (some pt) w v = v

  inner-IsValid : (msg : EncryptedMessage) (ad : Bytes) → Keeps (ratchet_decrypt_inner p msg ad)
  unfolding ratchet_decrypt_inner
  inner-IsValid msg ad w v = elim (Result-cases (decode_32 p msg.header.dh_pub)) [
    | inl (dh, e) ↦
        rw (e, ratchet_decrypt_inner)
          (next-IsValid (on_first (try_skipped_message_key p msg dh ad) w) (use_skipped p msg dh ad)
            (try_skipped_message_key-IsValid msg dh ad w.0 v) (use_skipped-IsValid msg dh ad))
    | inr (e, failed) ↦ rw (failed, ratchet_decrypt_inner) v
  ]

  roll_back-IsValid :
      (s : RatchetState) (x : Result RatchetError Bytes × World)
      → IsValid s
      → IsValid x.1.0
      → IsValid (roll_back s x).1.0
  roll_back-IsValid s (ok pt, w) v v' = v'
  roll_back-IsValid s (err e, w) v v' = v

  -- Whatever message arrives, a ratchet that satisfied the invariant satisfies it afterwards.
  pub ratchet_decrypt-IsValid :
      (msg : EncryptedMessage) (ad : Bytes) (w : World)
      → IsValid w.0
      → IsValid (ratchet_decrypt p msg ad w).1.0
  unfolding ratchet_decrypt
  ratchet_decrypt-IsValid msg ad w v =
      roll_back-IsValid w.0 (ratchet_decrypt_inner p msg ad w) v (inner-IsValid msg ad w v)

  pub ratchet_encrypt-IsValid :
      (plaintext ad : Bytes) (w : World)
      → IsValid w.0
      → IsValid (ratchet_encrypt p plaintext ad w).1.0
  unfolding ratchet_encrypt
  ratchet_encrypt-IsValid plaintext ad w v = ground arith
