-- ===== src/Ratchet/Conversation/NewChain.antt =====
-- The first message of a new chain that arrives is decrypted by src/ratchet.rs, and the follower leads.
use trino_core.Prelude.{
  ℕ, ◌+◌, ◌≤◌, ◌≡◌, ◌⊎◌, refl, sym, ap, ◌∙◌, Bytes, length, false, bytes_eq, lookup, arith, some,
  none, ok, inl, inr, contains,
}
use trino_core.Primitives.{Primitives, Rng, HexLaws, HkdfLaws, CurveLaws}
use trino_core.Identity.Keys.{generate_x25519}
use trino_core.Ratchet.State.{RatchetState, EncryptedMessage, skipped_key_id, decode_32}
use trino_core.Ratchet.State.Laws.{IsKey}
use trino_core.Ratchet.Store.Bank.{IsStore}
use trino_core.Ratchet.Session.{
  skip_message_keys, dh_ratchet_step, is_key, retired_after, enter_chain, ratchet_decrypt,
  ratchet_decrypt_inner,
}
use trino_core.Ratchet.Session.Side.{IsReceiving}
use trino_core.Ratchet.Session.Delivery.{enter_chain_same}
use trino_core.Ratchet.Session.Turn.{
  Answers, Answers-IsReceiving, is_replay_fresh, is_replay_ahead, inner_lem,
  ratchet_decrypt-entered,
}
use trino_core.Ratchet.Conversation.{Sent, max_in_flight}
use trino_core.Ratchet.Conversation.View.{View, outstanding, IsOld, Differ, Sees, IsCurrent, IsHeld}
use trino_core.Ratchet.Conversation.Deliver.{IsOld-frame, deliver}
use trino_core.Ratchet.Conversation.Lead.{IsUnseen, IsNext, Leads}
use trino_core.Ratchet.Conversation.Enter.{entry, beginning-Ahead, step_chain}

module _ (p : Primitives) where
  -- Entering a chain: the one before is skipped to its end, then the step is made.
  enter_next :
      (msg : EncryptedMessage) (d : Bytes) (t t0 t1 : RatchetState) (r r1 : Rng)
      → is_key t.dhr d ≡ false
      → skip_message_keys p msg.header.pn t ≡ (ok tt, t0)
      → dh_ratchet_step p d (t0, r) ≡ (ok tt, (t1, r1))
      → enter_chain p msg d (t, r) ≡ (ok tt, (t1, r1))
  unfolding enter_chain
  enter_next msg d t t0 t1 r r1 unseen skipped stepped = rw (unseen, skipped) stepped

  -- A message that enters a chain is decrypted as it would be on it.
  same_inside :
      (msg : EncryptedMessage) (d ad : Bytes) (t t1 : RatchetState) (r r1 : Rng)
      → decode_32 p msg.header.dh_pub ≡ ok d
      → IsUnseen p d t
      → enter_chain p msg d (t, r) ≡ (ok tt, (t1, r1))
      → t1.dhr ≡ some d
      → contains d t1.retired_peer_dh_keys ≡ false
      → t1.receiving_msg_number ≤ msg.header.n
      → lookup (skipped_key_id p d msg.header.n) t1.skipped_keys ≡ none
      → ratchet_decrypt_inner p msg ad (t, r) ≡ ratchet_decrypt_inner p msg ad (t1, r1)
  same_inside msg d ad t t1 r r1 header new entered peer live above unbanked =
      inner_lem p d ad msg t t1 r r1 header (new.unbanked msg.header.n)
        (is_replay_fresh t d msg.header.n new.unseen new.unretired) entered
      ∙ sym (
          inner_lem p d ad msg t1 t1 r1 r1 header unbanked
            (is_replay_ahead t1 d msg.header.n above live) (enter_chain_same p d msg t1 r1 peer))

module _ (p : Primitives) (ad : Bytes) (hkdf : HkdfLaws p) (hex : HexLaws p) (curve : CurveLaws p)
    (leader : RatchetState) (start : Bytes) where
  -- The follower has skipped to the end of the chain before; what waits for it is banked, or on the
  -- leader's chain.
  pub record IsReady (t : RatchetState) (pn : ℕ) (IsWaiting : Sent → Type 0) : Type 0 where
    pub state : RatchetState
    pub skipped : skip_message_keys p pn t ≡ (ok tt, state)
    pub side : IsReceiving t state
    pub store : IsStore state
    pub room : length state.skipped_keys + leader.sending_msg_number ≤ max_in_flight
    pub unbanked :
        (k : Bytes) (n : ℕ)
        → IsKey k
        → IsUnseen p k t
        → lookup (skipped_key_id p k n) state.skipped_keys ≡ none
    pub waits :
        (x : Sent)
        → IsWaiting x
        → IsOld p ad leader.dhs.pub_bytes state x ⊎ IsNext p ad hkdf leader start x

  -- What comes of it.
  pub record Turns (t : RatchetState) (r : Rng) (e : Sent) (room : ℕ) (IsWaiting : Sent → Type 0)
      : Type 0 where
    pub state : RatchetState
    pub rng : Rng
    pub view : View
    pub result : ratchet_decrypt p e.message ad (t, r) ≡ (ok e.text, (state, rng))
    pub sees : Sees p ad hkdf view state
    pub peer : view.peer ≡ leader.dhs.pub_bytes
    pub began : view.start ≡ start
    pub total : view.total ≡ leader.sending_msg_number
    pub answering : Answers p leader state (generate_x25519 p r).0
    pub previous : state.previous_sending_chain_length ≡ t.sending_msg_number
    pub retired :
        state.retired_peer_dh_keys ≡ retired_after t.dhr leader.dhs.pub_bytes t.retired_peer_dh_keys
    pub fewer : outstanding view state + 1 ≤ room
    pub others : (x : Sent) → Differ p ad e x → IsWaiting x → IsHeld p ad hkdf view state x
    pub unbanked :
        (k : Bytes) (n : ℕ)
        → IsKey k
        → IsUnseen p k t
        → bytes_eq leader.dhs.pub_bytes k ≡ false
        → lookup (skipped_key_id p k n) state.skipped_keys ≡ none

  next-IsCurrent :
      (e : Sent) → IsNext p ad hkdf leader start e → IsCurrent p ad hkdf (entry leader start) e
  next-IsCurrent e h = record { from = h.from; below = h.below; new = refl; sealed = h.sealed }

  pub turn :
      (t : RatchetState) (r : Rng) (e : Sent) (IsWaiting : Sent → Type 0)
      → Leads p ad hkdf leader t start
      → IsNext p ad hkdf leader start e
      → IsKey leader.dhs.pub_bytes
      → (ready : IsReady t e.message.header.pn IsWaiting)
      → Turns t r e (length ready.state.skipped_keys + leader.sending_msg_number) IsWaiting
  turn t r e IsWaiting h next dk ready =
      let d = leader.dhs.pub_bytes in
      let t0 = ready.state in
      let ahead =
        beginning-Ahead p ad hkdf hex curve leader start t t0 h ready.side ready.store
          (λ n. ready.unbanked d n dk h.new) in
      let step =
        step_chain p ad hkdf hex curve leader start t t0 r h ahead (omega (arith, ready.room)) in
      let t1 = step.state in
      let at = step.sees.receives.tracks in
      let stored = λ (k : Bytes) (n : ℕ). ap (lookup (skipped_key_id p k n)) step.stores in
      let delivered =
        deliver p ad hkdf hex (entry leader start) t1 step.rng e step.sees
          (inl (next-IsCurrent e next)) (omega (arith, ready.room, ap length step.stores)) in
      let entered =
        enter_next p e.message d t t0 t1 r step.rng h.new.unseen ready.skipped step.stepped in
      let same =
        same_inside p e.message d ad t t1 r step.rng next.sealed.peer h.new entered at.peer at.live
          (omega (arith, step.number))
          (stored d e.message.header.n ∙ ready.unbanked d e.message.header.n dk h.new) in
      let side = delivered.side in
      record {
        state = delivered.state;
        rng = step.rng;
        view = delivered.view;
        result =
            ratchet_decrypt-entered p d ad e.message t t1 r step.rng e.text
              (delivered.state, step.rng) same delivered.result;
        sees = delivered.sees;
        peer = delivered.peer;
        began = delivered.start;
        total = delivered.total;
        answering = Answers-IsReceiving p leader t1 delivered.state _ side step.answering;
        previous =
            ap (λ (u : RatchetState). u.previous_sending_chain_length) side
            ∙ (step.previous ∙ ap (λ (u : RatchetState). u.sending_msg_number) ready.side);
        retired =
            ap (λ (u : RatchetState). u.retired_peer_dh_keys) side
            ∙ (step.retired
                ∙ ap (λ (u : RatchetState). retired_after u.dhr d u.retired_peer_dh_keys)
                    ready.side);
        fewer = omega (arith, delivered.fewer, ap length step.stores);
        others = λ x differ w. delivered.others x differ (elim (ready.waits x w) [
          | inl old ↦
              inr (IsOld-frame p ad hkdf hex d t0 t1 x old (stored x.peer x.message.header.n))
          | inr later ↦ inl (next-IsCurrent x later)
        ]);
        unbanked = λ k n kk new differ.
            delivered.unbanked k n kk differ (stored k n ∙ ready.unbanked k n kk new);
      }
