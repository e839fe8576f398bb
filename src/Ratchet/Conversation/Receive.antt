-- ===== src/Ratchet/Conversation/Receive.antt =====
-- Whatever message arrives first in a conversation over src/ratchet.rs is decrypted.
use trino_core.Prelude.{
  ◌+◌, ◌≤◌, ◌≡◌, ◌⊎◌, refl, sym, ap, ◌∙◌, Bytes, List, ◌∷◌, length, All, some, none, ok, inl, inr,
  arith,
}
use trino_core.Primitives.{Primitives, Rng, HexLaws, HkdfLaws, CurveLaws}
use trino_core.Identity.Keys.{generate_x25519}
use trino_core.Ratchet.State.{RatchetState}
use trino_core.Ratchet.State.Laws.{IsKey}
use trino_core.Ratchet.Session.{skip_message_keys, ratchet_decrypt}
use trino_core.Ratchet.Session.Side.{skip_message_keys-none}
use trino_core.Ratchet.Conversation.{Sent, Takes, IsFresh}
use trino_core.Ratchet.Conversation.View.{View, outstanding, Sees, IsHeld}
use trino_core.Ratchet.Conversation.Deliver.{deliver}
use trino_core.Ratchet.Conversation.Lead.{
  IsNext, IsHeldOrNext, first_chain, next_chain, silent, answering, IsLed,
}
use trino_core.Ratchet.Conversation.Skip.{skip_chain}
use trino_core.Ratchet.Conversation.NewChain.{IsReady, turn}
use trino_core.Ratchet.Conversation.Flight.{Takes-length, Takes-All}
use trino_core.Ratchet.Conversation.ReceiveHeld.{follower_hears, leader_hears}
use trino_core.Ratchet.Conversation.ReceiveNew.{IsX25519-IsKey, turned-IsLed}

module _ (p : Primitives) (ad : Bytes) (hkdf : HkdfLaws p) (hex : HexLaws p)
    (curve : CurveLaws p) where
  -- The receiver decrypts the message, has a receiving chain then, and either end leads.
  pub record Receives (peer receiver : RatchetState) (to_peer rest : List Sent) (used : List Bytes)
      (r : Rng) (e : Sent) : Type 0 where
    pub state : RatchetState
    pub rng : Rng
    pub result : ratchet_decrypt p e.message ad (receiver, r) ≡ (ok e.text, (state, rng))
    pub number : state.sending_msg_number ≤ receiver.sending_msg_number
    pub keys : (state.dhs ≡ receiver.dhs) ⊎ (state.dhs ≡ (generate_x25519 p r).0)
    pub chain_key : Bytes
    pub listening : state.receiving_chain_key ≡ some chain_key
    pub led :
        IsLed p ad hkdf peer state rest to_peer (state.dhs.pub_bytes ∷ used)
        ⊎ IsLed p ad hkdf state peer to_peer rest (state.dhs.pub_bytes ∷ used)

  module _ (leader follower : RatchetState) (to_follower to_leader : List Sent) (used : List Bytes)
      (h : IsLed p ad hkdf leader follower to_follower to_leader used) (r : Rng) (e : Sent)
      (rest : List Sent) where
    leader_key : IsKey leader.dhs.pub_bytes
    leader_key = IsX25519-IsKey p ad hkdf hex curve leader.dhs h.leads.own

    enters :
        (IsWaiting : Sent → Type 0)
        → IsFresh p r leader.dhs.pub_bytes used
        → Takes e to_follower rest
        → All IsWaiting to_follower
        → IsNext p ad hkdf leader h.start e
        → (ready : IsReady p ad hkdf hex curve leader h.start follower e.message.header.pn
            IsWaiting)
        → length ready.state.skipped_keys + leader.sending_msg_number ≤ length to_follower
        → Receives leader follower to_leader rest used r e
    enters IsWaiting fresh taken waiting next ready fits =
        let turned =
          turn p ad hkdf hex curve leader h.start follower r e IsWaiting h.leads next leader_key
            ready in
        record {
          state = turned.state;
          rng = turned.rng;
          result = turned.result;
          number = omega (arith, turned.answering.number);
          keys = inr turned.answering.own_key;
          chain_key = _;
          listening = turned.sees.receives.key;
          led = inr (
              turned-IsLed p ad hkdf hex curve leader follower to_follower to_leader used r e rest _
                IsWaiting h fresh turned taken waiting fits);
        }

    enters_first :
        IsFresh p r leader.dhs.pub_bytes used
        → Takes e to_follower rest
        → follower.receiving_chain_key ≡ none
        → All (IsNext p ad hkdf leader h.start) to_follower
        → length follower.skipped_keys + leader.sending_msg_number ≤ length to_follower
        → Receives leader follower to_leader rest used r e
    enters_first fresh taken none_yet nexts count =
        enters (IsNext p ad hkdf leader h.start) fresh taken nexts
          (Takes-All (IsNext p ad hkdf leader h.start) taken nexts).0
          (record {
            state = follower;
            skipped = skip_message_keys-none p e.message.header.pn follower none_yet;
            side = refl;
            store = h.leads.store;
            room = omega (arith, count, h.bounded.0);
            unbanked = λ k n kk new. new.unbanked n;
            waits = λ x next. inr next;
          })
          count

    module _ (v : View) (sees : Sees p ad hkdf v follower)
        (total : v.total ≡ leader.previous_sending_chain_length)
        (waiting : All (IsHeldOrNext p ad hkdf leader h.start v follower) to_follower)
        (count : outstanding v follower + leader.sending_msg_number ≤ length to_follower) where
      enters_next :
          IsFresh p r leader.dhs.pub_bytes used
          → Takes e to_follower rest
          → IsNext p ad hkdf leader h.start e
          → Receives leader follower to_leader rest used r e
      enters_next fresh taken next =
          let skips =
            skip_chain p ad hkdf hex v follower sees (omega (arith, count, h.bounded.0)) in
          let pn : v.total ≡ e.message.header.pn = total ∙ sym next.previous in
          enters (IsHeldOrNext p ad hkdf leader h.start v follower) fresh taken waiting next
            (record {
              state = skips.state;
              skipped = ap (λ n. skip_message_keys p n follower) (sym pn) ∙ skips.skipped;
              side = skips.side;
              store = skips.store;
              room = omega (arith, skips.count, count, h.bounded.0);
              unbanked = skips.unbanked;
              waits = λ x w. elim w [
                | inl held ↦ inl (skips.old leader.dhs.pub_bytes x h.leads.new held)
                | inr later ↦ inr later
              ];
            })
            (omega (arith, skips.count, count))

      hears_held :
          Takes e to_follower rest
          → IsHeld p ad hkdf v follower e
          → Receives leader follower to_leader rest used r e
      hears_held taken held =
          let d =
            deliver p ad hkdf hex v follower r e sees held (omega (arith, count, h.bounded.0)) in
          record {
            state = d.state;
            rng = r;
            result = d.result;
            number = omega (arith, ap (λ (u : RatchetState). u.sending_msg_number) d.side);
            keys = inl (ap (λ (u : RatchetState). u.dhs) d.side);
            chain_key = _;
            listening = d.sees.receives.key;
            led = inl (
                follower_hears p ad hkdf leader follower to_follower to_leader used r e rest v h
                  leader_key taken sees total waiting count d);
          }

    -- The follower receives.
    pub follower_gets :
        IsFresh p r leader.dhs.pub_bytes used
        → Takes e to_follower rest
        → Receives leader follower to_leader rest used r e
    follower_gets fresh taken = elim h.heads [
      | first_chain none_yet nexts count ↦ enters_first fresh taken none_yet nexts count
      | next_chain v sees total waiting count ↦
          elim (Takes-All (IsHeldOrNext p ad hkdf leader h.start v follower) taken waiting).0 [
            | inl held ↦ hears_held v sees total waiting count taken held
            | inr next ↦ enters_next v sees total waiting count fresh taken next
          ]
    ]

    -- The leader receives.
    pub leader_gets : Takes e to_leader rest → Receives follower leader to_follower rest used r e
    leader_gets taken = elim h.tails [
      | silent mute deaf empty none_yet unbanked ↦
          absurd (omega (arith, Takes-length taken, ap length empty))
      | answering v sees sends held count ↦
          let d =
            deliver p ad hkdf hex v leader r e sees
              (Takes-All (IsHeld p ad hkdf v leader) taken held).0
              (omega (arith, count, h.bounded.1)) in
          record {
            state = d.state;
            rng = r;
            result = d.result;
            number = omega (arith, ap (λ (u : RatchetState). u.sending_msg_number) d.side);
            keys = inl (ap (λ (u : RatchetState). u.dhs) d.side);
            chain_key = _;
            listening = d.sees.receives.key;
            led = inr (
                leader_hears p ad hkdf leader follower to_follower to_leader used r e rest v h taken
                  sees sends held count d);
          }
    ]
