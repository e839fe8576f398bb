-- ===== src/Ratchet/Conversation/ReceiveFrame.antt =====
-- Receiving on a chain of src/ratchet.rs leaves the sending side and the keys as they are.
use trino_core.Prelude.{
  ℕ, ◌≡◌, refl, sym, ap, ◌∙◌, Bytes, List, ◌∷◌, false, true, some, none, inl, inr, arith, lookup,
  contains, bytes_eq_refl,
}
use mathlib.Core.Path.{subst}
use trino_core.Primitives.{Primitives, HkdfLaws}
use trino_core.Ratchet.State.{RatchetState, skipped_key_id}
use trino_core.Ratchet.Store.Bank.{IsStore}
use trino_core.Ratchet.Session.{is_key}
use trino_core.Ratchet.Session.Side.{IsReceiving}
use trino_core.Ratchet.Session.Burst.{Sends}
use trino_core.Ratchet.Session.AnyOrder.{chain_key}
use trino_core.Ratchet.Conversation.{Sent}
use trino_core.Ratchet.Conversation.Lead.{
  IsUnseen, IsNext, IsHeldOrNext, Heads, first_chain, next_chain, Tails, silent, answering, Leads,
}
use trino_core.Ratchet.Conversation.Flight.{All-map}

-- Used keys stay used.
pub contains-used :
    (k d : Bytes) (used : List Bytes) → contains k (d ∷ used) ≡ false → contains k used ≡ false
unfolding contains
contains-used k d used h = ground arith

pub used-contains :
    (k d : Bytes) (used : List Bytes) → contains k used ≡ true → contains k (d ∷ used) ≡ true
unfolding contains
used-contains k d used h = ground arith

pub contains-own : (d : Bytes) (used : List Bytes) → contains d (d ∷ used) ≡ true
unfolding contains
contains-own d used = rw (bytes_eq_refl d)

module _ (p : Primitives) (t t' : RatchetState) (side : IsReceiving t t') where
  pub hearing-IsUnseen :
      (k : Bytes)
      → IsUnseen p k t
      → ((n : ℕ) → lookup (skipped_key_id p k n) t'.skipped_keys ≡ none)
      → IsUnseen p k t'
  hearing-IsUnseen k h unbanked = record {
    unseen = ap (λ (u : RatchetState). is_key u.dhr k) side ∙ h.unseen;
    unretired = ap (λ (u : RatchetState). contains k u.retired_peer_dh_keys) side ∙ h.unretired;
    unbanked = unbanked;
  }

  pub hearing-Sends : (ck : ℕ → Bytes) (d : Bytes) (n : ℕ) → Sends ck d n t → Sends ck d n t'
  hearing-Sends ck d n h = record {
    key = ap (λ (u : RatchetState). u.sending_chain_key) side ∙ h.key;
    number = ap (λ (u : RatchetState). u.sending_msg_number) side ∙ h.number;
    own = ap (λ (u : RatchetState). u.dhs.pub_bytes) side ∙ h.own;
  }

  module _ (ad : Bytes) (hkdf : HkdfLaws p) (start : Bytes) where
    -- The follower hears.
    pub follower-hearing-Leads :
        (leader : RatchetState)
        → Leads p ad hkdf leader t start
        → IsUnseen p leader.dhs.pub_bytes t'
        → IsStore t'
        → Leads p ad hkdf leader t' start
    follower-hearing-Leads leader h new store =
        let dhs = ap (λ (u : RatchetState). u.dhs) side in
        let root = ap (λ (u : RatchetState). u.root_key) side in
        record {
          own = h.own;
          theirs = rw dhs h.theirs;
          live = rw dhs h.live;
          agreed = rw (dhs, root) h.agreed;
          sends = h.sends;
          small = h.small;
          peer = rw dhs h.peer;
          new = new;
          store = store;
          leader_store = h.leader_store;
        }

    pub follower-hearing-Tails :
        (leader : RatchetState) (es : List Sent) (c : Bytes)
        → t.receiving_chain_key ≡ some c
        → Tails p ad hkdf t leader es
        → Tails p ad hkdf t' leader es
    follower-hearing-Tails leader es c found (silent mute deaf empty none_yet unbanked) =
        absurd (ground (arith, found, deaf))
    follower-hearing-Tails leader es c found (answering v sees sends held count) =
        answering v sees (hearing-Sends (chain_key p hkdf 0 v.start) v.peer v.total sends) held
          count

    -- The leader hears.
    pub leader-hearing-Leads :
        (follower : RatchetState)
        → Leads p ad hkdf t follower start
        → IsStore t'
        → Leads p ad hkdf t' follower start
    leader-hearing-Leads follower h store =
        let dhs = ap (λ (u : RatchetState). u.dhs) side in
        let root = ap (λ (u : RatchetState). u.root_key) side in
        let number = ap (λ (u : RatchetState). u.sending_msg_number) side in
        let ck = chain_key p hkdf 0 start in
        record {
          own = rw dhs h.own;
          theirs = h.theirs;
          live = rw dhs h.live;
          agreed = rw (dhs, root) h.agreed;
          sends = record {
            key =
                ap (λ (u : RatchetState). u.sending_chain_key) side
                ∙ (h.sends.key ∙ ap (λ n. some (ck n)) (sym number));
            number = refl;
            own = refl;
          };
          small = rw number h.small;
          peer = ap (λ (u : RatchetState). u.dhr) side ∙ h.peer;
          new = rw dhs h.new;
          store = h.store;
          leader_store = store;
        }

    hearing-IsNext : (x : Sent) → IsNext p ad hkdf t start x → IsNext p ad hkdf t' start x
    hearing-IsNext x h =
        subst (λ u. IsNext p ad hkdf u start x) (sym side)
          (record { from = h.from; previous = h.previous; below = h.below; sealed = h.sealed })

    pub leader-hearing-Heads :
        (follower : RatchetState) (es : List Sent)
        → Heads p ad hkdf t follower start es
        → Heads p ad hkdf t' follower start es
    leader-hearing-Heads follower es (first_chain none_yet nexts count) =
        let number = ap (λ (u : RatchetState). u.sending_msg_number) side in
        first_chain none_yet (All-map _ _ es hearing-IsNext nexts) (omega (arith, number, count))
    leader-hearing-Heads follower es (next_chain v sees total waiting count) =
        let number = ap (λ (u : RatchetState). u.sending_msg_number) side in
        let previous = ap (λ (u : RatchetState). u.previous_sending_chain_length) side in
        next_chain v sees (total ∙ sym previous)
          (All-map (IsHeldOrNext p ad hkdf t start v follower)
            (IsHeldOrNext p ad hkdf t' start v follower) es
            (λ x h. elim h [ inl held ↦ inl held | inr next ↦ inr (hearing-IsNext x next) ])
            waiting)
          (omega (arith, number, count))
