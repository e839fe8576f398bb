-- ===== src/Ratchet/Conversation/Enter.antt =====
-- A message under a new key of the peer: the DH step of src/ratchet.rs turns the follower into the
-- leader.
use trino_core.Prelude.{
  ℕ, ◌+◌, ◌≤◌, ◌≡◌, refl, ap, ◌∙◌, Bytes, length, false, lookup, arith, some, none, ok, contains,
}
use mathlib.Core.Path.{subst}
use trino_core.Primitives.{Primitives, Rng, HexLaws, HkdfLaws, CurveLaws}
use trino_core.Identity.Keys.{generate_x25519}
use trino_core.Ratchet.State.{RatchetState, skipped_key_id, max_skipped_keys}
use trino_core.Ratchet.Store.Bank.{IsStore}
use trino_core.Ratchet.Session.{dh_ratchet_step, is_key, retired_after}
use trino_core.Ratchet.Session.Side.{IsReceiving}
use trino_core.Ratchet.Session.Chain.{Receives}
use trino_core.Ratchet.Session.AnyOrder.{InStep-Receives, chain_key, message_key}
use trino_core.Ratchet.Session.Turn.{Ahead, Answers, dh_ratchet_step-InStep}
use trino_core.Ratchet.Conversation.View.{View, Sees}
use trino_core.Ratchet.Conversation.Lead.{Leads}

-- The view of the leader's chain when the follower enters it.
abbrev pub entry : RatchetState → Bytes → View
entry leader start = record {
  peer = leader.dhs.pub_bytes;
  start = start;
  total = leader.sending_msg_number;
  done = λ n. false;
}

module _ (p : Primitives) (ad : Bytes) (hkdf : HkdfLaws p) (hex : HexLaws p) (curve : CurveLaws p)
    (leader : RatchetState) (start : Bytes) where
  -- The leader as it was when it began its chain.
  abbrev pub beginning : RatchetState
  beginning = record leader { sending_chain_key = some start; sending_msg_number = 0 }

  -- Its first chain key is still to be found by the follower.
  pub beginning-Ahead :
      (t t0 : RatchetState)
      → Leads p ad hkdf leader t start
      → IsReceiving t t0
      → IsStore t0
      → ((n : ℕ) → lookup (skipped_key_id p leader.dhs.pub_bytes n) t0.skipped_keys ≡ none)
      → Ahead p beginning t0
  beginning-Ahead t t0 h side store unbanked =
      let dhs = ap (λ (u : RatchetState). u.dhs) side in
      let root = ap (λ (u : RatchetState). u.root_key) side in
      record {
        own = h.own;
        theirs = rw dhs h.theirs;
        live = rw dhs h.live;
        chain_key = start;
        agreed = rw (dhs, root) h.agreed;
        sending = refl;
        number = refl;
        unseen = ap (λ (u : RatchetState). is_key u.dhr leader.dhs.pub_bytes) side ∙ h.new.unseen;
        unretired =
            ap (λ (u : RatchetState). contains leader.dhs.pub_bytes u.retired_peer_dh_keys) side
            ∙ h.new.unretired;
        unbanked = unbanked;
        store = store;
      }

  -- What the step does.
  pub record Steps (t0 : RatchetState) (r : Rng) : Type 0 where
    pub state : RatchetState
    pub rng : Rng
    pub stepped : dh_ratchet_step p leader.dhs.pub_bytes (t0, r) ≡ (ok tt, (state, rng))
    pub sees : Sees p ad hkdf (entry leader start) state
    pub answering : Answers p leader state (generate_x25519 p r).0
    pub stores : state.skipped_keys ≡ t0.skipped_keys
    pub number : state.receiving_msg_number ≡ 0
    pub previous : state.previous_sending_chain_length ≡ t0.sending_msg_number
    pub retired :
        state.retired_peer_dh_keys
        ≡ retired_after t0.dhr leader.dhs.pub_bytes t0.retired_peer_dh_keys

  -- The step enters the leader's chain, with room for all its messages.
  pub step_chain :
      (t t0 : RatchetState) (r : Rng)
      → Leads p ad hkdf leader t start
      → Ahead p beginning t0
      → length t0.skipped_keys + leader.sending_msg_number ≤ max_skipped_keys
      → Steps t0 r
  step_chain t t0 r h ahead room =
      let last = leader.sending_msg_number in
      let d = leader.dhs.pub_bytes in
      let (t1, r1, stepped, i, answering, stores, previous, retired) =
        dh_ratchet_step-InStep p hkdf curve beginning t0 r ahead in
      let same : i.chain_key ≡ start = ground (arith, i.sending) in
      let arrived = InStep-Receives p hkdf beginning t1 last i (omega (arith, ap length stores)) in
      record {
        state = t1;
        rng = r1;
        stepped = stepped;
        sees = record {
          sender = i.own_key;
          small = h.small;
          reached = omega (arith, i.number);
          receives =
              subst
                (λ c.
                  Receives p d 0 last (chain_key p hkdf 0 c) (message_key p hkdf 0 c) (λ n. false)
                    t1)
                same arrived;
        };
        answering = record {
          own_key = answering.own_key;
          peer = answering.peer;
          number = answering.number;
          chain_key = answering.chain_key;
          sending = answering.sending;
          agreed = answering.agreed;
        };
        stores = stores;
        number = i.number;
        previous = previous;
        retired = retired;
      }
