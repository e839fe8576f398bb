-- ===== src/Ratchet/Conversation/ReceiveHeld.antt =====
-- A message that its receiver in src/ratchet.rs holds is decrypted, and the conversation stays led.
use trino_core.Prelude.{
  ◌+◌, ◌≤◌, ◌≡◌, ◌∙◌, Bytes, List, ◌∷◌, length, All, bytes_eq, false, inl, inr, arith,
}
use trino_core.Primitives.{Primitives, Rng, HkdfLaws}
use trino_core.Ratchet.State.{RatchetState}
use trino_core.Ratchet.State.Laws.{IsKey}
use trino_core.Ratchet.Session.Burst.{Sends}
use trino_core.Ratchet.Session.AnyOrder.{chain_key}
use trino_core.Ratchet.Conversation.{Sent, Takes}
use trino_core.Ratchet.Conversation.View.{View, outstanding, Differ, Sees, IsHeld, Delivers}
use trino_core.Ratchet.Conversation.Lead.{
  IsUnseen, IsClean, IsHeldOrNext, next_chain, answering, IsLed,
}
use trino_core.Ratchet.Conversation.Flight.{All-map-both, Takes-length, Takes-All, Takes-AreApart}
use trino_core.Ratchet.Conversation.ReceiveFrame.{
  contains-used, used-contains, contains-own, hearing-IsUnseen, follower-hearing-Leads,
  follower-hearing-Tails, leader-hearing-Leads, leader-hearing-Heads,
}

module _ (p : Primitives) (ad : Bytes) (hkdf : HkdfLaws p) where
  -- Nothing is banked for a key that was never had.
  delivered-IsUnseen :
      (v : View) (t : RatchetState) (r : Rng) (e : Sent) (k : Bytes)
      → IsKey k
      → Sees p ad hkdf v t
      → (d : Delivers p ad hkdf v t r e) → IsUnseen p k t
      → IsUnseen p k d.state
  delivered-IsUnseen v t r e k kk sees d new =
      let differ : bytes_eq v.peer k ≡ false =
        ground (arith, sees.receives.tracks.peer, new.unseen) in
      hearing-IsUnseen p t d.state d.side k new (λ n. d.unbanked k n kk differ (new.unbanked n))

  -- A state stays clean as more keys are used.
  pub IsClean-used :
      (used : List Bytes) (d : Bytes) (t : RatchetState) → IsClean p used t → IsClean p (d ∷ used) t
  IsClean-used used d t clean k kk unused = clean k kk (contains-used k d used unused)

  module _ (leader follower : RatchetState) (to_follower to_leader : List Sent) (used : List Bytes)
      (r : Rng) (e : Sent) (rest : List Sent) (v : View) where
    -- The follower hears a message that it holds.
    pub follower_hears :
        (h : IsLed p ad hkdf leader follower to_follower to_leader used)
        → IsKey leader.dhs.pub_bytes
        → Takes e to_follower rest
        → Sees p ad hkdf v follower
        → v.total ≡ leader.previous_sending_chain_length
        → All (IsHeldOrNext p ad hkdf leader h.start v follower) to_follower
        → outstanding v follower + leader.sending_msg_number ≤ length to_follower
        → (d : Delivers p ad hkdf v follower r e)
        → IsLed p ad hkdf leader d.state rest to_leader (d.state.dhs.pub_bytes ∷ used)
    follower_hears h dk taken sees total waiting count d =
        let t = d.state in
        let own = t.dhs.pub_bytes in
        let size = Takes-length taken in
        let differ = Takes-AreApart p ad taken h.apart.0 in
        let left = Takes-All (IsHeldOrNext p ad hkdf leader h.start v follower) taken waiting in
        record {
          start = h.start;
          leads =
              follower-hearing-Leads p follower t d.side ad hkdf h.start leader h.leads
                (delivered-IsUnseen v follower r e leader.dhs.pub_bytes dk sees d h.leads.new)
                d.sees.receives.tracks.store;
          heads =
              next_chain d.view d.sees (d.total ∙ total)
                (All-map-both (Differ p ad e) (IsHeldOrNext p ad hkdf leader h.start v follower)
                  (IsHeldOrNext p ad hkdf leader h.start d.view t) rest
                  (λ x apart w. elim w [
                    | inl held ↦ inl (d.others x apart held)
                    | inr next ↦ inr next
                  ])
                  differ.0 left.1)
                (omega (arith, d.fewer, size, count));
          tails =
              follower-hearing-Tails p follower t d.side ad hkdf h.start leader to_leader _
                sees.receives.key h.tails;
          apart = (differ.1, h.apart.1);
          clean = (
            λ k kk unused.
                delivered-IsUnseen v follower r e k kk sees d
                  (h.clean.0 k kk (contains-used k own used unused)),
            IsClean-used used own leader h.clean.1,
          );
          counted =
              (used-contains leader.dhs.pub_bytes own used h.counted.0, contains-own own used);
          bounded = (omega (arith, size, h.bounded.0), h.bounded.1);
        }

    -- So does the leader.
    pub leader_hears :
        (h : IsLed p ad hkdf leader follower to_follower to_leader used)
        → Takes e to_leader rest
        → Sees p ad hkdf v leader
        → Sends (chain_key p hkdf 0 v.start) v.peer v.total follower
        → All (IsHeld p ad hkdf v leader) to_leader
        → outstanding v leader ≤ length to_leader
        → (d : Delivers p ad hkdf v leader r e)
        → IsLed p ad hkdf d.state follower to_follower rest (d.state.dhs.pub_bytes ∷ used)
    leader_hears h taken sees sends held count d =
        let t = d.state in
        let own = t.dhs.pub_bytes in
        let size = Takes-length taken in
        let differ = Takes-AreApart p ad taken h.apart.1 in
        let left = Takes-All (IsHeld p ad hkdf v leader) taken held in
        record {
          start = h.start;
          leads =
              leader-hearing-Leads p leader t d.side ad hkdf h.start follower h.leads
                d.sees.receives.tracks.store;
          heads =
              leader-hearing-Heads p leader t d.side ad hkdf h.start follower to_follower h.heads;
          tails =
              answering d.view d.sees (rw (d.start, d.peer, d.total) sends)
                (All-map-both (Differ p ad e) (IsHeld p ad hkdf v leader)
                  (IsHeld p ad hkdf d.view t) rest d.others differ.0 left.1)
                (omega (arith, d.fewer, size, count));
          apart = (h.apart.0, differ.1);
          clean = (
            IsClean-used used own follower h.clean.0,
            λ k kk unused.
                delivered-IsUnseen v leader r e k kk sees d
                  (h.clean.1 k kk (contains-used k own used unused)),
          );
          counted =
              (contains-own own used, used-contains follower.dhs.pub_bytes own used h.counted.1);
          bounded = (h.bounded.0, omega (arith, size, h.bounded.1));
        }
