-- ===== src/Ratchet/Conversation/Send.antt =====
-- Sending in a conversation over src/ratchet.rs: it succeeds, and the conversation stays led.
use trino_core.Prelude.{
  suc, ◌+◌, ◌≤◌, ◌<◌, ◌^◌, ◌≡◌, refl, sym, ◌∙◌, Bytes, List, ◌∷◌, length, All, some, none, err, inl,
  inr, arith,
}
use mathlib.Core.Path.{subst}
use trino_core.Primitives.{Primitives, Rng, HexLaws, HkdfLaws}
use trino_core.Ratchet.State.{RatchetState, no_sending_chain, EncryptedMessage}
use trino_core.Ratchet.State.Laws.{IsKey}
use trino_core.Ratchet.Session.{ratchet_encrypt}
use trino_core.Ratchet.Session.Burst.{Sends}
use trino_core.Ratchet.Session.AnyOrder.{chain_key}
use trino_core.Ratchet.Conversation.{Sent, max_in_flight}
use trino_core.Ratchet.Conversation.Frame.{skipped_key_id-differ}
use trino_core.Ratchet.Conversation.View.{View, outstanding, Differ, Sees, IsCurrent, IsHeld}
use trino_core.Ratchet.Conversation.Lead.{IsNext, answering, IsLed}
use trino_core.Ratchet.Conversation.Flight.{All-map, Differ-below}
use trino_core.Ratchet.Conversation.SendFrame.{
  saying, IsClean-saying, longer, longer-Sees, longer-IsHeld, Says,
}
use trino_core.Ratchet.Conversation.SendParts.{
  posted, leader-Heads, leader-Tails, leader-Leads, follower-Heads, follower-Leads, leader-AreApart,
}

module _ (p : Primitives) (ad : Bytes) (hkdf : HkdfLaws p) (hex : HexLaws p) where
  -- A message of the follower's chain that is not yet on it differs from all that the leader holds.
  Differ-answer :
      (v : View) (t : RatchetState) (e x : Sent)
      → IsKey v.peer
      → e.peer ≡ v.peer
      → v.total ≤ e.message.header.n
      → IsHeld p ad hkdf v t x
      → Differ p ad e x
  Differ-answer v t e x vk own above (inl c) =
      Differ-below p ad hex e x (rw own vk) (own ∙ c.from) (omega (arith, c.below))
  Differ-answer v t e x vk own above (inr o) = rw own (
      skipped_key_id-differ p hex v.peer x.peer e.message.header.n x.message.header.n vk o.sender
        o.other)

  -- Without a sending chain nothing is sent.
  pub no_chain :
      (text : Bytes) (s : RatchetState) (r : Rng)
      → s.sending_chain_key ≡ none
      → ratchet_encrypt p text ad (s, r) ≡ (err no_sending_chain, (s, r))
  unfolding ratchet_encrypt
  no_chain text s r mute = rw mute

module _ (p : Primitives) (ad : Bytes) (hkdf : HkdfLaws p) (hex : HexLaws p)
    (leader follower : RatchetState) (to_follower to_leader : List Sent) (used : List Bytes)
    (msg : EncryptedMessage) (text : Bytes) (s : RatchetState) where
  -- The message that the leader sends is the next of its chain.
  pub leader_speaks :
      (h : IsLed p ad hkdf leader follower to_follower to_leader used)
      → IsKey leader.dhs.pub_bytes
      → leader.sending_msg_number + 1 < 2 ^ 32
      → length to_follower < max_in_flight
      → Says p ad hkdf h.start leader.dhs.pub_bytes text leader.sending_msg_number leader s msg
      → IsLed p ad hkdf s follower
          (posted p ad hkdf hex msg text leader ∷ to_follower)
          to_leader
          used
  leader_speaks h dk small room m =
      let n = suc leader.sending_msg_number in
      let key = some (chain_key p hkdf 0 h.start n) in
      let e = posted p ad hkdf hex msg text leader in
      let next : IsNext p ad hkdf (saying key n leader) h.start e = record {
        from = refl;
        previous = m.previous;
        below = omega (arith, m.number);
        sealed = m.sealed;
      } in
      subst (λ u. IsLed p ad hkdf u follower (e ∷ to_follower) to_leader used) (sym m.said)
        (record {
          start = h.start;
          leads =
              leader-Leads p ad hkdf hex leader follower h.start key n (omega arith) refl h.leads;
          heads =
              leader-Heads p ad hkdf hex leader follower h.start key n e to_follower refl next
                h.heads;
          tails = leader-Tails p ad hkdf hex leader follower h.start key n to_leader h.tails;
          apart = (
            (
              leader-AreApart p ad hkdf hex leader follower h.start e to_follower dk refl
                  (omega (arith, m.number)) h.leads.new h.heads,
              h.apart.0,
            ),
            h.apart.1,
          );
          clean = (h.clean.0, IsClean-saying p key n used leader h.clean.1);
          counted = h.counted;
          bounded = (omega arith, h.bounded.1);
        })

  -- The message that the follower sends is the next of the chain that the leader is on.
  pub follower_speaks :
      (h : IsLed p ad hkdf leader follower to_follower to_leader used)
      → (v : View) → Sees p ad hkdf v leader
      → Sends (chain_key p hkdf 0 v.start) v.peer v.total follower
      → All (IsHeld p ad hkdf v leader) to_leader
      → outstanding v leader ≤ length to_leader
      → suc v.total < 2 ^ 32
      → length to_leader < max_in_flight
      → Says p ad hkdf v.start v.peer text v.total follower s msg
      → IsLed p ad hkdf leader s to_follower
          (posted p ad hkdf hex msg text follower ∷ to_leader)
          used
  follower_speaks h v sees sends held count small room m =
      let n = suc v.total in
      let key = some (chain_key p hkdf 0 v.start n) in
      let e = posted p ad hkdf hex msg text follower in
      let new : IsCurrent p ad hkdf (longer v) e = record {
        from = sym sends.own;
        below = omega (arith, m.number);
        new = sees.receives.tracks.undone msg.header.n (omega (arith, m.number, sees.reached));
        sealed = m.sealed;
      } in
      subst (λ u. IsLed p ad hkdf leader u to_follower (e ∷ to_leader) used) (sym m.said)
        (record {
          start = h.start;
          leads = follower-Leads p ad hkdf hex leader follower h.start key n h.leads;
          heads = follower-Heads p ad hkdf hex leader follower h.start key n to_follower h.heads;
          tails =
              answering (longer v) (longer-Sees p ad hkdf v leader sees small (omega arith))
                (record { key = refl; number = refl; own = sends.own })
                (inl new, All-map _ _ to_leader (λ x k. longer-IsHeld p ad hkdf v leader x k) held)
                (omega (arith, count, sees.reached));
          apart = (
            h.apart.0,
            (
              All-map _ (Differ p ad e) to_leader
                  (λ x k.
                    Differ-answer p ad hkdf hex v leader e x sees.sender sends.own
                      (omega (arith, m.number)) k)
                  held,
              h.apart.1,
            ),
          );
          clean = (IsClean-saying p key n used follower h.clean.0, h.clean.1);
          counted = h.counted;
          bounded = (h.bounded.0, omega arith);
        })
