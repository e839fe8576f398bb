-- ===== src/Ratchet/Conversation/SendParts.antt =====
-- Sending keeps a conversation over src/ratchet.rs led, whichever end sends.
use trino_core.Prelude.{
  ℕ, suc, ◌≤◌, ◌<◌, ◌^◌, ◌≡◌, refl, sym, ◌∙◌, Bytes, List, ◌∷◌, All, Option, bytes_eq_iff, bytes_eq,
  false, some, inl, inr, arith,
}
use trino_core.Primitives.{Primitives, HexLaws, HkdfLaws}
use trino_core.Ratchet.State.{RatchetState, EncryptedMessage}
use trino_core.Ratchet.State.Laws.{IsKey}
use trino_core.Ratchet.Session.AnyOrder.{chain_key}
use trino_core.Ratchet.Conversation.{Sent}
use trino_core.Ratchet.Conversation.Frame.{skipped_key_id-differ}
use trino_core.Ratchet.Conversation.View.{View, Differ, IsHeld}
use trino_core.Ratchet.Conversation.Lead.{
  IsUnseen, IsNext, IsHeldOrNext, Heads, first_chain, next_chain, Tails, silent, answering, Leads,
}
use trino_core.Ratchet.Conversation.Flight.{All-map, Differ-below, Differ-old}
use trino_core.Ratchet.Conversation.SendFrame.{saying, IsUnseen-saying, IsHeld-saying, Sees-saying}

module _ (p : Primitives) (ad : Bytes) (hkdf : HkdfLaws p) (hex : HexLaws p) where
  -- The message that is sent, on its way.
  abbrev pub posted : EncryptedMessage → Bytes → RatchetState → Sent
  posted msg text s = record { message = msg; text = text; peer = s.dhs.pub_bytes }

  module _ (leader follower : RatchetState) (start : Bytes) (key : Option Bytes) (n : ℕ) where
    IsNext-saying :
        (x : Sent)
        → leader.sending_msg_number ≤ n
        → IsNext p ad hkdf leader start x
        → IsNext p ad hkdf (saying key n leader) start x
    IsNext-saying x more h = record {
      from = h.from;
      previous = h.previous;
      below = omega (arith, h.below);
      sealed = h.sealed;
    }

    -- The leader says one thing more.
    pub leader-Heads :
        (e : Sent) (es : List Sent)
        → n ≡ suc leader.sending_msg_number
        → IsNext p ad hkdf (saying key n leader) start e
        → Heads p ad hkdf leader follower start es
        → Heads p ad hkdf (saying key n leader) follower start (e ∷ es)
    leader-Heads e es up new (first_chain none_yet nexts count) =
        first_chain none_yet (new, All-map _ _ es (λ x h. IsNext-saying x (omega arith) h) nexts)
          (omega (arith, count))
    leader-Heads e es up new (next_chain v sees total waiting count) =
        next_chain v sees total
          (
            inr new,
            All-map (IsHeldOrNext p ad hkdf leader start v follower)
                (IsHeldOrNext p ad hkdf (saying key n leader) start v follower) es
                (λ x h. elim h [
                  | inl held ↦ inl held
                  | inr next ↦ inr (IsNext-saying x (omega arith) next)
                ])
                waiting,
          )
          (omega (arith, count))

    -- The way back is as it was.
    pub leader-Tails :
        (es : List Sent)
        → Tails p ad hkdf follower leader es
        → Tails p ad hkdf follower (saying key n leader) es
    leader-Tails es (silent mute deaf empty none_yet unbanked) =
        silent mute deaf empty none_yet unbanked
    leader-Tails es (answering v sees sends held count) =
        answering v (Sees-saying p key n ad hkdf v leader sees) sends
          (All-map _ _ es (λ x h. IsHeld-saying p key n ad hkdf v leader x h) held) count

    -- The leader keeps its lead.
    pub leader-Leads :
        n < 2 ^ 32
        → key ≡ some (chain_key p hkdf 0 start n)
        → Leads p ad hkdf leader follower start
        → Leads p ad hkdf (saying key n leader) follower start
    leader-Leads small derived h = record {
      own = h.own;
      theirs = h.theirs;
      live = h.live;
      agreed = h.agreed;
      sends = record { key = derived; number = refl; own = refl };
      small = small;
      peer = h.peer;
      new = h.new;
      store = h.store;
      leader_store = h.leader_store;
    }

    -- The follower says something: the way to it is as it was.
    pub follower-Heads :
        (es : List Sent)
        → Heads p ad hkdf leader follower start es
        → Heads p ad hkdf leader (saying key n follower) start es
    follower-Heads es (first_chain none_yet nexts count) = first_chain none_yet nexts count
    follower-Heads es (next_chain v sees total waiting count) =
        next_chain v (Sees-saying p key n ad hkdf v follower sees) total
          (All-map (IsHeldOrNext p ad hkdf leader start v follower)
            (IsHeldOrNext p ad hkdf leader start v (saying key n follower)) es
            (λ x h. elim h [
              | inl held ↦ inl (IsHeld-saying p key n ad hkdf v follower x held)
              | inr next ↦ inr next
            ])
            waiting)
          count

    -- It still follows.
    pub follower-Leads :
        Leads p ad hkdf leader follower start → Leads p ad hkdf leader (saying key n follower) start
    follower-Leads h = record {
      own = h.own;
      theirs = h.theirs;
      live = h.live;
      agreed = h.agreed;
      sends = h.sends;
      small = h.small;
      peer = h.peer;
      new = IsUnseen-saying p key n leader.dhs.pub_bytes follower h.new;
      store = h.store;
      leader_store = h.leader_store;
    }

  -- What the leader says next differs from all that is on its way.
  Differ-next :
      (leader follower : RatchetState) (start : Bytes) (e x : Sent)
      → IsKey leader.dhs.pub_bytes
      → leader.dhs.pub_bytes ≡ e.peer
      → leader.sending_msg_number ≤ e.message.header.n
      → IsNext p ad hkdf leader start x
      → Differ p ad e x
  Differ-next leader follower start e x dk from above h =
      Differ-below p ad hex e x (rw (sym from) dk) (sym from ∙ h.from) (omega (arith, h.below))

  -- Nor is it a message that the receiver holds.
  pub Differ-held :
      (v : View) (t : RatchetState) (e x : Sent)
      → IsKey v.peer
      → IsKey e.peer
      → t.dhr ≡ some v.peer
      → IsUnseen p e.peer t
      → IsHeld p ad hkdf v t x
      → Differ p ad e x
  Differ-held v t e x vk dk peer new (inr o) = Differ-old p ad hex v.peer t e x dk new o
  Differ-held v t e x vk dk peer new (inl c) =
      let differ : bytes_eq e.peer v.peer ≡ false =
        ground (arith, peer, new.unseen, bytes_eq_iff e.peer v.peer, bytes_eq_iff v.peer e.peer) in
      rw (sym c.from) (
        skipped_key_id-differ p hex e.peer v.peer e.message.header.n x.message.header.n dk vk
          differ)

  -- So the messages to the follower stay apart.
  pub leader-AreApart :
      (leader follower : RatchetState) (start : Bytes) (e : Sent) (es : List Sent)
      → IsKey leader.dhs.pub_bytes
      → leader.dhs.pub_bytes ≡ e.peer
      → leader.sending_msg_number ≤ e.message.header.n
      → IsUnseen p e.peer follower
      → Heads p ad hkdf leader follower start es
      → All (Differ p ad e) es
  leader-AreApart leader follower start e es dk from above new (first_chain none_yet nexts count) =
      All-map _ _ es (λ x h. Differ-next leader follower start e x dk from above h) nexts
  leader-AreApart leader follower start e es dk from above new
        (next_chain v sees total waiting count) =
      All-map (IsHeldOrNext p ad hkdf leader start v follower) (Differ p ad e) es
        (λ x h. elim h [
          | inl held ↦
              Differ-held v follower e x sees.sender (rw (sym from) dk) sees.receives.tracks.peer
                new held
          | inr next ↦ Differ-next leader follower start e x dk from above next
        ])
        waiting
