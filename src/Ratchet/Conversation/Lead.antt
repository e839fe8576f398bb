-- ===== src/Ratchet/Conversation/Lead.antt =====
-- The two ends of a conversation over src/ratchet.rs: one leads with a key that the other follows.
use trino_core.Prelude.{
  ℕ, ◌+◌, ◌≤◌, ◌<◌, ◌^◌, ◌≡◌, ◌⊎◌, Bytes, List, [], ◌∷◌, length, All, true, false, contains, lookup,
  some, none, ok,
}
use trino_core.Primitives.{Primitives, HkdfLaws}
use trino_core.Identity.Keys.Laws.{IsX25519}
use trino_core.Ratchet.State.{RatchetState, kdf_rk, skipped_key_id}
use trino_core.Ratchet.State.Laws.{IsKey}
use trino_core.Ratchet.Store.Bank.{IsStore}
use trino_core.Ratchet.Session.{is_key}
use trino_core.Ratchet.Session.Delivery.{IsSealed}
use trino_core.Ratchet.Session.Burst.{Sends}
use trino_core.Ratchet.Session.AnyOrder.{chain_key, message_key}
use trino_core.Ratchet.Conversation.{Sent, max_in_flight}
use trino_core.Ratchet.Conversation.View.{View, outstanding, Differ, Sees, IsHeld, chain_keys}

-- The receiver never had the peer key `k`.
pub record IsUnseen (p : Primitives) (k : Bytes) (t : RatchetState) : Type 0 where
  pub unseen : is_key t.dhr k ≡ false
  pub unretired : contains k t.retired_peer_dh_keys ≡ false
  pub unbanked : (n : ℕ) → lookup (skipped_key_id p k n) t.skipped_keys ≡ none

-- No key but those that were used is known to the receiver.
abbrev pub IsClean : Primitives → List Bytes → RatchetState → Type 0
IsClean p used t = (k : Bytes) → IsKey k → contains k used ≡ false → IsUnseen p k t

module _ (p : Primitives) (ad : Bytes) where
  -- No two messages have the same id.
  abbrev pub AreApart : List Sent → Type 0
  AreApart [] = Unit
  AreApart (e ∷ es) = All (Differ p ad e) es × AreApart es

  module _ (hkdf : HkdfLaws p) where
    -- A message of the chain that the leader is on, which starts from the chain key `start`.
    pub record IsNext (leader : RatchetState) (start : Bytes) (e : Sent) : Type 0 where
      pub from : leader.dhs.pub_bytes ≡ e.peer
      pub previous : e.message.header.pn ≡ leader.previous_sending_chain_length
      pub below : e.message.header.n < leader.sending_msg_number
      pub sealed : IsSealed p leader.dhs.pub_bytes ad (message_key p hkdf 0 start) e.message e.text

    abbrev pub IsHeldOrNext : RatchetState → Bytes → View → RatchetState → Sent → Type 0
    IsHeldOrNext leader start v t e = IsHeld p ad hkdf v t e ⊎ IsNext leader start e

    -- The way to the follower, who has received nothing yet, or is on the leader's chain before.
    pub data Heads (leader follower : RatchetState) (start : Bytes) (es : List Sent) : Type 0 where
      first_chain :
          follower.receiving_chain_key ≡ none
          → All (IsNext leader start) es
          → length follower.skipped_keys + leader.sending_msg_number ≤ length es
          → Heads leader follower start es
      next_chain :
          (v : View)
          → Sees p ad hkdf v follower
          → v.total ≡ leader.previous_sending_chain_length
          → All (IsHeldOrNext leader start v follower) es
          → outstanding v follower + leader.sending_msg_number ≤ length es
          → Heads leader follower start es

    -- The way back to the leader, on which a follower that has received nothing cannot send, or the leader is on the
    -- follower's chain.
    pub data Tails (follower leader : RatchetState) (es : List Sent) : Type 0 where
      silent :
          follower.sending_chain_key ≡ none
          → follower.receiving_chain_key ≡ none
          → es ≡ []
          → leader.receiving_chain_key ≡ none
          → length leader.skipped_keys ≡ 0
          → Tails follower leader es
      answering :
          (v : View)
          → Sees p ad hkdf v leader
          → Sends (chain_keys p ad hkdf v) v.peer v.total follower
          → All (IsHeld p ad hkdf v leader) es
          → outstanding v leader ≤ length es
          → Tails follower leader es

    -- What the leader and the follower have of each other.
    pub record Leads (leader follower : RatchetState) (start : Bytes) : Type 0 where
      pub own : IsX25519 p leader.dhs
      pub theirs : IsX25519 p follower.dhs
      pub live :
          p.was_contributory (p.diffie_hellman leader.dhs.priv_bytes follower.dhs.pub_bytes) ≡ true
      pub agreed :
          kdf_rk p follower.root_key (p.diffie_hellman leader.dhs.priv_bytes follower.dhs.pub_bytes)
          ≡ ok (leader.root_key, start)
      pub sends :
          Sends (chain_key p hkdf 0 start) leader.dhs.pub_bytes leader.sending_msg_number leader
      pub small : leader.sending_msg_number < 2 ^ 32
      pub peer : leader.dhr ≡ some follower.dhs.pub_bytes
      pub new : IsUnseen p leader.dhs.pub_bytes follower
      pub store : IsStore follower
      pub leader_store : IsStore leader

    -- The invariant of a conversation, seen from its leader.
    pub record IsLed (leader follower : RatchetState) (to_follower to_leader : List Sent)
        (used : List Bytes) : Type 0 where
      pub start : Bytes
      pub leads : Leads leader follower start
      pub heads : Heads leader follower start to_follower
      pub tails : Tails follower leader to_leader
      pub apart : AreApart to_follower × AreApart to_leader
      pub clean : IsClean p used follower × IsClean p used leader
      pub counted :
          (contains leader.dhs.pub_bytes used ≡ true)
          × (contains follower.dhs.pub_bytes used ≡ true)
      pub bounded : (length to_follower ≤ max_in_flight) × (length to_leader ≤ max_in_flight)
