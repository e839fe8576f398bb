-- ===== src/Ratchet/Conversation.antt =====
-- Two sessions of src/ratchet.rs that talk to each other over a network that delays, reorders and
-- loses messages, and to which others add theirs.
pub mod Frame
pub mod View
pub mod Deliver
pub mod Lead
pub mod Skip
pub mod Enter
pub mod NewChain
pub mod Flight
pub mod SendFrame
pub mod SendParts
pub mod Send
pub mod ReceiveFrame
pub mod ReceiveHeld
pub mod ReceiveNew
pub mod Receive
pub mod Begin
pub mod Invariant
pub mod Arrival
use trino_core.Prelude.{
  ℕ, ◌+◌, ◌≤◌, ◌<◌, ◌^◌, ◌≡◌, Bytes, AreBytes, length, List, [], ◌∷◌, true, false, Result, ok, err,
  contains,
}
use trino_core.Primitives.{Primitives, Rng}
use trino_core.Identity.Keys.{KeyPair, generate_x25519}
use trino_core.Identity.Keys.Laws.{IsX25519}
use trino_core.Ratchet.State.{
  RatchetState, RatchetError, EncryptedMessage, init_initiator, init_responder,
}
use trino_core.Ratchet.Session.{ratchet_encrypt, ratchet_decrypt}

-- A message on its way: what was encrypted, and under which key of its sender.
pub record Sent : Type 0 where
  pub message : EncryptedMessage
  pub text : Bytes
  pub peer : Bytes

-- Both sessions, what is on its way to each, and the public keys that were used so far. A message
-- that is lost stays on its way.
pub record System : Type 0 where
  pub a : RatchetState
  pub b : RatchetState
  pub to_a : List Sent
  pub to_b : List Sent
  pub used : List Bytes

-- The network hands over one of the messages.
pub data Takes (e : Sent) : List Sent → List Sent → Type 0 where
  here : {es : List Sent} → Takes e (e ∷ es) es
  there : (x : Sent) {xs ys : List Sent} → Takes e xs ys → Takes e (x ∷ xs) (x ∷ ys)

-- How many messages may be on their way in one direction, lost ones included.
abbrev pub max_in_flight : ℕ
max_in_flight = 1000

module _ (p : Primitives) where
  -- The next key pair that is drawn has a public key that was not used, and the peer's key does not
  -- cancel it.
  pub record IsFresh (r : Rng) (peer_pub : Bytes) (used : List Bytes) : Type 0 where
    pub unused : contains (generate_x25519 p r).0.pub_bytes used ≡ false
    pub live :
        p.was_contributory (p.diffie_hellman (generate_x25519 p r).0.priv_bytes peer_pub) ≡ true

  -- What a conversation comes to: either side sends, messages are handed over in any order, and
  -- whatever else is handed over and refused.
  pub data Reaches (ad : Bytes) : System → Type 0 where
    begins :
        (master : Bytes) (spk : KeyPair) (r r' : Rng) (s : RatchetState)
        → IsX25519 p spk
        → p.was_contributory (p.diffie_hellman (generate_x25519 p r).0.priv_bytes spk.pub_bytes)
          ≡ true
        → init_initiator p master spk.pub_bytes r ≡ (ok s, r')
        → Reaches ad (record {
          a = s;
          b = init_responder master spk;
          to_a = [];
          to_b = [];
          used = s.dhs.pub_bytes ∷ spk.pub_bytes ∷ [];
        })
    swaps :
        (y : System)
        → Reaches ad y
        → Reaches ad (record { a = y.b; b = y.a; to_a = y.to_b; to_b = y.to_a; used = y.used })
    sends :
        (y : System) (text : Bytes) (r r' : Rng) (s : RatchetState) (msg : EncryptedMessage)
        → Reaches ad y
        → AreBytes text
        → length text ≤ 2 ^ 36
        → length y.to_b < max_in_flight
        → y.a.sending_msg_number + 1 < 2 ^ 32
        → ratchet_encrypt p text ad (y.a, r) ≡ (ok msg, (s, r'))
        → Reaches ad (record y {
          a = s;
          to_b = record { message = msg; text = text; peer = y.a.dhs.pub_bytes } ∷ y.to_b;
        })
    receives :
        (y : System) (e : Sent) (rest : List Sent) (r r' : Rng) (t : RatchetState)
        (result : Result RatchetError Bytes)
        → Reaches ad y
        → Takes e y.to_b rest
        → IsFresh r y.a.dhs.pub_bytes y.used
        → ratchet_decrypt p e.message ad (y.b, r) ≡ (result, (t, r'))
        → Reaches ad (record y { b = t; to_b = rest; used = t.dhs.pub_bytes ∷ y.used })
    refuses :
        (y : System) (msg : EncryptedMessage) (other_ad : Bytes) (r r' : Rng) (t : RatchetState)
        (error : RatchetError)
        → Reaches ad y
        → ratchet_decrypt p msg other_ad (y.b, r) ≡ (err error, (t, r'))
        → Reaches ad (record y { b = t })
