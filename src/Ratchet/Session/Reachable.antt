-- ===== src/Ratchet/Session/Reachable.antt =====
-- The states that a session goes through, from either way to begin it.
use trino_core.Prelude.{◌≡◌, sym, ap, Bytes, [], arith, Result, ok}
use trino_core.Primitives.{Primitives, Rng}
use trino_core.Identity.Keys.{KeyPair}
use trino_core.Ratchet.State.{
  RatchetState, RatchetError, EncryptedMessage, init_initiator, init_responder,
}
use trino_core.Ratchet.Session.{World, ratchet_encrypt, ratchet_decrypt}
use trino_core.Ratchet.Session.Invariant.{
  IsValid, IsValidParts, ratchet_encrypt-IsValid, ratchet_decrypt-IsValid,
}

-- One call of the public interface, on any input and with any outcome.
pub data Steps (p : Primitives) : World → World → Type 0 where
  encrypts :
      (plaintext ad : Bytes) (w w' : World) (result : Result RatchetError EncryptedMessage)
      → ratchet_encrypt p plaintext ad w ≡ (result, w')
      → Steps p w w'
  decrypts :
      (msg : EncryptedMessage) (ad : Bytes) (w w' : World) (result : Result RatchetError Bytes)
      → ratchet_decrypt p msg ad w ≡ (result, w')
      → Steps p w w'

-- What a session can come to.
pub data Reachable (p : Primitives) : World → Type 0 where
  responder :
      (master_secret : Bytes) (spk : KeyPair) (r : Rng)
      → Reachable p (init_responder master_secret spk, r)
  initiator :
      (master_secret spk_pub : Bytes) (s : RatchetState) (r r' : Rng)
      → init_initiator p master_secret spk_pub r ≡ (ok s, r')
      → Reachable p (s, r')
  follows : (w w' : World) → Reachable p w → Steps p w w' → Reachable p w'

empty-IsValid : IsValidParts [] [] []
empty-IsValid = record {
  store = record {
    loaded = record { distinct_keys = tt; distinct_order = tt; known = λ k h. h };
    ordered = λ k h. h;
    bounded = omega arith;
  };
  retired = omega arith;
}

module _ (p : Primitives) where
  init_responder-IsValid :
      (master_secret : Bytes) (spk : KeyPair) → IsValid (init_responder master_secret spk)
  unfolding init_responder
  init_responder-IsValid master_secret spk = empty-IsValid

  init_initiator-IsValid :
      (master_secret spk_pub : Bytes) (s : RatchetState) (r r' : Rng)
      → init_initiator p master_secret spk_pub r ≡ (ok s, r')
      → IsValid s
  unfolding init_initiator
  init_initiator-IsValid master_secret spk_pub s r r' e = ground (arith, empty-IsValid)

  step-IsValid : (w w' : World) → Steps p w w' → IsValid w.0 → IsValid w'.0
  step-IsValid _ _ (encrypts plaintext ad w w' result e) v =
      rw (sym (ap (λ x. x.1) e)) (ratchet_encrypt-IsValid p plaintext ad w v)
  step-IsValid _ _ (decrypts msg ad w w' result e) v =
      rw (sym (ap (λ x. x.1) e)) (ratchet_decrypt-IsValid p msg ad w v)

  -- In every state that a session can come to, from either way to begin and by any calls with
  -- any outcome, the map of banked keys and the order list name the same keys, each once, no
  -- more than the cap, and at most eight retired keys are kept.
  pub Reachable-IsValid : (w : World) → Reachable p w → IsValid w.0
  Reachable-IsValid _ (responder master_secret spk r) = init_responder-IsValid master_secret spk
  Reachable-IsValid _ (initiator master_secret spk_pub s r r' e) =
      init_initiator-IsValid master_secret spk_pub s r r' e
  Reachable-IsValid _ (follows w w' before step) =
      step-IsValid w w' step (Reachable-IsValid w before)
