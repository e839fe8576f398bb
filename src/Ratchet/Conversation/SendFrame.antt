-- ===== src/Ratchet/Conversation/SendFrame.antt =====
-- Sending in src/ratchet.rs leaves all that was received as it is.
use trino_core.Prelude.{
  ℕ, suc, ◌+◌, ◌≤◌, ◌<◌, ◌^◌, ◌≡◌, refl, ◌∙◌, Bytes, List, AreBytes, length, Option, some, ok, inl,
  inr, arith,
}
use trino_core.Primitives.{Primitives, Rng, HexLaws, HkdfLaws, AeadLaws}
use trino_core.Ratchet.State.{RatchetState, EncryptedMessage}
use trino_core.Ratchet.State.Laws.{IsKey}
use trino_core.Ratchet.Session.{ratchet_encrypt}
use trino_core.Ratchet.Session.Delivery.{IsSealed}
use trino_core.Ratchet.Session.Burst.{Sends, encrypt_next}
use trino_core.Ratchet.Session.AnyOrder.{chain_key, message_key, iterate-IsChain}
use trino_core.Ratchet.Conversation.{Sent, max_in_flight}
use trino_core.Ratchet.Conversation.View.{View, outstanding, Sees, IsOld, IsHeld}
use trino_core.Ratchet.Conversation.Lead.{IsUnseen, IsClean}

-- The state with another chain key and counter for sending.
abbrev pub saying : Option Bytes → ℕ → RatchetState → RatchetState
saying key n t = record t { sending_chain_key = key; sending_msg_number = n }

module _ (p : Primitives) (key : Option Bytes) (n : ℕ) where
  pub IsUnseen-saying :
      (k : Bytes) (t : RatchetState) → IsUnseen p k t → IsUnseen p k (saying key n t)
  IsUnseen-saying k t h = record {
    unseen = h.unseen;
    unretired = h.unretired;
    unbanked = h.unbanked;
  }

  pub IsClean-saying :
      (used : List Bytes) (t : RatchetState) → IsClean p used t → IsClean p used (saying key n t)
  IsClean-saying used t h k kk unused = IsUnseen-saying k t (h k kk unused)

  module _ (ad : Bytes) (hkdf : HkdfLaws p) where
    IsOld-saying :
        (peer : Bytes) (t : RatchetState) (x : Sent)
        → IsOld p ad peer t x
        → IsOld p ad peer (saying key n t) x
    IsOld-saying peer t x h = record {
      sender = h.sender;
      other = h.other;
      header = h.header;
      key = h.key;
      banked = h.banked;
      opens = h.opens;
    }

    pub IsHeld-saying :
        (v : View) (t : RatchetState) (x : Sent)
        → IsHeld p ad hkdf v t x
        → IsHeld p ad hkdf v (saying key n t) x
    IsHeld-saying v t x (inl c) = inl c
    IsHeld-saying v t x (inr o) = inr (IsOld-saying v.peer t x o)

    pub Sees-saying :
        (v : View) (t : RatchetState) → Sees p ad hkdf v t → Sees p ad hkdf v (saying key n t)
    Sees-saying v t s =
        let h = s.receives.tracks in
        record {
          sender = s.sender;
          small = s.small;
          reached = s.reached;
          receives = record {
            tracks = record {
              peer = h.peer;
              live = h.live;
              begun = h.begun;
              store = h.store;
              banked = h.banked;
              fresh = h.fresh;
              undone = h.undone;
              room = h.room;
            };
            key = s.receives.key;
          };
        }

-- One more message on the chain that a receiver is on.
abbrev pub longer : View → View
longer v = record v { total = suc v.total }

module _ (p : Primitives) (ad : Bytes) (hkdf : HkdfLaws p) where
  pub longer-Sees :
      (v : View) (t : RatchetState)
      → Sees p ad hkdf v t
      → suc v.total < 2 ^ 32
      → outstanding v t < max_in_flight
      → Sees p ad hkdf (longer v) t
  longer-Sees v t s small room =
      let h = s.receives.tracks in
      record {
        sender = s.sender;
        small = small;
        reached = omega (arith, s.reached);
        receives = record {
          tracks = record {
            peer = h.peer;
            live = h.live;
            begun = h.begun;
            store = h.store;
            banked = h.banked;
            fresh = h.fresh;
            undone = h.undone;
            room = omega arith;
          };
          key = s.receives.key;
        };
      }

  pub longer-IsHeld :
      (v : View) (t : RatchetState) (x : Sent)
      → IsHeld p ad hkdf v t x
      → IsHeld p ad hkdf (longer v) t x
  longer-IsHeld v t x (inl c) =
      inl (record { from = c.from; below = omega (arith, c.below); new = c.new; sealed = c.sealed })
  longer-IsHeld v t x (inr o) = inr o

  -- What is known of a message that was encrypted on the chain from `start`.
  pub record Says (start d text : Bytes) (n : ℕ) (s s' : RatchetState) (msg : EncryptedMessage)
      : Type 0 where
    pub said : s' ≡ saying (some (chain_key p hkdf 0 start (suc n))) (suc n) s
    pub number : msg.header.n ≡ n
    pub previous : msg.header.pn ≡ s.previous_sending_chain_length
    pub sealed : IsSealed p d ad (message_key p hkdf 0 start) msg text

  module _ (hex : HexLaws p) (aead : AeadLaws p) (short : length ad + 40 ≤ 2 ^ 36) where
    -- Sending succeeds on a chain.
    pub says :
        (start d text : Bytes) (n : ℕ) (s : RatchetState) (r : Rng)
        → IsKey d
        → Sends (chain_key p hkdf 0 start) d n s
        → n + 1 < 2 ^ 32
        → AreBytes text
        → length text ≤ 2 ^ 36
        → (msg : EncryptedMessage) × (s' : RatchetState) × (r' : Rng) × (ratchet_encrypt p text ad
              (s, r)
            ≡ (ok msg, (s', r')))
          × Says start d text n s s' msg
    says start d text n s r dk h small bytes fits =
        let (msg, s', r', e, number, sealed, next, side, previous) =
          encrypt_next p hex aead d dk 0 (n + 1) (chain_key p hkdf 0 start)
            (message_key p hkdf 0 start) (iterate-IsChain p hkdf 0 start) (omega arith) ad short
            text n s r h (omega arith) (omega arith) bytes fits in
        (
          msg,
          s',
          r',
          e,
          record {
            said = side ∙ rw (next.key, next.number) refl;
            number = number;
            previous = previous;
            sealed = sealed;
          },
        )
