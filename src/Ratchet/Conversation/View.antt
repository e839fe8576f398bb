-- ===== src/Ratchet/Conversation/View.antt =====
-- What a receiver of src/ratchet.rs knows of its peer's chain, and the messages it can decrypt.
use trino_core.Prelude.{
  ℕ, ◌+◌, ◌-◌, ◌≤◌, ◌<◌, ◌^◌, ◌≡◌, ◌⊎◌, refl, ap, ◌∙◌, Bytes, length, Bool, false, bytes_eq, lookup,
  arith, some, none, ok, ltb, Bool-cases, inl, inr, lookup-remove, length-remove,
  contains-keys_of_some,
}
use trino_core.Primitives.{Primitives, Rng, HexLaws, HkdfLaws}
use trino_core.Ratchet.State.{RatchetState, max_skip, skipped_key_id, decode_32}
use trino_core.Ratchet.State.Laws.{IsKey}
use trino_core.Ratchet.Store.{forget_skipped_key}
use trino_core.Ratchet.Store.Bank.{IsStore}
use trino_core.Ratchet.Cipher.{open_message}
use trino_core.Ratchet.Session.{
  try_skipped_message_key, use_skipped, ratchet_decrypt_inner, ratchet_decrypt,
}
use trino_core.Ratchet.Session.Side.{IsReceiving}
use trino_core.Ratchet.Session.Chain.{Receives, received, forget-Receives}
use trino_core.Ratchet.Session.Delivery.{IsSealed, decrypt_late, decrypt_ahead}
use trino_core.Ratchet.Session.AnyOrder.{chain_key, message_key, iterate-IsChain}
use trino_core.Ratchet.Conversation.{Sent, max_in_flight}
use trino_core.Ratchet.Conversation.Frame.{
  KeepsOthers, skipped_key_id-differ, skip_message_keys_frame,
}

-- The chain that a receiver is on: the peer's key, the first chain key, how many messages the peer
-- has encrypted on it, and which of them were received.
pub record View : Type 0 where
  pub peer : Bytes
  pub start : Bytes
  pub total : ℕ
  pub done : ℕ → Bool

-- The view once the message `n` is received.
abbrev pub after : ℕ → View → View
after n v = record v { done = received n v.done }

-- The keys that are banked and those that are still to come.
abbrev pub outstanding : View → RatchetState → ℕ
outstanding v t = length t.skipped_keys + (v.total - t.receiving_msg_number)

module _ (p : Primitives) (ad : Bytes) where
  -- An earlier chain's message, whose key is banked.
  pub record IsOld (peer : Bytes) (t : RatchetState) (e : Sent) : Type 0 where
    pub sender : IsKey e.peer
    pub other : bytes_eq peer e.peer ≡ false
    pub header : decode_32 p e.message.header.dh_pub ≡ ok e.peer
    pub key : Bytes
    pub banked : lookup (skipped_key_id p e.peer e.message.header.n) t.skipped_keys ≡ some key
    pub opens : open_message p key e.message ad ≡ ok e.text

  -- The ids of two messages differ.
  abbrev pub Differ : Sent → Sent → Type 0
  Differ e x =
      bytes_eq (skipped_key_id p e.peer e.message.header.n)
        (skipped_key_id p x.peer x.message.header.n)
      ≡ false

  -- It is decrypted with that key.
  pub use_banked :
      (t : RatchetState) (r : Rng) (peer : Bytes) (e : Sent)
      → IsOld peer t e
      → ratchet_decrypt p e.message ad (t, r)
        ≡ (ok e.text, (forget_skipped_key (skipped_key_id p e.peer e.message.header.n) t, r))
  unfolding ratchet_decrypt ratchet_decrypt_inner try_skipped_message_key use_skipped
  use_banked t r peer e h = rw (h.header, h.banked, try_skipped_message_key, h.opens) refl

  module _ (hkdf : HkdfLaws p) where
    abbrev pub chain_keys : View → ℕ → Bytes
    chain_keys v = chain_key p hkdf 0 v.start

    abbrev pub message_keys : View → ℕ → Bytes
    message_keys v = message_key p hkdf 0 v.start

    pub record Sees (v : View) (t : RatchetState) : Type 0 where
      pub sender : IsKey v.peer
      pub small : v.total < 2 ^ 32
      pub reached : t.receiving_msg_number ≤ v.total
      pub receives : Receives p v.peer 0 v.total (chain_keys v) (message_keys v) v.done t

    -- A message of the chain that was not received.
    pub record IsCurrent (v : View) (e : Sent) : Type 0 where
      pub from : v.peer ≡ e.peer
      pub below : e.message.header.n < v.total
      pub new : v.done e.message.header.n ≡ false
      pub sealed : IsSealed p v.peer ad (message_keys v) e.message e.text

    abbrev pub IsHeld : View → RatchetState → Sent → Type 0
    IsHeld v t e = IsCurrent v e ⊎ IsOld v.peer t e

    -- What receiving `e` does: the text comes out, only the receiving side changes, one key less is
    -- outstanding, the other messages can be decrypted as before, and no key of another peer is banked.
    pub record Delivers (v : View) (t : RatchetState) (r : Rng) (e : Sent) : Type 0 where
      pub state : RatchetState
      pub view : View
      pub result : ratchet_decrypt p e.message ad (t, r) ≡ (ok e.text, (state, r))
      pub sees : Sees view state
      pub peer : view.peer ≡ v.peer
      pub start : view.start ≡ v.start
      pub total : view.total ≡ v.total
      pub side : IsReceiving t state
      pub fewer : outstanding view state + 1 ≤ outstanding v t
      pub others : (x : Sent) → Differ e x → IsHeld v t x → IsHeld view state x
      pub unbanked :
          (k : Bytes) (n : ℕ)
          → IsKey k
          → bytes_eq v.peer k ≡ false
          → lookup (skipped_key_id p k n) t.skipped_keys ≡ none
          → lookup (skipped_key_id p k n) state.skipped_keys ≡ none

    module _ (hex : HexLaws p) where
      -- Forgetting a key leaves those of other peers.
      pub forget_frame :
          (d : Bytes) (n : ℕ) (t : RatchetState)
          → IsKey d
          → IsStore t
          → KeepsOthers p d t.skipped_keys
              (forget_skipped_key (skipped_key_id p d n) t).skipped_keys
      unfolding forget_skipped_key
      forget_frame d n t dk store k m kk differ =
          let id = skipped_key_id p d n in
          ground (
            arith,
            lookup-remove id (skipped_key_id p k m) t.skipped_keys store.loaded.distinct_keys,
            skipped_key_id-differ p hex d k n m dk kk differ,
          )

      -- The message `n` of the chain, in the part of `Delivers` that is about the store.
      pub deliver_number :
          (v : View) (t : RatchetState) (r : Rng) (e : Sent)
          → Sees v t
          → IsCurrent v e
          → outstanding v t ≤ max_in_flight
          → let n = e.message.header.n in
            (t' : RatchetState) × (ratchet_decrypt p e.message ad (t, r) ≡ (ok e.text, (t', r)))
            × Sees (after n v) t'
            × IsReceiving t t'
            × (outstanding v t' + 1 ≤ outstanding v t)
            × KeepsOthers p v.peer t.skipped_keys t'.skipped_keys
      unfolding ratchet_decrypt forget_skipped_key
      deliver_number v t r e s c room =
          let n = e.message.header.n in
          let chain = iterate-IsChain p hkdf 0 v.start in
          let h = s.receives in
          let dk = s.sender in
          elim (Bool-cases (ltb n t.receiving_msg_number)) [
            | inl late ↦
                let id = skipped_key_id p v.peer n in
                let banked : lookup id t.skipped_keys ≡ some (message_keys v n) =
                  ground (arith, h.tracks.banked n (omega arith), c.new) in
                let t' = forget_skipped_key id t in
                (
                  t',
                  rw (
                      decrypt_late p hex v.peer dk 0 v.total (chain_keys v) (message_keys v) chain
                        s.small ad e.message e.text v.done t r c.sealed h c.new (omega arith)
                        (ground arith)),
                  record {
                    sender = dk;
                    small = s.small;
                    reached = s.reached;
                    receives =
                        forget-Receives p hex v.peer dk 0 v.total (chain_keys v) (message_keys v)
                          chain s.small n v.done t h (ground arith);
                  },
                  refl,
                  omega (
                    arith,
                    length-remove id t.skipped_keys
                        (contains-keys_of_some id (message_keys v n) t.skipped_keys banked),
                  ),
                  forget_frame v.peer n t dk h.tracks.store,
                )
            | inr ahead ↦
                let above : t.receiving_msg_number ≤ n = ground arith in
                let near : n ≤ t.receiving_msg_number + max_skip = omega (arith, c.below) in
                let (t', e', h', side, stored, at) =
                  decrypt_ahead p hex v.peer dk 0 v.total (chain_keys v) (message_keys v) chain
                    s.small ad e.message e.text v.done t r c.sealed h above near c.below in
                let (others, count) =
                  skip_message_keys_frame p hex n v.peer (chain_keys v t.receiving_msg_number) t dk
                    h.key h.tracks.peer near (omega (arith, c.below, s.small)) above
                    (omega (arith, c.below)) in
                (
                  t',
                  rw e',
                  record {
                    sender = dk;
                    small = s.small;
                    reached = omega (arith, at, c.below);
                    receives = h';
                  },
                  side,
                  omega (arith, count, at, ap length stored, c.below),
                  λ k m kk differ. ap (lookup (skipped_key_id p k m)) stored ∙ others k m kk differ,
                )
          ]
