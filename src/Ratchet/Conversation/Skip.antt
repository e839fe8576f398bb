-- ===== src/Ratchet/Conversation/Skip.antt =====
-- Before it enters a new chain, a receiver of src/ratchet.rs skips to the end of the one before.
use trino_core.Prelude.{
  ℕ, ◌+◌, ◌≤◌, ◌≡◌, sym, ap, ◌∙◌, Bytes, length, false, bytes_eq, bytes_eq_iff, lookup, arith, some,
  none, ok, inl, inr,
}
use trino_core.Primitives.{Primitives, HexLaws, HkdfLaws}
use trino_core.Ratchet.State.{RatchetState, skipped_key_id, max_skip}
use trino_core.Ratchet.State.Laws.{IsKey}
use trino_core.Ratchet.Store.Bank.{IsStore}
use trino_core.Ratchet.Session.{skip_message_keys}
use trino_core.Ratchet.Session.Side.{IsReceiving, skip_message_keys-IsReceiving}
use trino_core.Ratchet.Session.Chain.{skip_message_keys-Receives}
use trino_core.Ratchet.Session.AnyOrder.{iterate-IsChain}
use trino_core.Ratchet.Conversation.{Sent, max_in_flight}
use trino_core.Ratchet.Conversation.Frame.{skip_message_keys_frame}
use trino_core.Ratchet.Conversation.View.{
  View, outstanding, IsOld, Sees, IsHeld, chain_keys, message_keys,
}
use trino_core.Ratchet.Conversation.Deliver.{IsOld-frame}
use trino_core.Ratchet.Conversation.Lead.{IsUnseen}

module _ (p : Primitives) (ad : Bytes) (hkdf : HkdfLaws p) (hex : HexLaws p) where
  -- A key that was never had is neither that of the chain nor banked afterwards.
  pub record Skips (v : View) (t : RatchetState) : Type 0 where
    pub state : RatchetState
    pub skipped : skip_message_keys p v.total t ≡ (ok tt, state)
    pub side : IsReceiving t state
    pub store : IsStore state
    pub count : length state.skipped_keys ≤ outstanding v t
    pub unbanked :
        (k : Bytes) (n : ℕ)
        → IsKey k
        → IsUnseen p k t
        → lookup (skipped_key_id p k n) state.skipped_keys ≡ none
    pub old :
        (d : Bytes) (x : Sent) → IsUnseen p d t → IsHeld p ad hkdf v t x → IsOld p ad d state x

  differ_unseen :
      (d k : Bytes) (t : RatchetState) → t.dhr ≡ some d → IsUnseen p k t → bytes_eq d k ≡ false
  differ_unseen d k t peer new = ground (arith, new.unseen)

  -- At the end of the chain every message of it that was not received has its key banked.
  pub skip_chain :
      (v : View) (t : RatchetState)
      → Sees p ad hkdf v t
      → outstanding v t ≤ max_in_flight
      → Skips v t
  skip_chain v t s room =
      let chain = iterate-IsChain p hkdf 0 v.start in
      let ck = chain_keys p ad hkdf v in
      let mk = message_keys p ad hkdf v in
      let h = s.receives in
      let t' = (skip_message_keys p v.total t).1 in
      let near : v.total ≤ t.receiving_msg_number + max_skip = omega arith in
      let (fine, h', at) =
        skip_message_keys-Receives p hex v.peer s.sender 0 v.total ck mk chain s.small v.total
          v.done t h s.reached near (omega arith) in
      let (others, count) =
        skip_message_keys_frame p hex v.total v.peer (ck t.receiving_msg_number) t s.sender h.key
          h.tracks.peer near s.small s.reached (omega (arith, h.tracks.room)) in
      record {
        state = t';
        skipped = ap (λ x. (x, t')) fine;
        side =
            skip_message_keys-IsReceiving p v.total (ck t.receiving_msg_number) v.peer t h.key
              h.tracks.peer (ground arith);
        store = h'.tracks.store;
        count = omega (arith, count, s.reached);
        unbanked = λ k n kk new.
            others k n kk (differ_unseen v.peer k t h.tracks.peer new) ∙ new.unbanked n;
        old = λ d x new held. elim held [
          | inl c ↦ record {
            sender = rw (sym c.from) s.sender;
            other =
                let away = differ_unseen v.peer d t h.tracks.peer new in
                ground (arith, away, c.from, bytes_eq_iff v.peer d, bytes_eq_iff d x.peer);
            header = rw (sym c.from) c.sealed.peer;
            key = mk x.message.header.n;
            banked =
                rw (sym c.from)
                  (ground (arith, h'.tracks.banked x.message.header.n, at, c.below, c.new));
            opens = c.sealed.opens;
          }
          | inr o ↦
              let here = others x.peer x.message.header.n o.sender o.other in
              let kept = IsOld-frame p ad hkdf hex v.peer t t' x o here in
              record {
                sender = o.sender;
                other = ground (
                  arith,
                  bytes_eq_iff d x.peer,
                  new.unbanked x.message.header.n,
                  o.banked,
                  λ (e : d ≡ x.peer).
                      ap (λ k. lookup (skipped_key_id p k x.message.header.n) t.skipped_keys) e,
                );
                header = o.header;
                key = kept.key;
                banked = kept.banked;
                opens = kept.opens;
              }
        ];
      }
