-- ===== src/Ratchet/Conversation/Deliver.antt =====
-- A message that a receiver of src/ratchet.rs holds a key for, or comes to one on the chain, is
-- decrypted, and leaves the others as they are.
use trino_core.Prelude.{
  ℕ, ◌≤◌, ◌≡◌, refl, sym, ◌∙◌, Bytes, false, bytes_eq, bytes_eq_iff, lookup, arith, inl, inr,
  lookup-remove, length-remove, contains-keys_of_some, length-remove-le,
}
use trino_core.Primitives.{Primitives, Rng, HexLaws, HkdfLaws}
use trino_core.Ratchet.State.{RatchetState, skipped_key_id}
use trino_core.Ratchet.State.Laws.{IsKey}
use trino_core.Ratchet.Store.{forget_skipped_key}
use trino_core.Ratchet.Store.Cap.{forget_skipped_key-IsStore}
use trino_core.Ratchet.Session.Chain.{id_eq}
use trino_core.Ratchet.Conversation.{Sent, max_in_flight}
use trino_core.Ratchet.Conversation.View.{
  View, after, outstanding, IsOld, Differ, use_banked, Sees, IsCurrent, IsHeld, Delivers,
  deliver_number, forget_frame,
}

module _ (p : Primitives) (ad : Bytes) (hkdf : HkdfLaws p) (hex : HexLaws p) where
  -- An earlier message stays decryptable while its entry is the same.
  pub IsOld-frame :
      (peer : Bytes) (t t' : RatchetState) (x : Sent) (h : IsOld p ad peer t x)
      → lookup (skipped_key_id p x.peer x.message.header.n) t'.skipped_keys
        ≡ lookup (skipped_key_id p x.peer x.message.header.n) t.skipped_keys
      → IsOld p ad peer t' x
  IsOld-frame peer t t' x h same = record {
    sender = h.sender;
    other = h.other;
    header = h.header;
    key = h.key;
    banked = same ∙ h.banked;
    opens = h.opens;
  }

  -- Another message of the chain stays unreceived.
  IsCurrent-after :
      (v : View) (e x : Sent)
      → IsKey v.peer
      → v.peer ≡ e.peer
      → Differ p ad e x
      → IsCurrent p ad hkdf v x
      → IsCurrent p ad hkdf (after e.message.header.n v) x
  IsCurrent-after v e x dk from differ c = record {
    from = c.from;
    below = c.below;
    new = ground (
      arith,
      c.new,
      id_eq p hex v.peer dk e.message.header.n x.message.header.n,
      rw (sym from, sym c.from) at differ,
    );
    sealed = c.sealed;
  }

  -- Forgetting a key of another peer leaves the chain as it is.
  forget_other-Sees :
      (v : View) (t : RatchetState) (d : Bytes) (n : ℕ)
      → Sees p ad hkdf v t
      → IsKey d
      → bytes_eq d v.peer ≡ false
      → Sees p ad hkdf v (forget_skipped_key (skipped_key_id p d n) t)
  unfolding forget_skipped_key
  forget_other-Sees v t d n s dk differ =
      let h = s.receives in
      let id = skipped_key_id p d n in
      let same =
        λ (m : ℕ). forget_frame p ad hkdf hex d n t dk h.tracks.store v.peer m s.sender differ in
      record {
        sender = s.sender;
        small = s.small;
        reached = s.reached;
        receives = record {
          tracks = record {
            peer = h.tracks.peer;
            live = h.tracks.live;
            begun = h.tracks.begun;
            store = forget_skipped_key-IsStore id t h.tracks.store;
            banked = λ m f b. same m ∙ h.tracks.banked m f b;
            fresh = λ m b. same m ∙ h.tracks.fresh m b;
            undone = h.tracks.undone;
            room = omega (arith, h.tracks.room, length-remove-le id t.skipped_keys);
          };
          key = h.key;
        };
      }

  deliver_current :
      (v : View) (t : RatchetState) (r : Rng) (e : Sent)
      → Sees p ad hkdf v t
      → IsCurrent p ad hkdf v e
      → outstanding v t ≤ max_in_flight
      → Delivers p ad hkdf v t r e
  deliver_current v t r e s c room =
      let (t', result, s', side, fewer, others) = deliver_number p ad hkdf hex v t r e s c room in
      record {
        state = t';
        view = after e.message.header.n v;
        result = result;
        sees = s';
        peer = refl;
        start = refl;
        total = refl;
        side = side;
        fewer = fewer;
        others = λ x differ h. elim h [
          | inl cx ↦ inl (IsCurrent-after v e x s.sender c.from differ cx)
          | inr old ↦ inr (
              IsOld-frame v.peer t t' x old (others x.peer x.message.header.n old.sender old.other))
        ];
        unbanked = λ k n kk differ none_yet. others k n kk differ ∙ none_yet;
      }

  deliver_old :
      (v : View) (t : RatchetState) (r : Rng) (e : Sent)
      → Sees p ad hkdf v t
      → IsOld p ad v.peer t e
      → Delivers p ad hkdf v t r e
  unfolding forget_skipped_key
  deliver_old v t r e s o =
      let n = e.message.header.n in
      let id = skipped_key_id p e.peer n in
      let t' = forget_skipped_key id t in
      let store = s.receives.tracks.store in
      let gone = λ (k : Bytes). lookup-remove id k t.skipped_keys store.loaded.distinct_keys in
      let differ : bytes_eq e.peer v.peer ≡ false =
        ground (arith, bytes_eq_iff e.peer v.peer, bytes_eq_iff v.peer e.peer, o.other) in
      record {
        state = t';
        view = v;
        result = use_banked p ad t r v.peer e o;
        sees = forget_other-Sees v t e.peer n s o.sender differ;
        peer = refl;
        start = refl;
        total = refl;
        side = refl;
        fewer = omega (
          arith,
          length-remove id t.skipped_keys (contains-keys_of_some id o.key t.skipped_keys o.banked),
        );
        others = λ x apart h. elim h [
          | inl cx ↦ inl cx
          | inr old ↦ inr (
              IsOld-frame v.peer t t' x old
                (ground (arith, gone (skipped_key_id p x.peer x.message.header.n), apart)))
        ];
        unbanked = λ k m kk other none_yet. ground (arith, gone (skipped_key_id p k m), none_yet);
      }

  -- Whatever is held is decrypted.
  pub deliver :
      (v : View) (t : RatchetState) (r : Rng) (e : Sent)
      → Sees p ad hkdf v t
      → IsHeld p ad hkdf v t e
      → outstanding v t ≤ max_in_flight
      → Delivers p ad hkdf v t r e
  deliver v t r e s (inl c) room = deliver_current v t r e s c room
  deliver v t r e s (inr o) room = deliver_old v t r e s o
