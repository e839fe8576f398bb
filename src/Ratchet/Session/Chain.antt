-- ===== src/Ratchet/Session/Chain.antt =====
-- A receiving chain: what has been received of it, and that the next message is decrypted.
use trino_core.Prelude.{
  ℕ, zero, suc, ◌+◌, ◌-◌, ◌%◌, ◌≤◌, ◌<◌, ◌^◌, ◌≡◌, refl, sym, ap, Bytes, length, ◌||◌, Bool, false,
  if◌then◌else◌, bytes_eq, bytes_eq_iff, contains, lookup, arith, some, none, ok, ltb, ◌==◌,
  lookup-insert, length-insert, lookup-remove, length-remove-le,
}
use trino_core.Primitives.{Primitives, HexLaws}
use trino_core.Ratchet.State.{RatchetState, max_skipped_keys, max_skip, kdf_ck, skipped_key_id}
use trino_core.Ratchet.State.Laws.{IsKey, skipped_key_id_injective}
use trino_core.Ratchet.Store.{bank_skipped_key, forget_skipped_key}
use trino_core.Ratchet.Store.Bank.{IsStore}
use trino_core.Ratchet.Store.Cap.{
  filed, bank_skipped_key_below, bank_skipped_key-IsStore, forget_skipped_key-IsStore,
}
use trino_core.Ratchet.Session.{skip_loop, skip_message_keys, succ_u32, saturating_add}

module _ (p : Primitives) (hex : HexLaws p) (d : Bytes) (dk : IsKey d) where
  -- Ids of one key are the same for the same number only.
  pub id_eq : (n m : ℕ) → bytes_eq (skipped_key_id p d n) (skipped_key_id p d m) ≡ (n == m)
  id_eq n m = ground (
    arith,
    bytes_eq_iff (skipped_key_id p d n) (skipped_key_id p d m),
    λ (e : skipped_key_id p d n ≡ skipped_key_id p d m).
        skipped_key_id_injective p hex d d n m dk dk e,
  )

-- What has been received once the message `n` is.
abbrev pub received : ℕ → (ℕ → Bool) → ℕ → Bool
received n done m = n == m || done m

-- The chain of the peer key `d` from number `first` on: chain keys and message keys.
pub record IsChain (p : Primitives) (first : ℕ) (ck mk : ℕ → Bytes) : Type 0 where
  pub derives : (n : ℕ) → first ≤ n → kdf_ck p (ck n) ≡ ok (ck (suc n), mk n)
  pub length-mk : (n : ℕ) → first ≤ n → length (mk n) ≡ 32

module _ (p : Primitives) (d : Bytes) (first last : ℕ) (ck mk : ℕ → Bytes) where
  -- Of the numbers from `first` to below the counter, those not received have their key banked; none is banked
  -- above it; and there is room for all up to `last`.
  pub record Tracks (done : ℕ → Bool) (t : RatchetState) : Type 0 where
    pub peer : t.dhr ≡ some d
    pub live : contains d t.retired_peer_dh_keys ≡ false
    pub begun : first ≤ t.receiving_msg_number
    pub store : IsStore t
    pub banked :
        (n : ℕ)
        → first ≤ n
        → n < t.receiving_msg_number
        → lookup (skipped_key_id p d n) t.skipped_keys ≡ (if done n then none else some (mk n))
    pub fresh :
        (n : ℕ) → t.receiving_msg_number ≤ n → lookup (skipped_key_id p d n) t.skipped_keys ≡ none
    pub undone : (n : ℕ) → t.receiving_msg_number ≤ n → done n ≡ false
    pub room : length t.skipped_keys + (last - t.receiving_msg_number) ≤ max_skipped_keys

  -- Moreover the chain key is the one of the counter.
  pub record Receives (done : ℕ → Bool) (t : RatchetState) : Type 0 where
    pub tracks : Tracks done t
    pub key : t.receiving_chain_key ≡ some (ck t.receiving_msg_number)

module _ (p : Primitives) (hex : HexLaws p) (d : Bytes) (dk : IsKey d) (first last : ℕ)
    (ck mk : ℕ → Bytes) (chain : IsChain p first ck mk) (small : last < 2 ^ 32) where
  -- One round of the loop of `skip_message_keys`.
  bank_next : (t : RatchetState) → RatchetState
  bank_next t =
      let banked =
        bank_skipped_key (skipped_key_id p d t.receiving_msg_number) (mk t.receiving_msg_number)
          t in
      record banked { receiving_msg_number = succ_u32 banked.receiving_msg_number }

  bank_next-Tracks :
      (done : ℕ → Bool) (t : RatchetState)
      → Tracks p d first last ck mk done t
      → t.receiving_msg_number < last
      → Tracks p d first last ck mk done (bank_next t)
        × ((bank_next t).receiving_msg_number ≡ suc t.receiving_msg_number)
  unfolding bank_next filed
  bank_next-Tracks done t h below =
      let r = t.receiving_msg_number in
      let id = skipped_key_id p d r in
      let same = bank_skipped_key_below id (mk r) t (omega arith) in
      let stored : IsStore (filed id (mk r) t) =
        rw same at (bank_skipped_key-IsStore id (mk r) t h.store) in
      let up : (r + 1) % 2 ^ 32 ≡ suc r = omega arith in
      rw (same, up)
        (
          record {
            peer = h.peer;
            live = h.live;
            begun = omega arith;
            store = stored;
            banked = λ n f m.
                rw
                  (
                    lookup-insert id (skipped_key_id p d n) (mk r) t.skipped_keys,
                    id_eq p hex d dk r n,
                  )
                  (ground (arith, h.banked n f, h.undone n));
            fresh = λ n m.
                rw
                  (
                    lookup-insert id (skipped_key_id p d n) (mk r) t.skipped_keys,
                    id_eq p hex d dk r n,
                  )
                  (ground (arith, h.fresh n));
            undone = λ n m. h.undone n (omega arith);
            room = ground (arith, length-insert id (mk r) t.skipped_keys, h.room);
          },
          refl,
        )

  skip_loop-suc :
      (rounds : ℕ) (t : RatchetState)
      → first ≤ t.receiving_msg_number
      → (bank_next t).receiving_msg_number ≡ suc t.receiving_msg_number
      → skip_loop p (suc rounds) d (ck t.receiving_msg_number) t
        ≡ skip_loop p rounds d (ck (bank_next t).receiving_msg_number) (bank_next t)
  unfolding skip_loop bank_next
  skip_loop-suc rounds t begun up =
      rw (chain.derives t.receiving_msg_number begun, skip_loop)
        (ap (λ n. skip_loop p rounds d (ck n) (bank_next t)) (sym up))

  -- The loop banks the keys of its rounds, and leaves the chain key behind them.
  skip_loop-Receives :
      (rounds : ℕ) (done : ℕ → Bool) (t : RatchetState)
      → Tracks p d first last ck mk done t
      → t.receiving_msg_number + rounds ≤ last
      → let (r, t') = skip_loop p rounds d (ck t.receiving_msg_number) t in
        (r ≡ ok tt)
        × Receives p d first last ck mk done t'
        × (t'.receiving_msg_number ≡ t.receiving_msg_number + rounds)
  unfolding skip_loop
  skip_loop-Receives zero done t h fits = (
    refl,
    record {
      tracks = record {
        peer = h.peer;
        live = h.live;
        begun = h.begun;
        store = h.store;
        banked = h.banked;
        fresh = h.fresh;
        undone = h.undone;
        room = h.room;
      };
      key = refl;
    },
    omega arith,
  )
  skip_loop-Receives (suc rounds) done t h fits =
      let (h', up) = bank_next-Tracks done t h (omega arith) in
      let (finished, at_chain, at) =
        skip_loop-Receives rounds done (bank_next t) h' (omega (arith, up)) in
      rw (skip_loop-suc rounds t h.begun up) (finished, at_chain, omega (arith, at, up))

  -- Skipping ahead within the limit banks what is passed over.
  pub skip_message_keys-Receives :
      (n : ℕ) (done : ℕ → Bool) (t : RatchetState)
      → Receives p d first last ck mk done t
      → t.receiving_msg_number ≤ n
      → n ≤ t.receiving_msg_number + max_skip
      → n ≤ last
      → let (r, t') = skip_message_keys p n t in
        (r ≡ ok tt) × Receives p d first last ck mk done t' × (t'.receiving_msg_number ≡ n)
  unfolding skip_message_keys
  skip_message_keys-Receives n done t h ahead near fits =
      let r = t.receiving_msg_number in
      let within : ltb (saturating_add r max_skip) n ≡ false = ground arith in
      let (finished, at_chain, at) = skip_loop-Receives (n - r) done t h.tracks (omega arith) in
      rw (h.key, within, h.tracks.peer, skip_message_keys) (finished, at_chain, omega (arith, at))

  -- The next message of the chain: its key is derived, and the chain moves on.
  pub step-Tracks :
      (n : ℕ) (done : ℕ → Bool) (t : RatchetState)
      → Receives p d first last ck mk done t
      → t.receiving_msg_number ≡ n
      → n < last
      → Receives p d first last ck mk
          (received n done)
          (record t { receiving_chain_key = some (ck (suc n)); receiving_msg_number = suc n })
  step-Tracks n done t h at below = record {
    tracks = record {
      peer = h.tracks.peer;
      live = h.tracks.live;
      begun = omega (arith, h.tracks.begun, at);
      store = h.tracks.store;
      banked = λ m f below. ground (arith, h.tracks.banked m f, h.tracks.fresh m, at);
      fresh = λ m above. h.tracks.fresh m (omega arith);
      undone = λ m above. ground (arith, h.tracks.undone m);
      room = omega (arith, h.tracks.room, at);
    };
    key = refl;
  }

  -- A message that was passed over: its key is used once and forgotten.
  pub forget-Receives :
      (n : ℕ) (done : ℕ → Bool) (t : RatchetState)
      → Receives p d first last ck mk done t
      → n < t.receiving_msg_number
      → Receives p d first last ck mk
          (received n done)
          (forget_skipped_key (skipped_key_id p d n) t)
  unfolding forget_skipped_key
  forget-Receives n done t h below =
      let id = skipped_key_id p d n in
      let gone = λ (m : ℕ).
        lookup-remove id (skipped_key_id p d m) t.skipped_keys
          h.tracks.store.loaded.distinct_keys in
      record {
        tracks = record {
          peer = h.tracks.peer;
          live = h.tracks.live;
          begun = h.tracks.begun;
          store = forget_skipped_key-IsStore id t h.tracks.store;
          banked = λ m f b. rw (gone m, id_eq p hex d dk n m) (ground (arith, h.tracks.banked m f));
          fresh = λ m b. rw (gone m, id_eq p hex d dk n m) (ground (arith, h.tracks.fresh m));
          undone = λ m b. ground (arith, h.tracks.undone m);
          room = omega (arith, h.tracks.room, length-remove-le id t.skipped_keys);
        };
        key = h.key;
      }
