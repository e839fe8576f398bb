-- ===== src/Ratchet/Store/Cap.antt =====
-- The promises of the skipped-key store: the cap, the oldest keys first, and nothing else lost.
use trino_core.Prelude.{
  List, ◌-◌, ◌≤◌, ◌<◌, ◌≡◌, refl, Bytes, [], ◌∷◌, ◌++◌, length, bytes_eq, bytes_eq_iff, contains,
  keys, lookup, insert, true, arith, drop, none, some, if◌then◌else◌, Bool-cases, inl, inr, leb,
  lookup-remove, length-remove-le, ◌∙◌, remove-Distinct, contains-remove, insert-Distinct,
  contains-insert, length-insert, lookup-insert, ap,
}
use trino_core.Prelude.Members.{IsWithin, contains-append, append-Distinct}
use trino_core.Ratchet.State.{RatchetState, max_skipped_keys}
use trino_core.Ratchet.Store.{evict_oldest_skipped_keys, bank_skipped_key, forget_skipped_key}
use trino_core.Ratchet.Store.Bank.{
  IsLoaded, IsStore, IsUnlisted, adopt_unordered_skipped_keys_lem, evict_over,
}
use trino_core.Ratchet.Store.Order.{contains-retain_ne, retain_ne-Distinct}

-- In a state over the cap whose map has each key once and whose order list names keys of the
-- map, each once, eviction keeps exactly as many keys as the cap, each with its value. They are
-- the last ones of a list that begins with the keys of the map that the order list does not
-- name, each once and in ascending order, and goes on with the order list itself; the new order
-- list has them in that order. Map and order list are in step afterwards.
pub evict_drops_oldest :
    (s : RatchetState)
    → IsLoaded s
    → max_skipped_keys < length s.skipped_keys
    → let e = evict_oldest_skipped_keys s in
      IsStore e
      × (length e.skipped_keys ≡ max_skipped_keys)
      × ((unlisted : List Bytes) × IsUnlisted s.skipped_keys s.skipped_key_order unlisted
          × (e.skipped_key_order
              ≡ drop (length s.skipped_keys - max_skipped_keys) (unlisted ++ s.skipped_key_order)))
      × ((k : Bytes)
          → lookup k e.skipped_keys
            ≡ (if contains k e.skipped_key_order then lookup k s.skipped_keys else none))
evict_drops_oldest s l over =
    let e = evict_over s l over in
    let (unlisted, shape, adopts) = adopt_unordered_skipped_keys_lem s l in
    let count : length (evict_oldest_skipped_keys s).skipped_keys ≡ max_skipped_keys =
      omega (arith, e.count) in
    (
      record {
        loaded = record {
          distinct_keys = e.listed.distinct_keys;
          distinct_order = e.listed.distinct_order;
          known = e.listed.known;
        };
        ordered = e.listed.ordered;
        bounded = omega (arith, count);
      },
      count,
      (
        unlisted,
        shape,
        e.oldest_first ∙ ap (drop (length s.skipped_keys - max_skipped_keys)) adopts,
      ),
      e.values,
    )

evict_under :
    (s : RatchetState) → length s.skipped_keys ≤ max_skipped_keys → evict_oldest_skipped_keys s ≡ s
unfolding evict_oldest_skipped_keys
evict_under s h =
    let fits : leb (length s.skipped_keys) max_skipped_keys ≡ true = ground arith in rw fits

-- The state between the insertion and the eviction.
unfoldable pub filed : Bytes → Bytes → RatchetState → RatchetState
filed id mk s = record s {
  skipped_keys = insert id mk s.skipped_keys;
  skipped_key_order =
      if contains id (keys s.skipped_keys)
      then s.skipped_key_order
      else s.skipped_key_order ++ (id ∷ []);
}

bank-filed :
    (id mk : Bytes) (s : RatchetState)
    → bank_skipped_key id mk s ≡ evict_oldest_skipped_keys (filed id mk s)
unfolding bank_skipped_key filed
bank-filed id mk s = refl

filed-IsLoaded : (id mk : Bytes) (s : RatchetState) → IsLoaded s → IsLoaded (filed id mk s)
unfolding filed contains
filed-IsLoaded id mk s l = record {
  distinct_keys = insert-Distinct id mk s.skipped_keys l.distinct_keys;
  distinct_order = elim (Bool-cases (contains id (keys s.skipped_keys))) [
    | inl old ↦ rw old l.distinct_order
    | inr fresh ↦ rw fresh (
        append-Distinct s.skipped_key_order (id ∷ []) l.distinct_order (refl, tt)
          (λ k h. ground (arith, l.known k, bytes_eq_iff id k)))
  ];
  known = λ k h. ground (
    arith,
    contains-insert id k mk s.skipped_keys,
    contains-append k s.skipped_key_order (id ∷ []),
    l.known k,
  );
}

filed-ordered :
    (id mk : Bytes) (s : RatchetState)
    → IsWithin (keys s.skipped_keys) s.skipped_key_order
    → IsWithin (keys (filed id mk s).skipped_keys) (filed id mk s).skipped_key_order
unfolding filed contains
filed-ordered id mk s o k h = ground (
  arith,
  contains-insert id k mk s.skipped_keys,
  contains-append k s.skipped_key_order (id ∷ []),
  o k,
  bytes_eq_iff id k,
)

evict-IsLoaded :
    (s : RatchetState)
    → IsLoaded s
    → IsLoaded (evict_oldest_skipped_keys s)
      × (length (evict_oldest_skipped_keys s).skipped_keys ≤ max_skipped_keys)
evict-IsLoaded s l = elim (Bool-cases (leb (length s.skipped_keys) max_skipped_keys)) [
  | inl fits ↦ rw (evict_under s (ground arith)) (l, ground arith)
  | inr over ↦ let e = evict_drops_oldest s l (ground arith) in (e.0.loaded, e.0.bounded)
]

-- If the map has each key once and the order list names keys of the map, each once, both hold
-- after a key is banked, and there are no more keys than the cap.
pub bank_skipped_key-IsLoaded :
    (id mk : Bytes) (s : RatchetState)
    → IsLoaded s
    → IsLoaded (bank_skipped_key id mk s)
      × (length (bank_skipped_key id mk s).skipped_keys ≤ max_skipped_keys)
bank_skipped_key-IsLoaded id mk s l =
    rw (bank-filed id mk s) (evict-IsLoaded (filed id mk s) (filed-IsLoaded id mk s l))

-- Banking a key keeps the map and the order list in step and the cap.
pub bank_skipped_key-IsStore :
    (id mk : Bytes) (s : RatchetState) → IsStore s → IsStore (bank_skipped_key id mk s)
bank_skipped_key-IsStore id mk s v =
    rw (bank-filed id mk s)
      (elim (Bool-cases (leb (length (filed id mk s).skipped_keys) max_skipped_keys)) [
        | inl fits ↦ rw (evict_under (filed id mk s) (ground arith)) (record {
          loaded = filed-IsLoaded id mk s v.loaded;
          ordered = filed-ordered id mk s v.ordered;
          bounded = ground arith;
        })
        | inr over ↦
            (evict_drops_oldest (filed id mk s) (filed-IsLoaded id mk s v.loaded) (ground arith)).0
      ])

-- Below the cap a banked key is stored, and no other is lost.
pub bank_skipped_key_below :
    (id mk : Bytes) (s : RatchetState)
    → length s.skipped_keys < max_skipped_keys
    → bank_skipped_key id mk s ≡ filed id mk s
unfolding filed
bank_skipped_key_below id mk s h =
    let fits : length (filed id mk s).skipped_keys ≤ max_skipped_keys =
      ground (arith, length-insert id mk s.skipped_keys) in
    bank-filed id mk s ∙ evict_under (filed id mk s) fits

-- Forgetting a key keeps the map and the order list in step.
pub forget_skipped_key-IsStore :
    (id : Bytes) (s : RatchetState) → IsStore s → IsStore (forget_skipped_key id s)
unfolding forget_skipped_key
forget_skipped_key-IsStore id s v = record {
  loaded = record {
    distinct_keys = remove-Distinct id s.skipped_keys v.loaded.distinct_keys;
    distinct_order = retain_ne-Distinct id s.skipped_key_order v.loaded.distinct_order;
    known = λ k h. ground (
      arith,
      contains-remove id k s.skipped_keys v.loaded.distinct_keys,
      contains-retain_ne id k s.skipped_key_order,
      v.loaded.known k,
    );
  };
  ordered = λ k h. ground (
    arith,
    contains-remove id k s.skipped_keys v.loaded.distinct_keys,
    contains-retain_ne id k s.skipped_key_order,
    v.ordered k,
  );
  bounded = omega (arith, length-remove-le id s.skipped_keys, v.bounded);
}

-- Banking and eviction write the map and the order list, and nothing else.
pub bank_skipped_key_frame :
    (id mk : Bytes) (s : RatchetState)
    → bank_skipped_key id mk s ≡ record s {
      skipped_keys = (bank_skipped_key id mk s).skipped_keys;
      skipped_key_order = (bank_skipped_key id mk s).skipped_key_order;
    }
unfolding bank_skipped_key evict_oldest_skipped_keys
bank_skipped_key_frame id mk s = ground arith

-- In a store that is in step and below the cap, banking a key keeps it in step, files the key
-- under its id, and changes the entry of no other id.
pub bank_skipped_key_lem :
    (id mk : Bytes) (s : RatchetState)
    → IsStore s
    → length s.skipped_keys < max_skipped_keys
    → IsStore (bank_skipped_key id mk s)
      × ((k : Bytes)
          → lookup k (bank_skipped_key id mk s).skipped_keys
            ≡ (if bytes_eq id k then some mk else lookup k s.skipped_keys))
unfolding filed
bank_skipped_key_lem id mk s v below = (
  bank_skipped_key-IsStore id mk s v,
  λ k.
      ap (λ t. lookup k t.skipped_keys) (bank_skipped_key_below id mk s below)
      ∙ lookup-insert id k mk s.skipped_keys,
)

-- In a store that is in step, forgetting a key keeps it in step, drops the entry of its id, and
-- changes that of no other id.
pub forget_skipped_key_lem :
    (id : Bytes) (s : RatchetState)
    → IsStore s
    → IsStore (forget_skipped_key id s)
      × ((k : Bytes)
          → lookup k (forget_skipped_key id s).skipped_keys
            ≡ (if bytes_eq id k then none else lookup k s.skipped_keys))
unfolding forget_skipped_key
forget_skipped_key_lem id s v = (
  forget_skipped_key-IsStore id s v,
  λ k. lookup-remove id k s.skipped_keys v.loaded.distinct_keys,
)
