-- ===== src/Ratchet/Store/Bank.antt =====
-- Banking a key and evicting the oldest ones: the cap, what is kept, and the invariant.
use trino_core.Prelude.{
  ℕ, zero, suc, ◌+◌, ◌-◌, ◌≤◌, ◌<◌, ◌≡◌, refl, Bytes, List, [], ◌∷◌, length, bytes_eq_iff, contains,
  keys, lookup, remove, false, arith, Distinct, drop, none, if◌then◌else◌, Bool-cases, inl, inr,
  leb, ◌==◌, not, ◌&&◌, ◌++◌, lookup-remove, length-remove, remove-Distinct, contains-remove,
  lookup-eq-none, contains-keys_of_none, ◌∙◌, bytes_eq_refl,
}
use trino_core.Prelude.Members.{
  IsWithin, contains-append, append-Distinct, length-le_of_IsWithin, IsWithin-of_length,
}
use trino_core.Ratchet.State.{RatchetState, max_skipped_keys}
use trino_core.Ratchet.Store.{
  evict_loop, evict_oldest_skipped_keys, adopt_unordered_skipped_keys, sort, unknown_keys,
}
use trino_core.Ratchet.Store.Order.{
  contains-sort, sort-Distinct, contains-unknown_keys, unknown_keys-Distinct, IsAscending,
  sort-IsAscending,
}

-- What every store has, also one that was sealed before the order list existed: a map has each
-- key once, and the order list names keys of the map, each once.
pub record IsLoadedStore (m : List (Bytes × Bytes)) (order : List Bytes) : Type 0 where
  pub distinct_keys : Distinct (keys m)
  pub distinct_order : Distinct order
  pub known : IsWithin order (keys m)

-- Moreover the order list names every key, and there are no more than the cap.
pub record IsFullStore (m : List (Bytes × Bytes)) (order : List Bytes) : Type 0 where
  pub loaded : IsLoadedStore m order
  pub ordered : IsWithin (keys m) order
  pub bounded : length m ≤ max_skipped_keys

abbrev pub IsLoaded : RatchetState → Type 0
IsLoaded s = IsLoadedStore s.skipped_keys s.skipped_key_order

abbrev pub IsStore : RatchetState → Type 0
IsStore s = IsFullStore s.skipped_keys s.skipped_key_order

empty-IsLoadedStore : IsLoadedStore [] []
empty-IsLoadedStore = record { distinct_keys = tt; distinct_order = tt; known = λ k h. h }

pub empty-IsFullStore : IsFullStore [] []
empty-IsFullStore = record {
  loaded = empty-IsLoadedStore;
  ordered = λ k h. h;
  bounded = omega arith;
}

pub length-keys : (m : List (Bytes × Bytes)) → length (keys m) ≡ length m
length-keys [] = refl
length-keys ((k, v) ∷ m) = omega (arith, length-keys m)

-- The order list and the map that the eviction loop works on.
pub record IsListed (order : List Bytes) (m : List (Bytes × Bytes)) : Type 0 where
  pub distinct_keys : Distinct (keys m)
  pub distinct_order : Distinct order
  pub known : IsWithin order (keys m)
  pub ordered : IsWithin (keys m) order

IsListed-length :
    {order : List Bytes} {m : List (Bytes × Bytes)} → IsListed order m → length order ≡ length m
IsListed-length {order} {m} l = omega (
  arith,
  length-keys m,
  length-le_of_IsWithin order (keys m) l.distinct_order l.known,
  length-le_of_IsWithin (keys m) order l.distinct_keys l.ordered,
)

IsListed-tail :
    {k : Bytes} {order : List Bytes} {m : List (Bytes × Bytes)}
    → IsListed (k ∷ order) m
    → IsListed order (remove k m)
unfolding contains
IsListed-tail {k} {order} {m} l = record {
  distinct_keys = remove-Distinct k m l.distinct_keys;
  distinct_order = l.distinct_order.1;
  known = λ j h. ground (
    arith,
    contains-remove k j m l.distinct_keys,
    l.known j,
    bytes_eq_iff k j,
    l.distinct_order.0,
  );
  ordered = λ j h. ground (arith, contains-remove k j m l.distinct_keys, l.ordered j);
}

adopt-IsListed :
    (s : RatchetState)
    → IsLoaded s
    → IsListed (adopt_unordered_skipped_keys s).skipped_key_order s.skipped_keys
unfolding adopt_unordered_skipped_keys
adopt-IsListed s l =
    let known = s.skipped_key_order in
    let ks = keys s.skipped_keys in
    let fresh = sort (unknown_keys known ks) in
    elim (Bool-cases (length known == length s.skipped_keys)) [
      | inl same ↦ rw same (record {
        distinct_keys = l.distinct_keys;
        distinct_order = l.distinct_order;
        known = l.known;
        ordered =
            IsWithin-of_length known ks l.distinct_order l.known
              (ground (arith, length-keys s.skipped_keys));
      })
      | inr differ ↦ rw differ (record {
        distinct_keys = l.distinct_keys;
        distinct_order =
            append-Distinct fresh known
              (sort-Distinct _ (unknown_keys-Distinct known ks l.distinct_keys)) l.distinct_order
              (λ k h.
                ground (
                  arith,
                  contains-sort k (unknown_keys known ks),
                  contains-unknown_keys k known ks,
                ));
        known = λ k h. ground (
          arith,
          contains-append k fresh known,
          contains-sort k (unknown_keys known ks),
          contains-unknown_keys k known ks,
          l.known k,
        );
        ordered = λ k h. ground (
          arith,
          contains-append k fresh known,
          contains-sort k (unknown_keys known ks),
          contains-unknown_keys k known ks,
        );
      })
    ]

-- The keys that an order list does not name, each once and in ascending order.
pub record IsUnlisted (m : List (Bytes × Bytes)) (order unlisted : List Bytes) : Type 0 where
  pub ascending : IsAscending unlisted
  pub distinct : Distinct unlisted
  pub members : (k : Bytes) → contains k unlisted ≡ (contains k (keys m) && not (contains k order))

pub adopt_unordered_skipped_keys_lem :
    (s : RatchetState)
    → IsLoaded s
    → (unlisted : List Bytes) × IsUnlisted s.skipped_keys s.skipped_key_order unlisted
      × ((adopt_unordered_skipped_keys s).skipped_key_order ≡ unlisted ++ s.skipped_key_order)
unfolding adopt_unordered_skipped_keys contains
adopt_unordered_skipped_keys_lem s l =
    let known = s.skipped_key_order in
    let ks = keys s.skipped_keys in
    elim (Bool-cases (length known == length s.skipped_keys)) [
      | inl same ↦
          let all =
            IsWithin-of_length known ks l.distinct_order l.known
              (ground (arith, length-keys s.skipped_keys)) in
          rw same (
            [],
            record { ascending = tt; distinct = tt; members = λ k. ground (arith, all k) },
            refl,
          )
      | inr differ ↦ rw differ (
        sort (unknown_keys known ks),
        record {
          ascending = sort-IsAscending (unknown_keys known ks);
          distinct = sort-Distinct _ (unknown_keys-Distinct known ks l.distinct_keys);
          members = λ k.
              ground
                (arith, contains-sort k (unknown_keys known ks), contains-unknown_keys k known ks);
        },
        refl,
      )
    ]

-- What the loop leaves: the invariant again, as many entries as the cap allows, the end of the
-- order list, and under each key that it still lists the value from before.
pub record IsEvicted (order : List Bytes) (m : List (Bytes × Bytes))
    (e : List Bytes × List (Bytes × Bytes)) : Type 0 where
  pub listed : IsListed e.0 e.1
  pub count : length e.1 + (length m - max_skipped_keys) ≡ length m
  pub oldest_first : e.0 ≡ drop (length m - max_skipped_keys) order
  pub values : (k : Bytes) → lookup k e.1 ≡ (if contains k e.0 then lookup k m else none)

listed_values :
    {order : List Bytes} {m : List (Bytes × Bytes)}
    → IsListed order m
    → (k : Bytes) → lookup k m ≡ (if contains k order then lookup k m else none)
listed_values {order} {m} l k = elim (Bool-cases (contains k order)) [
  | inl listed ↦ rw listed
  | inr absent ↦ rw absent (
      lookup-eq-none k m (elim (Bool-cases (contains k (keys m))) [
        | inl there ↦ cc (l.ordered k there)
        | inr away ↦ away
      ]))
]

drop-nil : (n : ℕ) → ◌≡◌ {A = List Bytes} [] (drop n [])
drop-nil zero = refl
drop-nil (suc n) = refl

drop-pos : (n : ℕ) (k : Bytes) (ks : List Bytes) → 0 < n → drop (n - 1) ks ≡ drop n (k ∷ ks)
drop-pos zero k ks h = absurd (omega arith)
drop-pos (suc n) k ks h = let e : suc n - 1 ≡ n = omega arith in rw e

evict_loop_lem :
    (order : List Bytes) (m : List (Bytes × Bytes))
    → IsListed order m
    → IsEvicted order m (evict_loop order m)
unfolding evict_loop contains
evict_loop_lem [] m l = record {
  listed = l;
  count = omega (arith, IsListed-length l);
  oldest_first = drop-nil (length m - max_skipped_keys);
  values = listed_values l;
}
evict_loop_lem (oldest ∷ order) m l =
    let rest = IsListed-tail l in
    let ih = evict_loop_lem order (remove oldest m) rest in
    let len = length-remove oldest m (l.known oldest (rw (bytes_eq_refl oldest))) in
    elim (Bool-cases (leb (length m) max_skipped_keys)) [
      | inl fits ↦
          let over : length m - max_skipped_keys ≡ 0 = ground arith in
          rw fits (record {
            listed = l;
            count = omega arith;
            oldest_first = rw over;
            values = listed_values l;
          })
      | inr exceeds ↦
          let more : max_skipped_keys < length m = ground arith in
          rw exceeds (record {
            listed = ih.listed;
            count = omega (arith, ih.count);
            oldest_first =
                ih.oldest_first
                ∙ (let e : length (remove oldest m) - max_skipped_keys
                        ≡ length m - max_skipped_keys - 1 =
                      omega (arith, len) in
                    rw e (drop-pos (length m - max_skipped_keys) oldest order (omega arith)));
            values = λ k. ground (
              arith,
              ih.values k,
              lookup-remove oldest k m l.distinct_keys,
              ih.listed.known k,
              contains-keys_of_none k (evict_loop order (remove oldest m)).1,
            );
          })
    ]

-- The state after eviction, over the order list that adoption leaves.
abbrev pub adopted : RatchetState → List Bytes
adopted s = (adopt_unordered_skipped_keys s).skipped_key_order

adopt_keeps_keys :
    (s : RatchetState) → (adopt_unordered_skipped_keys s).skipped_keys ≡ s.skipped_keys
unfolding adopt_unordered_skipped_keys
adopt_keeps_keys s = ground arith

pub evict_over :
    (s : RatchetState)
    → IsLoaded s
    → max_skipped_keys < length s.skipped_keys
    → let e = evict_oldest_skipped_keys s in
      IsEvicted (adopted s) s.skipped_keys (e.skipped_key_order, e.skipped_keys)
unfolding evict_oldest_skipped_keys
evict_over s l over =
    let more : leb (length s.skipped_keys) max_skipped_keys ≡ false = ground arith in
    rw (more, adopt_keeps_keys s) (evict_loop_lem (adopted s) s.skipped_keys (adopt-IsListed s l))
