-- ===== src/Ratchet/Store.antt =====
-- The store of banked message keys of src/ratchet.rs: insertion, and eviction down to the cap.
pub mod Order
pub mod Bank
pub mod Cap
use trino_core.Prelude.{
  ℕ, suc, Bytes, List, [], ◌∷◌, ◌++◌, length, leb, ◌==◌, if◌then◌else◌, not, bytes_eq, contains,
  keys, insert, remove, Bool, true, false, ltb, ◌&&◌, ◌||◌,
}
use trino_core.Ratchet.State.{RatchetState, max_skipped_keys}

-- The order of `String`, byte by byte.
unfoldable pub bytes_leb : Bytes → Bytes → Bool
bytes_leb [] ys = true
bytes_leb (x ∷ xs) [] = false
bytes_leb (x ∷ xs) (y ∷ ys) = ltb x y || (x == y && bytes_leb xs ys)

-- `adopted.sort()`
pub insert_sorted : Bytes → List Bytes → List Bytes
insert_sorted x [] = x ∷ []
insert_sorted x (y ∷ ys) = if bytes_leb x y then x ∷ y ∷ ys else y ∷ insert_sorted x ys

pub sort : List Bytes → List Bytes
unfolding bytes_leb insert_sorted
sort [] = []
sort (x ∷ xs) = insert_sorted x (sort xs)

-- `.filter(|k| !known.contains(*k))`
pub unknown_keys : List Bytes → List Bytes → List Bytes
unknown_keys known [] = []
unknown_keys known (k ∷ ks) =
    if not (contains k known) then k ∷ unknown_keys known ks else unknown_keys known ks

unfoldable pub adopt_unordered_skipped_keys : RatchetState → RatchetState
unfolding unknown_keys sort
adopt_unordered_skipped_keys s =
    if length s.skipped_key_order == length s.skipped_keys then s else record s {
      skipped_key_order =
          sort (unknown_keys s.skipped_key_order (keys s.skipped_keys)) ++ s.skipped_key_order;
    }

-- The `while` of `evict_oldest_skipped_keys`; each round takes the first of the order list.
pub evict_loop : List Bytes → List (Bytes × Bytes) → List Bytes × List (Bytes × Bytes)
evict_loop [] m = ([], m)
evict_loop (oldest ∷ order) m =
    let rest = evict_loop order (remove oldest m) in
    if leb (length m) max_skipped_keys then (oldest ∷ order, m) else rest

unfoldable pub evict_oldest_skipped_keys : RatchetState → RatchetState
unfolding evict_loop adopt_unordered_skipped_keys
evict_oldest_skipped_keys s =
    if leb (length s.skipped_keys) max_skipped_keys
    then s
    else (let a = adopt_unordered_skipped_keys s in
        let (order, m) = evict_loop a.skipped_key_order a.skipped_keys in
        record a { skipped_keys = m; skipped_key_order = order })

unfoldable pub bank_skipped_key : Bytes → Bytes → RatchetState → RatchetState
bank_skipped_key id mk s = evict_oldest_skipped_keys (record s {
  skipped_keys = insert id mk s.skipped_keys;
  skipped_key_order =
      if contains id (keys s.skipped_keys)
      then s.skipped_key_order
      else s.skipped_key_order ++ (id ∷ []);
})

-- `skipped_key_order.retain(|k| k != &id)`
pub retain_ne : Bytes → List Bytes → List Bytes
retain_ne id [] = []
retain_ne id (k ∷ ks) = if not (bytes_eq k id) then k ∷ retain_ne id ks else retain_ne id ks

-- The two writes of `try_skipped_message_key` after a successful decryption.
unfoldable pub forget_skipped_key : Bytes → RatchetState → RatchetState
unfolding retain_ne
forget_skipped_key id s = record s {
  skipped_keys = remove id s.skipped_keys;
  skipped_key_order = retain_ne id s.skipped_key_order;
}
