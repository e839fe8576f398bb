-- ===== src/Tests/StoreRuns.antt =====
-- Runs of the theorems about the skipped-key store and the sessions of src/ratchet.rs.
use trino_core.Prelude.{
  ℕ, zero, suc, ◌-◌, ◌≤◌, ◌≡◌, refl, ap, false, none, List, [], ◌∷◌, Bytes, length, arith, contains,
  keys, lookup, bytes_eq, if◌then◌else◌, drop, Distinct, ◌++◌,
}
use trino_core.Ratchet.State.{RatchetState, EncryptedMessage, init_responder, max_skipped_keys}
use trino_core.Ratchet.Store.{evict_oldest_skipped_keys, bank_skipped_key}
use trino_core.Ratchet.Store.Bank.{IsStore, IsLoaded, IsLoadedStore, IsUnlisted}
use trino_core.Ratchet.Store.Cap.{evict_drops_oldest, bank_skipped_key-IsLoaded}
use trino_core.Ratchet.Session.{World, ratchet_decrypt}
use trino_core.Ratchet.Session.Invariant.{IsValid}
use trino_core.Ratchet.Session.Reachable.{
  Reachable, responder, follows, decrypts, Reachable-IsValid,
}
use trino_core.Tests.Toy.{toy}
use trino_core.Tests.Runs.{receiver, rng, own, pair, shared}

-- A map with so many keys.
numbered : ℕ → List (Bytes × Bytes)
numbered zero = []
numbered (suc n) = (n ∷ [], n ∷ []) ∷ numbered n

length-numbered : (n : ℕ) → length (numbered n) ≡ n
unfolding numbered
length-numbered zero = refl
length-numbered (suc n) = ap suc (length-numbered n)

contains-numbered : (k n : ℕ) → n ≤ k → contains (k ∷ []) (keys (numbered n)) ≡ false
unfolding numbered contains bytes_eq
contains-numbered k zero h = refl
contains-numbered k (suc n) h = ground (arith, contains-numbered k n)

distinct : (n : ℕ) → Distinct (keys (numbered n))
unfolding numbered
distinct zero = tt
distinct (suc n) = (contains-numbered n n (omega arith), distinct n)

numbered-IsLoadedStore : (n : ℕ) → IsLoadedStore (numbered n) []
unfolding contains
numbered-IsLoadedStore n = record {
  distinct_keys = distinct n;
  distinct_order = tt;
  known = λ k h. absurd (ground arith);
}

-- A session that was sealed before there was an order list, with one key too many.
legacy : RatchetState
legacy = record receiver { skipped_keys = numbered 2001; skipped_key_order = [] }

legacy-IsLoaded : IsLoaded legacy
unfolding legacy
legacy-IsLoaded = numbered-IsLoadedStore 2001

evict_drops_oldest_example :
    let e = evict_oldest_skipped_keys legacy in
    IsStore e
    × (length e.skipped_keys ≡ max_skipped_keys)
    × ((unlisted : List Bytes) × IsUnlisted legacy.skipped_keys [] unlisted
        × (e.skipped_key_order
            ≡ drop (length legacy.skipped_keys - max_skipped_keys) (unlisted ++ [])))
    × ((k : Bytes)
        → lookup k e.skipped_keys
          ≡ (if contains k e.skipped_key_order then lookup k legacy.skipped_keys else none))
unfolding legacy
evict_drops_oldest_example =
    evict_drops_oldest legacy legacy-IsLoaded (omega (arith, length-numbered 2001))

bank_skipped_key-IsLoaded_example :
    IsLoaded (bank_skipped_key own shared legacy)
    × (length (bank_skipped_key own shared legacy).skipped_keys ≤ max_skipped_keys)
bank_skipped_key-IsLoaded_example = bank_skipped_key-IsLoaded own shared legacy legacy-IsLoaded

-- A responder's session, and a message to it that no key opens.
abbrev started : World
started = (init_responder shared pair, rng)

abbrev forged : EncryptedMessage
forged = record {
  header = record { dh_pub = toy.hex_encode own; pn = 0; n = 3 };
  nonce = [];
  ciphertext = [];
}

abbrev rejected : World
rejected = (ratchet_decrypt toy forged own started).1

rejected-Reachable : Reachable toy rejected
rejected-Reachable =
    follows started rejected (responder shared pair rng)
      (decrypts forged own started rejected (ratchet_decrypt toy forged own started).0 refl)

Reachable-IsValid_example : IsValid rejected.0
Reachable-IsValid_example = Reachable-IsValid toy rejected rejected-Reachable
