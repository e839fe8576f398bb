-- ===== src/Vault/Serial/Legacy.antt =====
-- Vaults from before the time of retirement was stored: `legacy_retired_at` of src/vault.rs finds it.
use trino_core.Prelude.{
  ℕ, ◌≤◌, ◌<◌, ◌≡◌, refl, sym, ◌∙◌, none, some, ok, List, [], ◌∷◌, map, Bytes, AreBytes, All, arith,
  Option-cases, inl, inr,
}
use trino_core.Primitives.{Primitives, HexLaws}
use trino_core.Identity.Prekeys.{SignedPreKey, RetiredSignedPreKey, Identity}
use trino_core.Identity.Prekeys.Rotation.{first_of, AreLinked}
use trino_core.Vault.Serial.{
  SerializedSignedPreKey, prekey_to_ser, deserialize_identity, next_above, legacy_retired_at, snoc,
}
use trino_core.Vault.Serial.Laws.{IsSized, stored_as, stored_lem}

abbrev Ascends : ℕ → List SerializedSignedPreKey → Type 0
Ascends n [] = Unit
Ascends n (x ∷ xs) = (n < x.id) × Ascends x.id xs

above_lem :
    (k n : ℕ) (xs : List SerializedSignedPreKey) (z : SerializedSignedPreKey)
    → Ascends n xs
    → next_above k xs ≡ some z
    → n < z.id
unfolding next_above
above_lem k n [] z a e = absurd (ground arith)
above_lem k n (x ∷ xs) z a e = elim (Option-cases (next_above k xs)) [
  | inl absent ↦ ground arith
  | inr (y, found) ↦ ground (arith, above_lem k x.id xs y a.1 found)
]

-- In ascending order the first key above is the next one.
next_lem :
    (k : ℕ) (x : SerializedSignedPreKey) (xs : List SerializedSignedPreKey)
    → k < x.id
    → Ascends x.id xs
    → next_above k (x ∷ xs) ≡ some x
unfolding next_above
next_lem k x xs h a = elim (Option-cases (next_above k xs)) [
  | inl absent ↦ ground arith
  | inr (y, found) ↦ ground (arith, above_lem k x.id xs y a found)
]

module _ (p : Primitives) where
  abbrev bare : List RetiredSignedPreKey → List SerializedSignedPreKey
  bare rs = map (λ r. prekey_to_ser p r.prekey none) rs

  abbrev chain : List RetiredSignedPreKey → SignedPreKey → List SerializedSignedPreKey
  chain rs current = snoc (bare rs) (prekey_to_ser p current none)

  chain-Ascends :
      (n : ℕ) (rs : List RetiredSignedPreKey) (current : SignedPreKey)
      → n < (first_of rs current).id
      → AreLinked rs current
      → Ascends n (chain rs current)
  chain-Ascends n [] current h l = (h, tt)
  chain-Ascends n (r ∷ rs) current h l = (h, chain-Ascends r.prekey.id rs current l.0 l.2)

  next-chain :
      (k : ℕ) (rs : List RetiredSignedPreKey) (current : SignedPreKey)
      → k < (first_of rs current).id
      → AreLinked rs current
      → next_above k (chain rs current) ≡ some (prekey_to_ser p (first_of rs current) none)
  next-chain k [] current h l = next_lem k (prekey_to_ser p current none) [] h tt
  next-chain k (r ∷ rs) current h l =
      next_lem k (prekey_to_ser p r.prekey none) (chain rs current) h
        (chain-Ascends r.prekey.id rs current l.0 l.2)

  -- Keys up to `k` play no part in the search above `k`.
  next_skip :
      (k : ℕ) (r : RetiredSignedPreKey) (rs : List RetiredSignedPreKey) (current : SignedPreKey)
      → r.prekey.id ≤ k
      → next_above k (chain (r ∷ rs) current) ≡ next_above k (chain rs current)
  unfolding next_above
  next_skip k r rs current h = ground arith

  -- For the keys of a part of the list, if those before it play no part.
  found :
      (whole rs : List RetiredSignedPreKey) (current : SignedPreKey)
      → ((k : ℕ)
          → (first_of rs current).id ≤ k
          → next_above k (chain whole current) ≡ next_above k (chain rs current))
      → AreLinked rs current
      → All
          (λ r.
            legacy_retired_at r.prekey.id (bare whole) (prekey_to_ser p current none)
            ≡ r.retired_at)
          rs
  unfolding legacy_retired_at
  found whole [] current skip l = tt
  found whole (r ∷ rs) current skip l =
      let next : next_above r.prekey.id (chain whole current)
          ≡ some (prekey_to_ser p (first_of rs current) none) =
        skip r.prekey.id (omega arith)
        ∙ next_skip r.prekey.id r rs current (omega arith)
        ∙ next-chain r.prekey.id rs current l.0 l.2 in
      (
        rw (next, legacy_retired_at) (sym l.1),
        found whole rs current
            (λ k h.
              skip k (omega (arith, h, l.0)) ∙ next_skip k r rs current (omega (arith, h, l.0)))
            l.2,
      )

  -- Given what the hex crate promises: an identity, whose keys and signatures have their sizes,
  -- and of which every rotation retired a key at the moment when it made the next one, with a
  -- higher id, comes back with all times of retirement from a vault that did not store them.
  pub deserialize_identity-legacy :
      (hex : HexLaws p) (identity : Identity) (totp_secret : Bytes)
      → IsSized identity
      → AreBytes totp_secret
      → AreLinked identity.retired_signed_prekeys identity.signed_prekey
      → deserialize_identity p (stored_as p (λ _. none) identity totp_secret)
        ≡ ok (identity, totp_secret)
  deserialize_identity-legacy hex identity totp_secret v b l =
      stored_lem p hex (λ _. none) identity totp_secret v b
        (found identity.retired_signed_prekeys identity.retired_signed_prekeys
          identity.signed_prekey (λ k h. refl) l)
