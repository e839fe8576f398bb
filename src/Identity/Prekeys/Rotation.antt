-- ===== src/Identity/Prekeys/Rotation.antt =====
-- Rotation and retention of signed prekeys: which of them a handshake can still name.
use trino_core.Prelude.{
  ℕ, suc, ◌+◌, ◌≤◌, ◌<◌, ◌^◌, ◌≡◌, refl, ap, ◌∙◌, Option, some, none, List, [], ◌∷◌, ◌++◌, ◌==◌,
  if◌then◌else◌, true, false, arith, All, Bool-cases, inl, inr,
}
use trino_core.Prelude.Int.{ℤ, pos_part, sub_i64-IsTime, IsTime}
use trino_core.Primitives.{Primitives, Rng}
use trino_core.Identity.Prekeys.{
  SignedPreKey, RetiredSignedPreKey, Identity, find_retired, signed_prekey_by_id, max_id,
  next_spk_id, is_rotation_due, is_retained, retain_fresh, rotate, expire,
  rotate_signed_prekey_if_due, signed_prekey_created_at,
}

-- Thirty days after a key was retired have not passed, or have.
abbrev pub IsWithinRetention : ℤ → RetiredSignedPreKey → Type 0
IsWithinRetention now x = pos_part now < pos_part x.retired_at + 2592000

abbrev pub IsPastRetention : ℤ → RetiredSignedPreKey → Type 0
IsPastRetention now x = pos_part x.retired_at + 2592000 ≤ pos_part now

-- Ids only grow, and all times are times.
pub record IsOrdered (identity : Identity) : Type 0 where
  pub older : All (λ x. x.prekey.id < identity.signed_prekey.id) identity.retired_signed_prekeys
  pub small : identity.signed_prekey.id + 1 < 2 ^ 32
  pub times : All (λ x. IsTime x.retired_at) identity.retired_signed_prekeys
  pub created : IsTime identity.signed_prekey.created_at

-- The key that follows a retired one.
abbrev pub first_of : List RetiredSignedPreKey → SignedPreKey → SignedPreKey
first_of [] current = current
first_of (r ∷ rs) current = r.prekey

-- Every rotation retired a key at the moment when it made the next one, with a higher id.
abbrev pub AreLinked : List RetiredSignedPreKey → SignedPreKey → Type 0
AreLinked [] current = Unit
AreLinked (r ∷ rs) current =
    (r.prekey.id < (first_of rs current).id)
    × (r.retired_at ≡ (first_of rs current).created_at)
    × AreLinked rs current

pub is_retained-within :
    (now : ℤ) (x : RetiredSignedPreKey)
    → IsTime now
    → IsTime x.retired_at
    → IsWithinRetention now x
    → is_retained now x ≡ true
unfolding is_retained
is_retained-within now x tn tx h = ground (arith, sub_i64-IsTime now x.retired_at tn tx)

pub is_retained-past :
    (now : ℤ) (x : RetiredSignedPreKey)
    → IsTime now
    → IsTime x.retired_at
    → IsPastRetention now x
    → is_retained now x ≡ false
unfolding is_retained
is_retained-past now x tn tx h = ground (arith, sub_i64-IsTime now x.retired_at tn tx)

module _ (k : ℕ) (now : ℤ) (tn : IsTime now) where
  find_retained :
      (xs : List RetiredSignedPreKey)
      → All (λ x. IsTime x.retired_at) xs
      → All (λ x. x.prekey.id ≡ k → IsWithinRetention now x) xs
      → find_retired k (retain_fresh now xs) ≡ find_retired k xs
  unfolding find_retired retain_fresh
  find_retained [] ts h = refl
  find_retained (x ∷ xs) ts h =
      ground (arith, find_retained xs ts.1 h.1, is_retained-within now x tn ts.0, h.0)

  find_expired :
      (xs : List RetiredSignedPreKey)
      → All (λ x. IsTime x.retired_at) xs
      → All (λ x. x.prekey.id ≡ k → IsPastRetention now x) xs
      → find_retired k (retain_fresh now xs) ≡ none
  unfolding find_retired retain_fresh
  find_expired [] ts h = refl
  find_expired (x ∷ xs) ts h =
      ground (arith, find_expired xs ts.1 h.1, is_retained-past now x tn ts.0, h.0)

max_id-older :
    (n : ℕ) (xs : List RetiredSignedPreKey) → All (λ x. x.prekey.id < n) xs → max_id xs ≤ n
unfolding max_id
max_id-older n [] h = omega arith
max_id-older n (x ∷ xs) h = omega (arith, max_id-older n xs h.1)

-- The id of a fresh key is the next one.
pub next_spk_id_lem :
    (identity : Identity)
    → IsOrdered identity
    → next_spk_id identity ≡ suc identity.signed_prekey.id
unfolding next_spk_id
next_spk_id_lem identity o =
    ground (arith, max_id-older identity.signed_prekey.id identity.retired_signed_prekeys o.older)

abbrev or_else : Option SignedPreKey → Option SignedPreKey → Option SignedPreKey
or_else none other = other
or_else (some x) other = some x

find_retired-snoc :
    (k : ℕ) (xs : List RetiredSignedPreKey) (y : RetiredSignedPreKey)
    → find_retired k (xs ++ (y ∷ []))
      ≡ or_else (find_retired k xs) (if y.prekey.id == k then some y.prekey else none)
unfolding find_retired
find_retired-snoc k [] y = refl
find_retired-snoc k (x ∷ xs) y = ground (arith, find_retired-snoc k xs y)

find_retired-older :
    (n : ℕ) (xs : List RetiredSignedPreKey)
    → All (λ x. x.prekey.id < n) xs
    → find_retired n xs ≡ none
unfolding find_retired
find_retired-older n [] h = refl
find_retired-older n (x ∷ xs) h = ground (arith, find_retired-older n xs h.1)

pub All-snoc {ℓ κ} :
    {A : Type ℓ} (P : A → Type κ) (xs : List A) (y : A) → All P xs → P y → All P (xs ++ (y ∷ []))
All-snoc P [] y h p = (p, tt)
All-snoc P (x ∷ xs) y h p = (h.0, All-snoc P xs y h.1 p)

module _ (p : Primitives) (identity : Identity) (now : ℤ) (r : Rng) where
  -- The outgoing key, as it is retired, and the list with it.
  outgoing : RetiredSignedPreKey
  outgoing = record { prekey = identity.signed_prekey; retired_at = now }

  listed : List RetiredSignedPreKey
  listed = identity.retired_signed_prekeys ++ (outgoing ∷ [])

  abbrev after : Identity
  after = (rotate_signed_prekey_if_due p identity now r).0.0

  due_lem :
      is_rotation_due identity now ≡ true
      → (rotate_signed_prekey_if_due p identity now r).0.0
        ≡ (expire (rotate p identity now r).0 now).0
  unfolding rotate_signed_prekey_if_due
  due_lem due = rw due

  idle_lem :
      is_rotation_due identity now ≡ false
      → (rotate_signed_prekey_if_due p identity now r).0.0 ≡ (expire identity now).0
  unfolding rotate_signed_prekey_if_due
  idle_lem idle = rw idle

  after_due :
      is_rotation_due identity now ≡ true
      → (after.signed_prekey.id ≡ next_spk_id identity)
        × (after.retired_signed_prekeys ≡ retain_fresh now listed)
  unfolding listed outgoing rotate expire signed_prekey_created_at
  after_due due =
      (ap (λ i. i.signed_prekey.id) (due_lem due), ap (λ i. i.retired_signed_prekeys) (due_lem due))

  after_idle :
      is_rotation_due identity now ≡ false
      → (after.signed_prekey ≡ identity.signed_prekey)
        × (after.retired_signed_prekeys ≡ retain_fresh now identity.retired_signed_prekeys)
  unfolding expire
  after_idle idle = (
    ap (λ i. i.signed_prekey) (idle_lem idle),
    ap (λ i. i.retired_signed_prekeys) (idle_lem idle),
  )

  module _ (o : IsOrdered identity) (tn : IsTime now) where
    -- Among the keys that are listed once one is retired, the outgoing key counts as retired now.
    find_listed :
        (k : ℕ)
        → k ≤ identity.signed_prekey.id
        → find_retired k listed ≡ signed_prekey_by_id identity k
    unfolding listed outgoing signed_prekey_by_id
    find_listed k h = ground (
      arith,
      find_retired-snoc k identity.retired_signed_prekeys outgoing,
      find_retired-older identity.signed_prekey.id identity.retired_signed_prekeys o.older,
    )

    listed_times : All (λ x. IsTime x.retired_at) listed
    unfolding listed outgoing
    listed_times = All-snoc (λ x. IsTime x.retired_at) identity.retired_signed_prekeys _ o.times tn

    listed_within :
        (k : ℕ)
        → All (λ x. x.prekey.id ≡ k → IsWithinRetention now x) identity.retired_signed_prekeys
        → All (λ x. x.prekey.id ≡ k → IsWithinRetention now x) listed
    unfolding listed outgoing
    listed_within k within =
        All-snoc (λ x. x.prekey.id ≡ k → IsWithinRetention now x) identity.retired_signed_prekeys _
          within (λ e. omega arith)

    -- The fresh key has an id of its own.
    renamed :
        (k : ℕ)
        → is_rotation_due identity now ≡ true
        → k ≤ identity.signed_prekey.id
        → signed_prekey_by_id after k ≡ find_retired k after.retired_signed_prekeys
    unfolding signed_prekey_by_id
    renamed k due h =
        let differs : (after.signed_prekey.id == k) ≡ false =
          ground (arith, (after_due due).0, next_spk_id_lem identity o) in
        rw differs

    due_lookup :
        (k : ℕ)
        → is_rotation_due identity now ≡ true
        → k ≤ identity.signed_prekey.id
        → All (λ x. x.prekey.id ≡ k → IsWithinRetention now x) identity.retired_signed_prekeys
        → signed_prekey_by_id after k ≡ signed_prekey_by_id identity k
    due_lookup k due h within =
        renamed k due h
        ∙ (rw (after_due due).1 refl)
        ∙ find_retained k now tn listed listed_times (listed_within k within)
        ∙ find_listed k h

    idle_lookup :
        (k : ℕ)
        → is_rotation_due identity now ≡ false
        → All (λ x. x.prekey.id ≡ k → IsWithinRetention now x) identity.retired_signed_prekeys
        → signed_prekey_by_id after k ≡ signed_prekey_by_id identity k
    unfolding signed_prekey_by_id
    idle_lookup k idle within = rw (
      (after_idle idle).0,
      (after_idle idle).1,
      find_retained k now tn identity.retired_signed_prekeys o.times within,
    )

    -- With ids that only grew and times that do not overflow: for an id up to the current one,
    -- of which every retired prekey was retired less than thirty days ago, the rotation, due or
    -- not, leaves the prekey that is found as it was, also the one that it retires itself.
    pub rotation_keeps :
        (k : ℕ)
        → k ≤ identity.signed_prekey.id
        → All (λ x. x.prekey.id ≡ k → IsWithinRetention now x) identity.retired_signed_prekeys
        → signed_prekey_by_id (rotate_signed_prekey_if_due p identity now r).0.0 k
          ≡ signed_prekey_by_id identity k
    rotation_keeps k h within = elim (Bool-cases (is_rotation_due identity now)) [
      | inl due ↦ due_lookup k due h within
      | inr idle ↦ idle_lookup k idle within
    ]

    outgoing_differs : (k : ℕ) → k < identity.signed_prekey.id → outgoing.prekey.id ≡ k → ⊥
    unfolding outgoing
    outgoing_differs k h e = omega arith

    -- With ids that only grew and times that do not overflow: for an id below the current one,
    -- of which every retired prekey was retired thirty days ago or more, nothing is found after
    -- the rotation, due or not.
    pub rotation_drops :
        (k : ℕ)
        → k < identity.signed_prekey.id
        → All (λ x. x.prekey.id ≡ k → IsPastRetention now x) identity.retired_signed_prekeys
        → signed_prekey_by_id (rotate_signed_prekey_if_due p identity now r).0.0 k ≡ none
    unfolding signed_prekey_by_id listed
    rotation_drops k h past = elim (Bool-cases (is_rotation_due identity now)) [
      | inl due ↦
          renamed k due (omega arith)
          ∙ (rw (after_due due).1 refl)
          ∙ find_expired k now tn listed listed_times (
              All-snoc (λ x. x.prekey.id ≡ k → IsPastRetention now x)
                identity.retired_signed_prekeys outgoing past
                (λ e. absurd (outgoing_differs k h e)))
      | inr idle ↦
          let differs : (identity.signed_prekey.id == k) ≡ false = ground arith in
          rw ((after_idle idle).0, (after_idle idle).1, differs)
            (find_expired k now tn identity.retired_signed_prekeys o.times past)
    ]
