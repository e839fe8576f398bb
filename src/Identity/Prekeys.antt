-- ===== src/Identity/Prekeys.antt =====
-- Prekeys of src/identity.rs: creation, rotation and retention, lookup, one-time use.
pub mod Rotation
pub mod OneTime
use trino_core.Prelude.{
  ℕ, zero, suc, ◌+◌, ◌-◌, ◌*◌, ◌%◌, ◌^◌, max, Option, some, none, List, [], ◌∷◌, ◌++◌, ◌==◌, ltb,
  not, if◌then◌else◌, Bool, true, false, Bytes, length, ◌||◌,
}
use trino_core.Prelude.Int.{ℤ, pos, sub_i64, ltb_ℤ, leb_ℤ}
use trino_core.Primitives.{Primitives, Rng}
use trino_core.Identity.Keys.{
  KeyPair, generate_ed25519, generate_x25519, generate_nostr_keypair, ed25519_sign,
}

abbrev pub opk_count : ℕ
opk_count = 50

-- Two days, and thirty.
abbrev pub spk_rotation_secs : ℤ
spk_rotation_secs = pos (2 * 24 * 60 * 60)

abbrev pub spk_retention_secs : ℤ
spk_retention_secs = pos (30 * 24 * 60 * 60)

pub record SignedPreKey : Type 0 where
  pub id : ℕ
  pub keypair : KeyPair
  pub signature : Bytes
  pub created_at : ℤ

pub record RetiredSignedPreKey : Type 0 where
  pub prekey : SignedPreKey
  pub retired_at : ℤ

pub record OneTimePreKey : Type 0 where
  pub id : ℕ
  pub keypair : KeyPair

pub record Identity : Type 0 where
  pub ik_sign : KeyPair
  pub ik_dh : KeyPair
  pub nostr : KeyPair
  pub signed_prekey : SignedPreKey
  pub one_time_prekeys : List OneTimePreKey
  pub retired_signed_prekeys : List RetiredSignedPreKey

module _ (p : Primitives) where
  -- `create_signed_prekey` is this at the present time.
  unfoldable pub signed_prekey_created_at : KeyPair → ℕ → ℤ → Rng → SignedPreKey × Rng
  signed_prekey_created_at ik_sign id created_at r =
      let (keypair, r') = generate_x25519 p r in
      (
        record {
          id = id;
          keypair = keypair;
          signature = ed25519_sign p ik_sign keypair.pub_bytes;
          created_at = created_at;
        },
        r',
      )

  -- `count` prekeys, with the `u32` ids `start_id`, `start_id + 1` and so on.
  unfoldable pub create_one_time_prekeys : ℕ → ℕ → Rng → List OneTimePreKey × Rng
  create_one_time_prekeys start_id zero r = ([], r)
  create_one_time_prekeys start_id (suc count) r =
      let (keypair, r') = generate_x25519 p r in
      let (rest, r'') = create_one_time_prekeys ((start_id + 1) % 2 ^ 32) count r' in
      (record { id = start_id; keypair = keypair } ∷ rest, r'')

  -- With fuel for the draws of the Nostr key; `now` is the clock.
  unfoldable pub create_identity : ℕ → ℤ → Rng → Option Identity × Rng
  create_identity fuel now r0 =
      let (ik_sign, r1) = generate_ed25519 p r0 in
      let (ik_dh, r2) = generate_x25519 p r1 in
      let (drawn, r3) = generate_nostr_keypair p fuel r2 in
      let (signed_prekey, r4) = signed_prekey_created_at ik_sign 1 now r3 in
      let (one_time_prekeys, r5) = create_one_time_prekeys 1 opk_count r4 in
      (
        elim drawn [
          | none ↦ none
          | some nostr ↦ some (record {
            ik_sign = ik_sign;
            ik_dh = ik_dh;
            nostr = nostr;
            signed_prekey = signed_prekey;
            one_time_prekeys = one_time_prekeys;
            retired_signed_prekeys = [];
          })
        ],
        r5,
      )

find_retired : ℕ → List RetiredSignedPreKey → Option SignedPreKey
find_retired spk_id [] = none
find_retired spk_id (x ∷ xs) =
    if x.prekey.id == spk_id then some x.prekey else find_retired spk_id xs

unfoldable pub signed_prekey_by_id : Identity → ℕ → Option SignedPreKey
unfolding find_retired
signed_prekey_by_id identity spk_id =
    if identity.signed_prekey.id == spk_id
    then some identity.signed_prekey
    else find_retired spk_id identity.retired_signed_prekeys

-- `.map(|s| s.prekey.id).max().unwrap_or(0)`
max_id : List RetiredSignedPreKey → ℕ
max_id [] = 0
max_id (x ∷ xs) = max x.prekey.id (max_id xs)

-- `saturating_add(1)` on a `u32`.
abbrev pub saturating_succ : ℕ → ℕ
saturating_succ n = if ltb (n + 1) (2 ^ 32) then n + 1 else 2 ^ 32 - 1

unfoldable pub next_spk_id : Identity → ℕ
unfolding max_id
next_spk_id identity =
    saturating_succ (max identity.signed_prekey.id (max_id identity.retired_signed_prekeys))

unfoldable pub is_rotation_due : Identity → ℤ → Bool
is_rotation_due identity now =
    leb_ℤ spk_rotation_secs (sub_i64 now identity.signed_prekey.created_at)

unfoldable pub is_retained : ℤ → RetiredSignedPreKey → Bool
is_retained now spk = ltb_ℤ (sub_i64 now spk.retired_at) spk_retention_secs

-- `.retain(|spk| now - spk.retired_at < SPK_RETENTION_SECS)`
unfoldable pub retain_fresh : ℤ → List RetiredSignedPreKey → List RetiredSignedPreKey
retain_fresh now [] = []
retain_fresh now (x ∷ xs) =
    if is_retained now x then x ∷ retain_fresh now xs else retain_fresh now xs

-- The first half: the outgoing key is retired at `now`.
unfoldable pub rotate : Primitives → Identity → ℤ → Rng → Identity × Rng
rotate p identity now r =
    let (fresh, r') = signed_prekey_created_at p identity.ik_sign (next_spk_id identity) now r in
    (
      record identity {
        signed_prekey = fresh;
        retired_signed_prekeys =
            identity.retired_signed_prekeys
            ++ (record { prekey = identity.signed_prekey; retired_at = now } ∷ []);
      },
      r',
    )

-- The second half: expired keys are dropped.
unfoldable pub expire : Identity → ℤ → Identity × Bool
unfolding retain_fresh
expire identity now =
    let kept = retain_fresh now identity.retired_signed_prekeys in
    (
      record identity { retired_signed_prekeys = kept },
      not (length kept == length identity.retired_signed_prekeys),
    )

-- The identity afterwards, and whether anything changed.
unfoldable pub rotate_signed_prekey_if_due :
    Primitives → Identity → ℤ → Rng → (Identity × Bool) × Rng
rotate_signed_prekey_if_due p identity now r =
    if is_rotation_due identity now
    then (let (rotated, r') = rotate p identity now r in
        let (expired, dropped) = expire rotated now in ((expired, true), r'))
    else (expire identity now, r)

-- `position` and `remove` on the list of one-time prekeys.
take_prekey : ℕ → List OneTimePreKey → Option (OneTimePreKey × List OneTimePreKey)
take_prekey opk_id [] = none
take_prekey opk_id (x ∷ xs) =
    let rest = take_prekey opk_id xs in
    if x.id == opk_id
    then some (x, xs)
    else elim rest [ none ↦ none | some (found, others) ↦ some (found, x ∷ others) ]

unfoldable pub consume_one_time_prekey : Identity → ℕ → Option OneTimePreKey × Identity
unfolding take_prekey
consume_one_time_prekey identity opk_id = elim (take_prekey opk_id identity.one_time_prekeys) [
  | none ↦ (none, identity)
  | some (opk, others) ↦ (some opk, record identity { one_time_prekeys = others })
]
