-- ===== src/Identity/Lifetime.antt =====
-- The life of an identity of src/identity.rs: created once, then rotated and drawn from, while the
-- clock does not go back.
pub mod Retained
use trino_core.Prelude.{
  ℕ, zero, suc, ◌+◌, ◌≤◌, ◌<◌, ◌^◌, ◌≡◌, refl, sym, ap, ◌∙◌, none, some, true, false, Bool-cases,
  inl, inr, List, [], ◌∷◌, ◌++◌, All, arith,
}
use mathlib.Core.Path.{subst}
use trino_core.Prelude.Int.{ℤ, IsTime, pos_part, sub_i64-IsTime}
use trino_core.Primitives.{Primitives, Rng, CurveLaws, XOnlyLaws}
use trino_core.Identity.Prekeys.{
  SignedPreKey, RetiredSignedPreKey, Identity, create_identity, rotate_signed_prekey_if_due,
  consume_one_time_prekey, rotate, expire, retain_fresh, is_retained, is_rotation_due,
  signed_prekey_created_at, next_spk_id,
}
use trino_core.Identity.Prekeys.Rotation.{
  IsOrdered, first_of, AreLinked, All-snoc, is_retained-within, is_retained-past, next_spk_id_lem,
}
use trino_core.Identity.Lifetime.Retained.{
  Ascend, All-retain_fresh, retain_fresh-Ascend, retain_fresh-AreLinked, All-impl, Ascend-snoc,
  AreLinked-snoc,
}
use trino_core.Identity.Bundle.Laws.{IsWellFormed, IsSignedBy}
use trino_core.Identity.Creation.{create_identity-IsWellFormed, signed_prekey_created_at-IsSignedBy}

-- The identities that can come about in at most `n` rotations, the last at the time `last`.
pub data Lives (p : Primitives) : ℕ → ℤ → Identity → Type 0 where
  created :
      (fuel : ℕ) (now : ℤ) (r : Rng) (identity : Identity)
      → IsTime now
      → (create_identity p fuel now r).0 ≡ some identity
      → Lives p 0 now identity
  rotated :
      (n : ℕ) (last now : ℤ) (r : Rng) (identity : Identity)
      → IsTime now
      → pos_part last ≤ pos_part now
      → Lives p n last identity
      → Lives p (suc n) now (rotate_signed_prekey_if_due p identity now r).0.0
  consumed :
      (n : ℕ) (last : ℤ) (opk_id : ℕ) (identity : Identity)
      → Lives p n last identity
      → Lives p n last (consume_one_time_prekey identity opk_id).1

record IsSound (p : Primitives) (n : ℕ) (last : ℤ) (identity : Identity) : Type 0 where
  well : IsWellFormed p identity
  older : All (λ x. x.prekey.id < identity.signed_prekey.id) identity.retired_signed_prekeys
  times : All (λ x. IsTime x.retired_at) identity.retired_signed_prekeys
  created : IsTime identity.signed_prekey.created_at
  bound : identity.signed_prekey.id ≤ n + 1
  linked : AreLinked identity.retired_signed_prekeys identity.signed_prekey
  ascend : Ascend identity.retired_signed_prekeys
  past : All (λ x. pos_part x.retired_at ≤ pos_part last) identity.retired_signed_prekeys

IsSound-IsOrdered :
    (p : Primitives) (n : ℕ) (last : ℤ) (identity : Identity)
    → n + 2 < 2 ^ 32
    → IsSound p n last identity
    → IsOrdered identity
IsSound-IsOrdered p n last identity small h = record {
  older = h.older;
  small = omega (arith, h.bound);
  times = h.times;
  created = h.created;
}

module _ (p : Primitives) (curve : CurveLaws p) (x_only : XOnlyLaws p) where
  expire-IsSound :
      (n : ℕ) (last now : ℤ) (identity : Identity)
      → IsTime now
      → pos_part last ≤ pos_part now
      → IsSound p n last identity
      → IsSound p n now (expire identity now).0
  unfolding expire
  expire-IsSound n last now identity tn later h =
      let xs = identity.retired_signed_prekeys in
      record {
        well = record {
          sign = h.well.sign;
          dh = h.well.dh;
          dh_array = h.well.dh_array;
          nostr_array = h.well.nostr_array;
          prekey = h.well.prekey;
        };
        older = All-retain_fresh _ now xs h.older;
        times = All-retain_fresh _ now xs h.times;
        created = h.created;
        bound = h.bound;
        linked = retain_fresh-AreLinked now tn xs identity.signed_prekey h.times h.ascend h.linked;
        ascend = retain_fresh-Ascend now tn xs h.ascend;
        past =
            All-retain_fresh _ now xs
              (All-impl _ _ xs (λ x past. omega (arith, past, later)) h.past);
      }

  rotate-IsSound :
      (n : ℕ) (last now : ℤ) (r : Rng) (identity : Identity)
      → IsTime now
      → pos_part last ≤ pos_part now
      → n + 2 < 2 ^ 32
      → IsSound p n last identity
      → IsSound p (suc n) now (rotate p identity now r).0
  unfolding rotate signed_prekey_created_at
  rotate-IsSound n last now r identity tn later small h =
      let xs = identity.retired_signed_prekeys in
      let next = next_spk_id_lem identity (IsSound-IsOrdered p n last identity small h) in
      let past =
        All-impl _ (λ x. pos_part x.retired_at ≤ pos_part now) xs
          (λ x before. omega (arith, before, later)) h.past in
      record {
        well = record {
          sign = h.well.sign;
          dh = h.well.dh;
          dh_array = h.well.dh_array;
          nostr_array = h.well.nostr_array;
          prekey =
              signed_prekey_created_at-IsSignedBy p curve identity.ik_sign (next_spk_id identity)
                now r;
        };
        older =
            All-snoc _ xs _ (All-impl _ _ xs (λ x below. omega (arith, below, next)) h.older)
              (omega (arith, next));
        times = All-snoc _ xs _ h.times tn;
        created = tn;
        bound = omega (arith, next, h.bound);
        linked =
            AreLinked-snoc xs _ identity.signed_prekey _ h.linked refl (omega (arith, next)) refl;
        ascend = Ascend-snoc xs _ h.ascend past;
        past = All-snoc _ xs _ past (omega arith);
      }

  IsSound-next :
      (n : ℕ) (last : ℤ) (identity : Identity)
      → IsSound p n last identity
      → IsSound p (suc n) last identity
  IsSound-next n last identity h = record {
    well = h.well;
    older = h.older;
    times = h.times;
    created = h.created;
    bound = omega (arith, h.bound);
    linked = h.linked;
    ascend = h.ascend;
    past = h.past;
  }

  rotation-IsSound :
      (n : ℕ) (last now : ℤ) (r : Rng) (identity : Identity)
      → IsTime now
      → pos_part last ≤ pos_part now
      → n + 2 < 2 ^ 32
      → IsSound p n last identity
      → IsSound p (suc n) now (rotate_signed_prekey_if_due p identity now r).0.0
  unfolding rotate_signed_prekey_if_due
  rotation-IsSound n last now r identity tn later small h =
      elim (Bool-cases (is_rotation_due identity now)) [
        | inl due ↦ rw due (
            expire-IsSound (suc n) now now (rotate p identity now r).0 tn (omega arith)
              (rotate-IsSound n last now r identity tn later small h))
        | inr idle ↦ rw idle (
            IsSound-next n now (expire identity now).0
              (expire-IsSound n last now identity tn later h))
      ]

  consume_one_time_prekey_frame :
      (opk_id : ℕ) (identity : Identity)
      → (consume_one_time_prekey identity opk_id).1 ≡ record identity {
        one_time_prekeys = (consume_one_time_prekey identity opk_id).1.one_time_prekeys;
      }
  unfolding consume_one_time_prekey
  consume_one_time_prekey_frame opk_id identity = ground arith

  consume_one_time_prekey-IsSound :
      (n : ℕ) (last : ℤ) (opk_id : ℕ) (identity : Identity)
      → IsSound p n last identity
      → IsSound p n last (consume_one_time_prekey identity opk_id).1
  consume_one_time_prekey-IsSound n last opk_id identity h =
      subst (IsSound p n last) (sym (consume_one_time_prekey_frame opk_id identity)) (record {
        well = record {
          sign = h.well.sign;
          dh = h.well.dh;
          dh_array = h.well.dh_array;
          nostr_array = h.well.nostr_array;
          prekey = h.well.prekey;
        };
        older = h.older;
        times = h.times;
        created = h.created;
        bound = h.bound;
        linked = h.linked;
        ascend = h.ascend;
        past = h.past;
      })

  Lives-IsSound :
      (n : ℕ) (last : ℤ) (identity : Identity)
      → n + 1 < 2 ^ 32
      → Lives p n last identity
      → IsSound p n last identity
  Lives-IsSound _ _ _ small (created fuel now r identity time h) =
      let (well, ordered, first, none_retired) =
        create_identity-IsWellFormed p curve x_only fuel now r identity time h in
      record {
        well = well;
        older = ordered.older;
        times = ordered.times;
        created = ordered.created;
        bound = omega (arith, first);
        linked = rw none_retired tt;
        ascend = rw none_retired tt;
        past = rw none_retired tt;
      }
  Lives-IsSound _ _ _ small (rotated n last now r identity time later h) =
      rotation-IsSound n last now r identity time later (omega arith)
        (Lives-IsSound n last identity (omega arith) h)
  Lives-IsSound _ _ _ small (consumed n last opk_id identity h) =
      consume_one_time_prekey-IsSound n last opk_id identity (Lives-IsSound n last identity small h)

  -- Given what the x25519 and secp256k1 crates promise: every identity that comes about by
  -- creation, calls of rotate_signed_prekey_if_due at times that do not fall, fewer than 2^32 -
  -- 2 of them, and calls of consume_one_time_prekey, is well-formed, has its ids and times in
  -- order, and every retired prekey was retired when the next one was made, and not after the
  -- last call. Times are below 2^62.
  pub Lives-IsWellFormed :
      (n : ℕ) (last : ℤ) (identity : Identity)
      → n + 2 < 2 ^ 32
      → Lives p n last identity
      → IsWellFormed p identity
        × IsOrdered identity
        × AreLinked identity.retired_signed_prekeys identity.signed_prekey
        × All (λ x. pos_part x.retired_at ≤ pos_part last) identity.retired_signed_prekeys
  Lives-IsWellFormed n last identity small h =
      let sound = Lives-IsSound n last identity (omega arith) h in
      (sound.well, IsSound-IsOrdered p n last identity small sound, sound.linked, sound.past)
