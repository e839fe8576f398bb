-- ===== src/Identity/Creation.antt =====
-- `create_identity` of src/identity.rs: enough fuel for the loop that draws the Nostr key, and what
-- comes of it.
use trino_core.Prelude.{
  ℕ, zero, suc, ◌+◌, ◌%◌, ◌^◌, ◌<◌, ◌≡◌, refl, ap, Option, some, none, Option-cases, inl, inr,
  Bytes, arith, length, [],
}
use mathlib.Core.Path.{subst}
use trino_core.Prelude.Int.{ℤ, IsTime}
use trino_core.Primitives.{Primitives, Rng, CurveLaws, XOnlyLaws}
use trino_core.Crypto.{random_array}
use trino_core.Identity.Keys.{KeyPair, generate_ed25519, generate_x25519, generate_nostr_keypair}
use trino_core.Identity.Keys.Laws.{generate_x25519-IsX25519}
use trino_core.Identity.Prekeys.{
  Identity, create_identity, create_one_time_prekeys, opk_count, signed_prekey_created_at,
}
use trino_core.Identity.Prekeys.Rotation.{IsOrdered}
use trino_core.Identity.Bundle.Laws.{IsArray32, IsSignedBy, IsWellFormed}

-- The secret key that the loop draws after `k` others, and the generator behind it.
pub nth_draw : ℕ → Rng → Bytes × Rng
nth_draw zero r = random_array 32 r
nth_draw (suc k) r = nth_draw k (random_array 32 r).1

module _ (p : Primitives) where
  -- The loop ends at the latest with a key that is accepted, whatever fuel is left.
  pub generate_nostr_keypair_total :
      (k fuel : ℕ) (r : Rng) (x : Bytes)
      → p.x_only_public (nth_draw k r).0 ≡ some x
      → k < fuel
      → (kp : KeyPair) × (r' : Rng) × (generate_nostr_keypair p fuel r ≡ (some kp, r'))
        × (generate_nostr_keypair p (suc k) r ≡ (some kp, r'))
        × (p.x_only_public kp.priv_bytes ≡ some kp.pub_bytes)
  unfolding generate_nostr_keypair nth_draw
  generate_nostr_keypair_total k zero r x h below = absurd (omega arith)
  generate_nostr_keypair_total zero (suc fuel) r x h below = (
    record { priv_bytes = (random_array 32 r).0; pub_bytes = x },
    (random_array 32 r).1,
    ground arith,
    ground arith,
    h,
  )
  generate_nostr_keypair_total (suc k) (suc fuel) r x h below =
      let (priv_bytes, r') = random_array 32 r in
      elim (Option-cases (p.x_only_public priv_bytes)) [
        | inl refused ↦
            let (kp, r'', e, e', accepted) =
              generate_nostr_keypair_total k fuel r' x h (omega arith) in
            (
              kp,
              r'',
              rw (refused, generate_nostr_keypair) e,
              rw (refused, generate_nostr_keypair) e',
              accepted,
            )
        | inr (y, accepted) ↦ (
          record { priv_bytes = priv_bytes; pub_bytes = y },
          r',
          rw (accepted, generate_nostr_keypair) refl,
          rw (accepted, generate_nostr_keypair) refl,
          accepted,
        )
      ]

  x25519_array : CurveLaws p → (r : Rng) → IsArray32 (generate_x25519 p r).0.pub_bytes
  x25519_array curve r =
      let pair = generate_x25519-IsX25519 p curve r in
      rw pair (
        curve.public-AreBytes (generate_x25519 p r).0.priv_bytes,
        curve.length-public (generate_x25519 p r).0.priv_bytes,
      )

  -- A prekey of a new key pair, signed by the identity key.
  pub signed_prekey_created_at-IsSignedBy :
      CurveLaws p
      → (ik_sign : KeyPair) (id : ℕ) (now : ℤ) (r : Rng)
      → IsSignedBy p ik_sign (signed_prekey_created_at p ik_sign id now r).0
  unfolding signed_prekey_created_at
  signed_prekey_created_at-IsSignedBy curve ik_sign id now r = record {
    array = x25519_array curve r;
    curve = generate_x25519-IsX25519 p curve r;
    signed = refl;
  }

  length-create_one_time_prekeys :
      (start count : ℕ) (r : Rng) → length (create_one_time_prekeys p start count r).0 ≡ count
  unfolding create_one_time_prekeys
  length-create_one_time_prekeys start zero r = refl
  length-create_one_time_prekeys start (suc count) r =
      omega
        (arith, length-create_one_time_prekeys ((start + 1) % 2 ^ 32) count (generate_x25519 p r).1)

  -- The generator when the Nostr key is drawn.
  pub before_nostr : Rng → Rng
  before_nostr r = (generate_x25519 p (generate_ed25519 p r).1).1

  -- What is made once the Nostr key is drawn.
  pub create_identity_made :
      CurveLaws p
      → XOnlyLaws p
      → (fuel : ℕ) (now : ℤ) (r r3 : Rng) (nostr : KeyPair) → IsTime now
      → generate_nostr_keypair p fuel (before_nostr r) ≡ (some nostr, r3)
      → p.x_only_public nostr.priv_bytes ≡ some nostr.pub_bytes
      → (identity : Identity) × (r' : Rng) × (create_identity p fuel now r ≡ (some identity, r'))
        × IsWellFormed p identity
        × IsOrdered identity
        × (identity.signed_prekey.id ≡ 1)
        × (identity.retired_signed_prekeys ≡ [])
        × (length identity.one_time_prekeys ≡ 50)
  unfolding create_identity before_nostr generate_ed25519 signed_prekey_created_at
  create_identity_made curve x_only fuel now r r3 nostr time drawn accepted =
      let ik_sign = (generate_ed25519 p r).0 in
      let drawn' : generate_nostr_keypair p fuel (generate_x25519 p (generate_ed25519 p r).1).1
          ≡ (some nostr, r3) =
        drawn in
      let r1 = (generate_ed25519 p r).1 in
      let r4 = (signed_prekey_created_at p ik_sign 1 now r3).1 in
      (
        record {
          ik_sign = ik_sign;
          ik_dh = (generate_x25519 p r1).0;
          nostr = nostr;
          signed_prekey = (signed_prekey_created_at p ik_sign 1 now r3).0;
          one_time_prekeys = (create_one_time_prekeys p 1 opk_count r4).0;
          retired_signed_prekeys = [];
        },
        (create_one_time_prekeys p 1 opk_count r4).1,
        cc drawn',
        record {
          sign = refl;
          dh = generate_x25519-IsX25519 p curve r1;
          dh_array = x25519_array curve r1;
          nostr_array = (
            x_only.x_only-AreBytes nostr.priv_bytes nostr.pub_bytes accepted,
            x_only.length-x_only nostr.priv_bytes nostr.pub_bytes accepted,
          );
          prekey = signed_prekey_created_at-IsSignedBy curve ik_sign 1 now r3;
        },
        record { older = tt; small = omega arith; times = tt; created = time },
        refl,
        refl,
        length-create_one_time_prekeys 1 opk_count r4,
      )

  -- A key that the loop hands out was accepted.
  generate_nostr_keypair-accepted :
      (fuel : ℕ) (r : Rng) (kp : KeyPair)
      → (generate_nostr_keypair p fuel r).0 ≡ some kp
      → p.x_only_public kp.priv_bytes ≡ some kp.pub_bytes
  unfolding generate_nostr_keypair
  generate_nostr_keypair-accepted zero r kp h = absurd (ground arith)
  generate_nostr_keypair-accepted (suc fuel) r kp h =
      elim (Option-cases (p.x_only_public (random_array 32 r).0)) [
        | inl refused ↦ generate_nostr_keypair-accepted fuel (random_array 32 r).1 kp (ground arith)
        | inr (y, accepted) ↦ ground arith
      ]

  create_identity_undrawn :
      (fuel : ℕ) (now : ℤ) (r : Rng)
      → (generate_nostr_keypair p fuel (before_nostr r)).0 ≡ none
      → (create_identity p fuel now r).0 ≡ none
  unfolding create_identity before_nostr
  create_identity_undrawn fuel now r h = ground arith

  -- Whatever `create_identity` hands out is sound.
  pub create_identity-IsWellFormed :
      CurveLaws p
      → XOnlyLaws p
      → (fuel : ℕ) (now : ℤ) (r : Rng) (identity : Identity) → IsTime now
      → (create_identity p fuel now r).0 ≡ some identity
      → IsWellFormed p identity
        × IsOrdered identity
        × (identity.signed_prekey.id ≡ 1)
        × (identity.retired_signed_prekeys ≡ [])
  create_identity-IsWellFormed curve x_only fuel now r identity time h =
      let r2 = before_nostr r in
      elim (Option-cases (generate_nostr_keypair p fuel r2).0) [
        | inl undrawn ↦ absurd (ground (arith, create_identity_undrawn fuel now r undrawn))
        | inr (nostr, drawn) ↦
            let (made, r', e, well, ordered, first, none_retired, _) =
              create_identity_made curve x_only fuel now r (generate_nostr_keypair p fuel r2).1
                nostr time (ap (λ x. (x, (generate_nostr_keypair p fuel r2).1)) drawn)
                (generate_nostr_keypair-accepted fuel r2 nostr drawn) in
            let same : made ≡ identity =
              ground (arith, h, ap (λ (x : Option Identity × Rng). x.0) e) in
            subst
              (λ i.
                IsWellFormed p i
                × IsOrdered i
                × (i.signed_prekey.id ≡ 1)
                × (i.retired_signed_prekeys ≡ []))
              same (well, ordered, first, none_retired)
      ]

  -- The loop of generate_nostr_keypair runs out of no fuel: if the secret key that it draws
  -- after k others is accepted, and there is fuel for more than k draws, create_identity at a
  -- time below 2^62 hands out an identity, which is well-formed, has its ids and times in order,
  -- and has fifty one-time prekeys. This given what the x25519 and secp256k1 crates promise.
  pub create_identity_total :
      CurveLaws p
      → XOnlyLaws p
      → (k fuel : ℕ) (now : ℤ) (r : Rng) (x : Bytes) → IsTime now
      → p.x_only_public (nth_draw k (before_nostr r)).0 ≡ some x
      → k < fuel
      → (identity : Identity) × (r' : Rng) × (create_identity p fuel now r ≡ (some identity, r'))
        × IsWellFormed p identity
        × IsOrdered identity
        × (length identity.one_time_prekeys ≡ 50)
  unfolding create_identity before_nostr generate_ed25519 signed_prekey_created_at
  create_identity_total curve x_only k fuel now r x time h below =
      let (nostr, r3, drawn, _, accepted) =
        generate_nostr_keypair_total k fuel (before_nostr r) x h below in
      let (identity, r', e, well, ordered, _, _, stock) =
        create_identity_made curve x_only fuel now r r3 nostr time drawn accepted in
      (identity, r', e, well, ordered, stock)
