-- ===== src/Ratchet/Session/Missing.antt =====
-- How far `skip_message_keys` of src/ratchet.rs goes, and where the DH step leaves the chain.
use trino_core.Prelude.{
  ℕ, zero, suc, ◌+◌, ◌-◌, ◌<◌, ◌^◌, ◌≡◌, ◌↔◌, ◌⊎◌, ◌∙◌, inl, inr, refl, ap, Bytes, arith, some, ok,
  err, Bool-cases, Option-cases, ltb,
}
use trino_core.Primitives.{Primitives, Rng, HkdfLaws}
use trino_core.Identity.Keys.{generate_x25519, x25519_derive_shared}
use trino_core.Ratchet.State.{RatchetState, too_many_skipped, max_skip, skipped_key_id}
use trino_core.Ratchet.State.Laws.{kdf_ck_total, kdf_rk_total}
use trino_core.Ratchet.Store.{bank_skipped_key}
use trino_core.Ratchet.Session.{
  succ_u32, skip_loop, skip_message_keys, dh_ratchet_step, begin_step, saturating_add,
}
use trino_core.Ratchet.Session.Side.{skip_message_keys-eq-skip_loop}

-- The receiving chain is more than a thousand numbers before `n`.
abbrev pub IsBehind : RatchetState → ℕ → Type 0
IsBehind t n =
    (ck : Bytes) × (t.receiving_chain_key ≡ some ck) × (t.receiving_msg_number + 1000 < n)

module _ (p : Primitives) where
  -- Skipping ahead, when it is too far.
  pub skip_far :
      (until : ℕ) (t : RatchetState)
      → until < 2 ^ 32
      → IsBehind t until
      → skip_message_keys p until t ≡ (err (too_many_skipped 1000), t)
  unfolding skip_message_keys
  skip_far until t small (ck, chain, far) = ground (arith, chain, far)

  module _ (laws : HkdfLaws p) where
    skip_loop_total :
        (rounds : ℕ) (dhr ck : Bytes) (t : RatchetState)
        → (t' : RatchetState) × (skip_loop p rounds dhr ck t ≡ (ok tt, t'))
    unfolding skip_loop
    skip_loop_total zero dhr ck t = (_, refl)
    skip_loop_total (suc rounds) dhr ck t =
        let ((next_ck, mk), derived, _, _) = kdf_ck_total p laws ck in
        let banked = bank_skipped_key (skipped_key_id p dhr t.receiving_msg_number) mk t in
        let (t', e) =
          skip_loop_total rounds dhr next_ck
            (record banked { receiving_msg_number = succ_u32 banked.receiving_msg_number }) in
        (t', rw (derived, skip_loop) e)

    pub skip_lem :
        (until : ℕ) (t : RatchetState)
        → until < 2 ^ 32
        → IsBehind t until ⊎ ((t' : RatchetState) × (skip_message_keys p until t ≡ (ok tt, t')))
    unfolding skip_message_keys
    skip_lem until t small = elim (Option-cases t.receiving_chain_key) [
      | inl none_yet ↦ inr (t, ground (arith, none_yet))
      | inr (ck, chain) ↦
          elim (Bool-cases (ltb (saturating_add t.receiving_msg_number max_skip) until)) [
            | inl far ↦ inl (ck, chain, ground (arith, far))
            | inr near ↦ elim (Option-cases t.dhr) [
              | inl unset ↦ inr (t, ground (arith, chain, near, unset))
              | inr (d, peer) ↦
                  let (t', e) = skip_loop_total (until - t.receiving_msg_number) d ck t in
                  inr (t', skip_message_keys-eq-skip_loop p until ck d t chain peer near ∙ e)
            ]
          ]
    ]

    -- After the step the new chain is at its beginning.
    step_lem :
        (d : Bytes) (t : RatchetState) (r : Rng)
        → let x = dh_ratchet_step p d (t, r) in
          (x.0 ≡ ok tt)
          × ((ck : Bytes) × (x.1.0.receiving_chain_key ≡ some ck))
          × (x.1.0.receiving_msg_number ≡ 0)
    unfolding dh_ratchet_step begin_step
    step_lem d t r =
        let (out, r1) = x25519_derive_shared p t.dhs.priv_bytes d r in
        let (k, e, _, _) = kdf_rk_total p laws t.root_key out in
        let (own, r2) = generate_x25519 p r1 in
        let (out2, r3) = x25519_derive_shared p own.priv_bytes d r2 in
        let (k2, e2, _, _) = kdf_rk_total p laws k.0 out2 in
        (rw (e, e2) refl, (k.1, rw (e, e2) refl), rw (e, e2) refl)

    pub next_chain :
        (d : Bytes) (t : RatchetState) (r : Rng)
        → (t' : RatchetState) × (r' : Rng) × (dh_ratchet_step p d (t, r) ≡ (ok tt, (t', r')))
          × ((n : ℕ) → IsBehind t' n ↔ (1000 < n))
    next_chain d t r =
        let (t', r') = (dh_ratchet_step p d (t, r)).1 in
        let (e, (ck, chain), start) = step_lem d t r in
        (
          t',
          r',
          ap (λ y. (y, (t', r'))) e,
          λ n. (λ h. omega (arith, h.2, start), λ h. (ck, chain, omega (arith, h, start))),
        )
