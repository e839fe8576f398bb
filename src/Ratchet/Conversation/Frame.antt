-- ===== src/Ratchet/Conversation/Frame.antt =====
-- What receiving on one chain of src/ratchet.rs leaves in the store of skipped keys.
use trino_core.Prelude.{
  ℕ, zero, suc, ◌+◌, ◌-◌, ◌≤◌, ◌<◌, ◌^◌, ◌≡◌, refl, ap, ◌∙◌, Bytes, List, length, false, bytes_eq,
  bytes_eq_iff, lookup, arith, some, ltb, Result-cases, inl, inr, lookup-insert, length-insert,
}
use trino_core.Primitives.{Primitives, HexLaws}
use trino_core.Ratchet.State.{RatchetState, max_skip, max_skipped_keys, kdf_ck, skipped_key_id}
use trino_core.Ratchet.State.Laws.{IsKey, skipped_key_id_injective}
use trino_core.Ratchet.Store.{bank_skipped_key}
use trino_core.Ratchet.Store.Cap.{filed, bank_skipped_key_below}
use trino_core.Ratchet.Session.{skip_loop, skip_message_keys, succ_u32, saturating_add}
use trino_core.Ratchet.Session.Side.{skip_message_keys-eq-skip_loop}

module _ (p : Primitives) where
  -- The entries under keys other than `d` are the same in both stores.
  abbrev pub KeepsOthers : Bytes → List (Bytes × Bytes) → List (Bytes × Bytes) → Type 0
  KeepsOthers d m m' =
      (k : Bytes) (n : ℕ)
      → IsKey k
      → bytes_eq d k ≡ false
      → lookup (skipped_key_id p k n) m' ≡ lookup (skipped_key_id p k n) m

  module _ (hex : HexLaws p) where
    -- Ids of different keys differ.
    pub skipped_key_id-differ :
        (d k : Bytes) (n m : ℕ)
        → IsKey d
        → IsKey k
        → bytes_eq d k ≡ false
        → bytes_eq (skipped_key_id p d n) (skipped_key_id p k m) ≡ false
    skipped_key_id-differ d k n m dk kk differ = ground (
      arith,
      bytes_eq_iff d k,
      bytes_eq_iff (skipped_key_id p d n) (skipped_key_id p k m),
      λ (e : skipped_key_id p d n ≡ skipped_key_id p k m).
          (skipped_key_id_injective p hex d k n m dk kk e).0,
    )

    -- The loop banks at most one key a round, all of them under its own.
    skip_loop_frame :
        (rounds : ℕ) (d ck : Bytes) (t : RatchetState)
        → IsKey d
        → length t.skipped_keys + rounds ≤ max_skipped_keys
        → let t' = (skip_loop p rounds d ck t).1 in
          KeepsOthers d t.skipped_keys t'.skipped_keys
          × (length t'.skipped_keys ≤ length t.skipped_keys + rounds)
    unfolding skip_loop filed
    skip_loop_frame zero d ck t dk room = (λ k n kk differ. refl, omega arith)
    skip_loop_frame (suc rounds) d ck t dk room = elim (Result-cases (kdf_ck p ck)) [
      | inl ((next_ck, mk), derived) ↦
          let id = skipped_key_id p d t.receiving_msg_number in
          let banked = bank_skipped_key id mk t in
          let t' = record banked { receiving_msg_number = succ_u32 banked.receiving_msg_number } in
          let same = bank_skipped_key_below id mk t (omega arith) in
          let stored = ap (λ (u : RatchetState). u.skipped_keys) same in
          let (others, count) =
            skip_loop_frame rounds d next_ck t' dk
              (ground (arith, ap length stored, length-insert id mk t.skipped_keys)) in
          rw (derived, skip_loop)
            (
              λ k n kk differ.
                  others k n kk differ
                  ∙ (ap (lookup (skipped_key_id p k n)) stored
                      ∙ ground (
                        arith,
                        lookup-insert id (skipped_key_id p k n) mk t.skipped_keys,
                        skipped_key_id-differ d k t.receiving_msg_number n dk kk differ,
                      )),
              ground (arith, count, ap length stored, length-insert id mk t.skipped_keys),
            )
      | inr (e, failed) ↦ rw (failed, skip_loop) (λ k n kk differ. refl, omega arith)
    ]

    -- So does skipping ahead.
    pub skip_message_keys_frame :
        (until : ℕ) (d ck : Bytes) (t : RatchetState)
        → IsKey d
        → t.receiving_chain_key ≡ some ck
        → t.dhr ≡ some d
        → until ≤ t.receiving_msg_number + max_skip
        → until < 2 ^ 32
        → t.receiving_msg_number ≤ until
        → length t.skipped_keys + (until - t.receiving_msg_number) ≤ max_skipped_keys
        → let t' = (skip_message_keys p until t).1 in
          KeepsOthers d t.skipped_keys t'.skipped_keys
          × (length t'.skipped_keys + t.receiving_msg_number ≤ length t.skipped_keys + until)
    skip_message_keys_frame until d ck t dk found peer near small above room =
        let within : ltb (saturating_add t.receiving_msg_number max_skip) until ≡ false =
          ground arith in
        let (others, count) = skip_loop_frame (until - t.receiving_msg_number) d ck t dk room in
        rw (skip_message_keys-eq-skip_loop p until ck d t found peer within)
          (others, omega (arith, count))
