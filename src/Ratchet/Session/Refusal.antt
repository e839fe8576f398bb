-- ===== src/Ratchet/Session/Refusal.antt =====
-- When `ratchet_decrypt` of src/ratchet.rs reports a replay or too large a gap, and the rollback.
use trino_core.Prelude.{
  ℕ, ◌<◌, ◌^◌, ◌≡◌, ◌↔◌, ◌⊎◌, ◌∙◌, inl, inr, refl, ap, sym, Bytes, true, false, lookup, arith,
  Option, some, none, Result, ok, err, contains, bytes_eq_iff, Bool-cases, Option-cases,
  Result-cases,
}
use mathlib.Core.Path.{subst}
use trino_core.Prelude.Steps.{◌>>◌}
use trino_core.Primitives.{Primitives, Rng, HkdfLaws}
use trino_core.Ratchet.State.{
  RatchetState, RatchetError, too_many_skipped, replay, EncryptedMessage, skipped_key_id, decode_32,
}
use trino_core.Ratchet.Cipher.{open_message}
use trino_core.Ratchet.Session.{
  World, is_key, is_replay, try_skipped_message_key, enter_chain, receive_next, receive_fresh,
  use_skipped, ratchet_decrypt_inner, ratchet_decrypt, roll_back,
}
use trino_core.Ratchet.Session.Delivery.{enter_chain_same}
use trino_core.Ratchet.Session.Outcome.{
  IsOther, Names, decode_32-IsOther, Names-decode_32, decode_32-Names, open_message-IsOther,
  receive_step-IsOther,
}
use trino_core.Ratchet.Session.Missing.{IsBehind, skip_far, skip_lem, next_chain}

is_key_iff : (o : Option Bytes) (d : Bytes) → (is_key o d ≡ true) ↔ (o ≡ some d)
is_key_iff none d = ground arith
is_key_iff (some a) d = ground (arith, bytes_eq_iff a d)

roll_back_lem :
    (s : RatchetState) (x : Result RatchetError Bytes × World)
    → ((roll_back s x).0 ≡ x.0) × ((e : RatchetError) → x.0 ≡ err e → (roll_back s x).1.0 ≡ s)
roll_back_lem s (ok pt, w) = (refl, λ e h. absurd (ground arith))
roll_back_lem s (err e, w) = (refl, λ _ h. refl)

-- No key is banked for the message, and its peer key is retired or its number passed in the chain.
abbrev pub IsRepeated : Primitives → EncryptedMessage → RatchetState → Type 0
IsRepeated p msg t =
    (d : Bytes) × Names p msg d
    × (lookup (skipped_key_id p d msg.header.n) t.skipped_keys ≡ none)
    × ((contains d t.retired_peer_dh_keys ≡ true)
        ⊎ ((t.dhr ≡ some d) × (msg.header.n < t.receiving_msg_number)))

-- What the message leaves out is too much: in its own chain, if that is current; else in the last
-- one, as far as it says, or before it in the new one.
abbrev pub LeavesGap : EncryptedMessage → Bytes → RatchetState → Type 0
LeavesGap msg d t =
    ((t.dhr ≡ some d) × IsBehind t msg.header.n)
    ⊎ ((¬ (t.dhr ≡ some d)) × (IsBehind t msg.header.pn ⊎ (1000 < msg.header.n)))

abbrev pub IsDistant : Primitives → EncryptedMessage → RatchetState → Type 0
IsDistant p msg t =
    (d : Bytes) × Names p msg d
    × (lookup (skipped_key_id p d msg.header.n) t.skipped_keys ≡ none)
    × (contains d t.retired_peer_dh_keys ≡ false)
    × LeavesGap msg d t

-- The outcome is that too much is missing, and `P` holds; or it is neither refusal.
abbrev Judged : {A : Type 0} → Type 0 → Result RatchetError A → Type 0
Judged P x = (P × (x ≡ err (too_many_skipped 1000))) ⊎ IsOther x

module _ (p : Primitives) where
  module _ (laws : HkdfLaws p) where
    module _ (msg : EncryptedMessage) (ad : Bytes) (small_n : msg.header.n < 2 ^ 32)
        (small_pn : msg.header.pn < 2 ^ 32) where
      receive_next_lem :
          (t : RatchetState) (r : Rng)
          → Judged (IsBehind t msg.header.n) (receive_next p msg ad (t, r)).0
      unfolding receive_next
      receive_next_lem t r = elim (skip_lem p laws msg.header.n t small_n) [
        | inl far ↦ inl (far, rw (skip_far p msg.header.n t small_n far) refl)
        | inr (t', skipped) ↦ inr (rw skipped (receive_step-IsOther p msg ad (t', r)))
      ]

      enter_next_lem :
          (d : Bytes) (t : RatchetState) (r : Rng)
          → Judged (LeavesGap msg d t) ((enter_chain p msg d >> receive_next p msg ad) (t, r)).0
      unfolding enter_chain
      enter_next_lem d t r = elim (Bool-cases (is_key t.dhr d)) [
        | inl current ↦
            let peer = (is_key_iff t.dhr d).0 current in
            rw (enter_chain_same p d msg t r peer) (elim (receive_next_lem t r) [
              | inl (far, e) ↦ inl (inl (peer, far), e)
              | inr fine ↦ inr fine
            ])
        | inr new ↦
            let differs : ¬ (t.dhr ≡ some d) = λ e. ground (arith, (is_key_iff t.dhr d).1 e) in
            elim (skip_lem p laws msg.header.pn t small_pn) [
              | inl far ↦
                  inl
                    (inr (differs, inl far), rw (new, skip_far p msg.header.pn t small_pn far) refl)
              | inr (t0, skipped) ↦
                  let (t1, r1, stepped, start) = next_chain p laws d t0 r in
                  rw (new, skipped, stepped)
                    (elim (receive_next_lem t1 r1) [
                      | inl (far, e) ↦ inl (inr (differs, inr ((start msg.header.n).0 far)), e)
                      | inr fine ↦ inr fine
                    ])
            ]
      ]

      fresh_lem :
          (d : Bytes) (t : RatchetState) (r : Rng)
          → decode_32 p msg.header.dh_pub ≡ ok d
          → lookup (skipped_key_id p d msg.header.n) t.skipped_keys ≡ none
          → ratchet_decrypt_inner p msg ad (t, r) ≡ receive_fresh p msg d ad (t, r)
      unfolding ratchet_decrypt_inner try_skipped_message_key use_skipped
      fresh_lem d t r named unbanked = rw (named, unbanked, try_skipped_message_key) refl

      late_lem :
          (d mk : Bytes) (t : RatchetState) (r : Rng)
          → decode_32 p msg.header.dh_pub ≡ ok d
          → lookup (skipped_key_id p d msg.header.n) t.skipped_keys ≡ some mk
          → IsOther (ratchet_decrypt_inner p msg ad (t, r)).0
      unfolding ratchet_decrypt_inner try_skipped_message_key use_skipped
      late_lem d mk t r named banked = elim (Result-cases (open_message p mk msg ad)) [
        | inl (pt, opened) ↦ rw (named, banked, try_skipped_message_key, opened) tt
        | inr (e, forged) ↦
            rw (named, banked, try_skipped_message_key, forged)
              (subst IsOther forged (open_message-IsOther p mk ad msg))
      ]

      new_lem :
          (d : Bytes) (t : RatchetState) (r : Rng)
          → is_replay t d msg.header.n ≡ false
          → receive_fresh p msg d ad (t, r) ≡ (enter_chain p msg d >> receive_next p msg ad) (t, r)
      unfolding receive_fresh
      new_lem d t r new = rw new refl

      is_replay_iff :
          (t : RatchetState) (d : Bytes)
          → (is_replay t d msg.header.n ≡ true) ↔ (
              (contains d t.retired_peer_dh_keys ≡ true)
              ⊎ ((t.dhr ≡ some d) × (msg.header.n < t.receiving_msg_number)))
      unfolding is_replay
      is_replay_iff t d = elim (Bool-cases (is_key t.dhr d)) [
        | inl same ↦ let peer = (is_key_iff t.dhr d).0 same in ground (arith, same, peer)
        | inr other ↦ ground (arith, other, (is_key_iff t.dhr d).1)
      ]

      repeated_lem :
          (t : RatchetState) (r : Rng)
          → IsRepeated p msg t
          → (ratchet_decrypt_inner p msg ad (t, r)).0 ≡ err (replay msg.header.n)
      unfolding receive_fresh
      repeated_lem t r (d, named, unbanked, again) =
          rw
            (
              fresh_lem d t r (Names-decode_32 p msg d named) unbanked,
              receive_fresh,
              (is_replay_iff t d).1 again,
            )
            refl

      gap_lem :
          (d : Bytes) (t : RatchetState) (r : Rng)
          → LeavesGap msg d t
          → ((enter_chain p msg d >> receive_next p msg ad) (t, r)).0 ≡ err (too_many_skipped 1000)
      unfolding enter_chain receive_next
      gap_lem d t r (inl (peer, far)) =
          rw (enter_chain_same p d msg t r peer, skip_far p msg.header.n t small_n far) refl
      gap_lem d t r (inr (differs, gap)) =
          let new : is_key t.dhr d ≡ false = ground (arith, differs, (is_key_iff t.dhr d).0) in
          elim (skip_lem p laws msg.header.pn t small_pn) [
            | inl far ↦ rw (new, skip_far p msg.header.pn t small_pn far) refl
            | inr (t0, skipped) ↦
                let (t1, r1, stepped, start) = next_chain p laws d t0 r in
                elim gap [
                  | inl far ↦ rw (new, skip_far p msg.header.pn t small_pn far) refl
                  | inr long ↦
                      rw
                        (
                          new,
                          skipped,
                          stepped,
                          skip_far p msg.header.n t1 small_n ((start msg.header.n).1 long),
                        )
                        refl
                ]
          ]

      distant_lem :
          (t : RatchetState) (r : Rng)
          → IsDistant p msg t
          → (ratchet_decrypt_inner p msg ad (t, r)).0 ≡ err (too_many_skipped 1000)
      distant_lem t r (d, named, unbanked, live, gap) =
          let new : is_replay t d msg.header.n ≡ false =
            elim (Bool-cases (is_replay t d msg.header.n)) [
              | inl old ↦ elim ((is_replay_iff t d).0 old) [
                | inl retired ↦ absurd (ground (arith, retired, live))
                | inr (peer, passed) ↦ elim gap [
                  | inl (_, far) ↦ absurd (omega (arith, far.2, passed))
                  | inr (differs, _) ↦ absurd (differs peer)
                ]
              ]
              | inr new ↦ new
            ] in
          rw (fresh_lem d t r (Names-decode_32 p msg d named) unbanked, new_lem d t r new)
            (gap_lem d t r gap)

      verdict :
          (t : RatchetState) (r : Rng)
          → let x = (ratchet_decrypt_inner p msg ad (t, r)).0 in
            (IsRepeated p msg t × (x ≡ err (replay msg.header.n))) ⊎ Judged (IsDistant p msg t) x
      unfolding ratchet_decrypt_inner
      verdict t r = elim (Result-cases (decode_32 p msg.header.dh_pub)) [
        | inr (e, malformed) ↦
            inr
              (inr (rw malformed (subst IsOther malformed (decode_32-IsOther p msg.header.dh_pub))))
        | inl (d, named) ↦
            elim (Option-cases (lookup (skipped_key_id p d msg.header.n) t.skipped_keys)) [
              | inr (mk, banked) ↦ inr (inr (late_lem d mk t r named banked))
              | inl unbanked ↦
                  let names = decode_32-Names p msg d named in
                  elim (Bool-cases (is_replay t d msg.header.n)) [
                    | inl old ↦
                        let again : IsRepeated p msg t =
                          (d, names, unbanked, (is_replay_iff t d).0 old) in
                        inl (again, repeated_lem t r again)
                    | inr new ↦
                        let live : contains d t.retired_peer_dh_keys ≡ false =
                          ground (arith, new, (is_replay_iff t d).1) in
                        rw (fresh_lem d t r named unbanked, new_lem d t r new)
                          (elim (enter_next_lem d t r) [
                            | inl (gap, e) ↦ inr (inl ((d, names, unbanked, live, gap), e))
                            | inr fine ↦ inr (inr fine)
                          ])
                  ]
            ]
      ]

      -- Given what the hkdf crate promises, for a header whose numbers are below 2^32:
      -- ratchet_decrypt reports a replay exactly when the header names a key of 32 bytes, no key
      -- is banked for the message, and the peer key is retired or it is the current one and the
      -- number was passed; the report has the number of the message. It reports that too much is
      -- missing, more than 1000, exactly when the header names a key of 32 bytes that is not
      -- retired, no key is banked for the message, and either the peer key is the current one
      -- and the number is more than 1000 ahead of a chain that there is, or it is another one
      -- and the chain that there is would have to go on for more than 1000 to its end, or the
      -- number itself is above 1000. After every error the session is as before.
      pub ratchet_decrypt_refuses :
          (t : RatchetState) (r : Rng)
          → let x = ratchet_decrypt p msg ad (t, r) in
            ((k : ℕ) → (x.0 ≡ err (replay k)) ↔ ((k ≡ msg.header.n) × IsRepeated p msg t))
            × ((k : ℕ) → (x.0 ≡ err (too_many_skipped k)) ↔ ((k ≡ 1000) × IsDistant p msg t))
            × ((e : RatchetError) → x.0 ≡ err e → x.1.0 ≡ t)
      unfolding ratchet_decrypt
      ratchet_decrypt_refuses t r =
          let y = ratchet_decrypt_inner p msg ad (t, r) in
          let (same, back) = roll_back_lem t y in
          let v = verdict t r in
          (
            λ k. (
              λ h. elim v [
                | inl (again, e) ↦ (ground (arith, h, same, e), again)
                | inr (inl (far, e)) ↦ absurd (ground (arith, h, same, e))
                | inr (inr fine) ↦ absurd (subst IsOther (sym same ∙ h) fine)
              ],
              λ h. same ∙ repeated_lem t r h.1 ∙ ap (λ n. err (replay n)) (sym h.0),
            ),
            λ k. (
              λ h. elim v [
                | inl (again, e) ↦ absurd (ground (arith, h, same, e))
                | inr (inl (far, e)) ↦ (ground (arith, h, same, e), far)
                | inr (inr fine) ↦ absurd (subst IsOther (sym same ∙ h) fine)
              ],
              λ h. same ∙ distant_lem t r h.1 ∙ ap (λ n. err (too_many_skipped n)) (sym h.0),
            ),
            λ e h. back e (sym same ∙ h),
          )
