-- ===== src/Tests/TalkRuns.antt =====
-- A conversation through src/ratchet.rs whose second message arrives first, and is answered.
use trino_core.Prelude.{
  ℕ, ◌+◌, ◌≤◌, ◌<◌, ◌^◌, ◌≡◌, suc, bytes_eq, refl, sym, ap, ◌∙◌, Bytes, AreBytes, [], ◌∷◌, length,
  some, ok, err, inl, inr, arith, Result, true, contains,
}
use mathlib.Core.Path.{subst}
use trino_core.Primitives.{Rng}
use trino_core.Crypto.{random_bytes}
use trino_core.Identity.Keys.{KeyPair, generate_x25519}
use trino_core.Ratchet.State.{
  RatchetState, RatchetError, EncryptedMessage, init_initiator, init_responder,
}
use trino_core.Ratchet.Session.{World, ratchet_encrypt, ratchet_decrypt}
use trino_core.Ratchet.Session.Begin.{init_initiator-Ahead}
use trino_core.Ratchet.Conversation.{Sent, System, here, IsFresh, Reaches, begins, sends, receives}
use trino_core.Ratchet.Conversation.Invariant.{can_send, can_receive, Reaches-IsTalk}
use trino_core.Ratchet.Conversation.Arrival.{
  every_message_arrives, every_message_is_answered, keys_of_messages_only,
}
use trino_core.Tests.Toy.{
  toy, toy_hex, toy_hkdf, toy_aead, toy_curve, point, seed, stretch, length-stretch,
  stretch-AreBytes,
}
use trino_core.Tests.Runs.{rng, own, shared, receiver}
use trino_core.Tests.IdentityRuns.{curve_pair}

abbrev ok_or_else {ℓ κ} : {E : Type ℓ} {A : Type κ} → A → Result E A → A
ok_or_else a (ok b) = b
ok_or_else a (err e) = a

-- What a call returned is what it is said to have returned.
returned {ℓ κ ℓw} :
    {E : Type ℓ} {A : Type κ} {W : Type ℓw} (d : A) (x : Result E A × W) (a : A) (w : W)
    → x ≡ (ok a, w)
    → x ≡ (ok (ok_or_else d x.0), x.1)
returned d x a w e = rw e refl

-- The random bytes of either end, at each of its steps.
abbrev rng_b : Rng
rng_b = λ n. n + 3

abbrev rng_a : Rng
rng_a = λ n. n + 7

abbrev started : Result RatchetError RatchetState × Rng
started = init_initiator toy shared (curve_pair 2).pub_bytes rng

abbrev alice : RatchetState
alice = ok_or_else receiver started.0

lives :
    toy.was_contributory
      (toy.diffie_hellman (generate_x25519 toy rng).0.priv_bytes (curve_pair 2).pub_bytes)
    ≡ true
unfolding generate_x25519 random_bytes point seed stretch
lives = refl

started_ok : started ≡ (ok alice, started.1)
started_ok =
    let (s, e, _, _) =
      init_initiator-Ahead toy toy_curve toy_hkdf shared (curve_pair 2) rng refl lives in
    returned receiver started s _ e

abbrev talk0 : System
talk0 = record {
  a = alice;
  b = init_responder shared (curve_pair 2);
  to_a = [];
  to_b = [];
  used = alice.dhs.pub_bytes ∷ (curve_pair 2).pub_bytes ∷ [];
}

talk0-Reaches : Reaches toy own talk0
talk0-Reaches = begins shared (curve_pair 2) rng started.1 alice refl lives started_ok

alice_keys : alice.dhs ≡ (generate_x25519 toy rng).0
alice_keys =
    let (s, e, _, b) =
      init_initiator-Ahead toy toy_curve toy_hkdf shared (curve_pair 2) rng refl lives in
    ap (λ x. (ok_or_else receiver x.0).dhs) e ∙ b.own_key

fresh_b :
    IsFresh toy rng_b
      (generate_x25519 toy rng).0.pub_bytes
      ((generate_x25519 toy rng).0.pub_bytes ∷ (curve_pair 2).pub_bytes ∷ [])
unfolding generate_x25519 random_bytes point seed stretch contains bytes_eq
fresh_b = record { unused = refl; live = refl }

fresh : IsFresh toy rng_b alice.dhs.pub_bytes talk0.used
fresh =
    subst (λ k. IsFresh toy rng_b k.pub_bytes (k.pub_bytes ∷ (curve_pair 2).pub_bytes ∷ []))
      (sym alice_keys) fresh_b

abbrev blank : EncryptedMessage
blank = record { header = record { dh_pub = []; pn = 0; n = 0 }; nonce = []; ciphertext = [] }

abbrev question : Bytes
question = stretch 3 1

abbrev answer : Bytes
answer = stretch 5 2

-- The conversation once `a` has sent a text.
abbrev said : System → Bytes → Rng → System
said y text r =
    let x = ratchet_encrypt toy text own (y.a, r) in
    record y {
      a = x.1.0;
      to_b =
          record { message = ok_or_else blank x.0; text = text; peer = y.a.dhs.pub_bytes } ∷ y.to_b;
    }

-- It is one that a conversation comes to, and `a` can go on.
record Goes (y : System) : Type 0 where
  reached : Reaches toy own y
  chain_key : Bytes
  speaking : y.a.sending_chain_key ≡ some chain_key

short : length own + 40 ≤ 2 ^ 36
short = omega (arith, length-stretch 32 7)

said-Goes :
    (y : System) (text : Bytes) (r : Rng)
    → Goes y
    → AreBytes text
    → length text ≤ 2 ^ 36
    → length y.to_b < 1000
    → y.a.sending_msg_number + 1 < 2 ^ 32
    → Goes (said y text r)
      × ((said y text r).a.sending_msg_number ≡ suc y.a.sending_msg_number)
      × ((said y text r).a.dhs ≡ y.a.dhs)
said-Goes y text r g bytes fits room small =
    let talk = Reaches-IsTalk toy own toy_hkdf toy_hex toy_aead toy_curve short g.reached in
    elim (can_send toy own toy_hkdf toy_hex toy_aead toy_curve short y text r talk bytes fits room
      small) [
        | inl sent ↦
            let x = ratchet_encrypt toy text own (y.a, r) in
            let state = ap (λ z. z.1.0) sent.result in
            (
              record {
                reached =
                    sends y text r x.1.1 x.1.0 (ok_or_else blank x.0) g.reached bytes fits room
                      small (returned blank x sent.message (sent.state, sent.rng) sent.result);
                chain_key = sent.chain_key;
                speaking = ap (λ (u : RatchetState). u.sending_chain_key) state ∙ sent.speaking;
              },
              ap (λ (u : RatchetState). u.sending_msg_number) state ∙ sent.number,
              ap (λ (u : RatchetState). u.dhs) state ∙ sent.keys,
            )
        | inr (mute, deaf) ↦ absurd (ground (arith, g.speaking, mute))
      ]

talk0-Goes : Goes talk0 × (alice.sending_msg_number ≡ 0)
talk0-Goes =
    let (s, e, a, b) =
      init_initiator-Ahead toy toy_curve toy_hkdf shared (curve_pair 2) rng refl lives in
    let same : alice ≡ s = ap (λ x. ok_or_else receiver x.0) e in
    (
      record {
        reached = talk0-Reaches;
        chain_key = a.chain_key;
        speaking = ap (λ (u : RatchetState). u.sending_chain_key) same ∙ a.sending;
      },
      ap (λ (u : RatchetState). u.sending_msg_number) same ∙ a.number,
    )

-- Two questions, of which the later one arrives first.
abbrev talk1 : System
talk1 = said talk0 question started.1

abbrev talk2 : System
talk2 = said talk1 answer rng_a

question_lem : (n c : ℕ) → n ≤ 2 ^ 36 → AreBytes (stretch n c) × (length (stretch n c) ≤ 2 ^ 36)
question_lem n c h = (stretch-AreBytes n c, omega (arith, length-stretch n c))

talk2-Goes : Goes talk2 × (talk2.a.dhs ≡ alice.dhs)
talk2-Goes =
    let (start, zero_sent) = talk0-Goes in
    let (fits, long) = question_lem 3 1 (omega arith) in
    let (fits2, long2) = question_lem 5 2 (omega arith) in
    let (g, one, same) =
      said-Goes talk0 question started.1 start fits long (omega arith) (omega (arith, zero_sent)) in
    let (g2, two, same2) =
      said-Goes talk1 answer rng_a g fits2 long2 (omega arith) (omega (arith, zero_sent, one)) in
    (g2, same2 ∙ same)

abbrev later : Sent
later = record {
  message = ok_or_else blank (ratchet_encrypt toy answer own (talk1.a, rng_a)).0;
  text = answer;
  peer = talk1.a.dhs.pub_bytes;
}

fresh2 : IsFresh toy rng_b talk2.a.dhs.pub_bytes talk2.used
fresh2 = subst (λ k. IsFresh toy rng_b k.pub_bytes talk2.used) (sym talk2-Goes.1) fresh

every_message_arrives_example :
    (t : RatchetState) × (r' : Rng) × (ratchet_decrypt toy later.message own
        (init_responder shared (curve_pair 2), rng_b)
      ≡ (ok answer, (t, r')))
every_message_arrives_example =
    every_message_arrives toy toy_hex toy_hkdf toy_aead toy_curve own talk2 later talk1.to_b rng_b
      short talk2-Goes.0.reached here fresh2

-- What `b` makes of it.
abbrev got : Result RatchetError Bytes × World
got = ratchet_decrypt toy later.message own (talk2.b, rng_b)

abbrev rng_c : Rng
rng_c = λ n. n + 12

fresh_old : IsFresh toy rng_c (curve_pair 2).pub_bytes (
    (curve_pair 2).pub_bytes
    ∷ (generate_x25519 toy rng).0.pub_bytes
    ∷ (curve_pair 2).pub_bytes
    ∷ [])
unfolding generate_x25519 random_bytes point seed stretch contains bytes_eq
fresh_old = record { unused = refl; live = refl }

fresh_new : IsFresh toy rng_c (generate_x25519 toy rng_b).0.pub_bytes (
    (generate_x25519 toy rng_b).0.pub_bytes
    ∷ (generate_x25519 toy rng).0.pub_bytes
    ∷ (curve_pair 2).pub_bytes
    ∷ [])
unfolding generate_x25519 random_bytes point seed stretch contains bytes_eq
fresh_new = record { unused = refl; live = refl }

-- Whichever key pair `b` has then.
fresh3 : IsFresh toy rng_c got.1.0.dhs.pub_bytes (got.1.0.dhs.pub_bytes ∷ talk2.used)
unfolding init_responder
fresh3 =
    let talk =
      Reaches-IsTalk toy own toy_hkdf toy_hex toy_aead toy_curve short talk2-Goes.0.reached in
    let r =
      can_receive toy own toy_hkdf toy_hex toy_aead toy_curve short talk2 later talk1.to_b rng_b
        talk here fresh2 in
    let same = ap (λ x. x.1.0.dhs) r.result in
    let move =
      λ (k : KeyPair) (e : got.1.0.dhs ≡ k)
          (h : IsFresh toy rng_c k.pub_bytes
            (k.pub_bytes ∷ (generate_x25519 toy rng).0.pub_bytes ∷ (curve_pair 2).pub_bytes ∷ [])).
        subst (λ i. IsFresh toy rng_c i.pub_bytes (i.pub_bytes ∷ talk2.used)) (sym e)
          (subst
            (λ i.
              IsFresh toy rng_c k.pub_bytes
                (k.pub_bytes ∷ i.pub_bytes ∷ (curve_pair 2).pub_bytes ∷ []))
            (sym alice_keys) h) in
    elim r.keys [
      | inl old ↦ move (curve_pair 2) (same ∙ old) fresh_old
      | inr new ↦ move (generate_x25519 toy rng_b).0 (same ∙ new) fresh_new
    ]

responder_silent : talk2.b.sending_msg_number + 1 < 2 ^ 32
unfolding init_responder
responder_silent = omega arith

every_message_is_answered_example :
    (msg : EncryptedMessage) × (t' s : RatchetState) × (r'' r3 : Rng) × (ratchet_encrypt toy
        question own
        (got.1.0, got.1.1)
      ≡ (ok msg, (t', r'')))
    × (ratchet_decrypt toy msg own (talk2.a, rng_c) ≡ (ok question, (s, r3)))
every_message_is_answered_example =
    let (fits, long) = question_lem 3 1 (omega arith) in
    every_message_is_answered toy toy_hex toy_hkdf toy_aead toy_curve own talk2 later talk1.to_b
      got.1.0 rng_b got.1.1 rng_c got.0 question short talk2-Goes.0.reached here fresh2 refl
      responder_silent (omega arith) fits long fresh3

-- One key is banked then, that of the first question.
abbrev talk3 : System
talk3 = record talk2 { b = got.1.0; to_b = talk1.to_b; used = got.1.0.dhs.pub_bytes ∷ talk2.used }

keys_of_messages_only_example :
    (length talk3.b.skipped_keys ≤ 1) × (length talk3.a.skipped_keys ≤ 0)
keys_of_messages_only_example =
    keys_of_messages_only toy toy_hex toy_hkdf toy_aead toy_curve own talk3 short (
      receives talk2 later talk1.to_b rng_b got.1.1 got.1.0 got.0 talk2-Goes.0.reached here fresh2
        refl)
