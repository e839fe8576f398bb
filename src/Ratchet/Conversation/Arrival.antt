-- ===== src/Ratchet/Conversation/Arrival.antt =====
-- What a conversation over src/ratchet.rs promises: messages arrive, are answered, and leave no keys.
use trino_core.Prelude.{
  ◌+◌, ◌≤◌, ◌<◌, ◌^◌, ◌≡◌, sym, ap, ◌∙◌, Bytes, AreBytes, List, ◌∷◌, length, some, ok, inl, inr,
  arith, Result,
}
use trino_core.Primitives.{Primitives, Rng, HexLaws, HkdfLaws, AeadLaws, CurveLaws}
use trino_core.Ratchet.State.{RatchetState, RatchetError, EncryptedMessage}
use trino_core.Ratchet.Session.{ratchet_encrypt, ratchet_decrypt}
use trino_core.Ratchet.Conversation.{
  Sent, System, Takes, here, IsFresh, max_in_flight, Reaches, swaps, receives,
}
use trino_core.Ratchet.Conversation.Lead.{Heads, first_chain, next_chain, Tails, silent, answering}
use trino_core.Ratchet.Conversation.Invariant.{can_send, can_receive, Reaches-IsTalk}

-- Given what the hex, hkdf, aes-gcm and x25519 crates promise: two sessions begin from one
-- master secret, the one with the x25519 key pair of the other, and call ratchet_encrypt and
-- ratchet_decrypt any number of times under one associated data, of at most 2^36 - 40 bytes.
-- Both encrypt texts of bytes, none longer than 2^36, whenever they like, as long as fewer than
-- 1000 messages are on their way to the other side, lost ones included, and the counter does not
-- wrap; the messages of both directions are handed over in whatever order, each at most once,
-- and any other message may be handed over that is refused. Each key pair that a receiver would
-- draw next has a public key that was not used before, and its secret with the peer's key is
-- contributory. Then whichever message on its way is handed over next, it is decrypted to its
-- text.
pub every_message_arrives :
    (p : Primitives)
    → HexLaws p
    → HkdfLaws p
    → AeadLaws p
    → CurveLaws p
    → (ad : Bytes) (y : System) (e : Sent) (rest : List Sent) (r : Rng) → length ad + 40 ≤ 2 ^ 36
    → Reaches p ad y
    → Takes e y.to_b rest
    → IsFresh p r y.a.dhs.pub_bytes y.used
    → (t : RatchetState) × (r' : Rng) × (ratchet_decrypt p e.message ad (y.b, r)
        ≡ (ok e.text, (t, r')))
every_message_arrives p hex hkdf aead curve ad y e rest r short reached taken fresh =
    let talk = Reaches-IsTalk p ad hkdf hex aead curve short reached in
    let got = can_receive p ad hkdf hex aead curve short y e rest r talk taken fresh in
    (got.state, got.rng, got.result)

-- Given what the hex, hkdf, aes-gcm and x25519 crates promise, in a conversation as the relation
-- Reaches describes it, under associated data of at most 2^36 - 40 bytes, once a message was
-- handed over to a receiver with a fresh next key pair: the receiver, whose counter does not
-- wrap and to whose peer fewer than 1000 messages are on their way, encrypts an answer of bytes
-- no longer than 2^36; and the peer, if its next key pair is a fresh one too, decrypts the
-- answer at once, whatever else is still on its way.
pub every_message_is_answered :
    (p : Primitives)
    → HexLaws p
    → HkdfLaws p
    → AeadLaws p
    → CurveLaws p
    → (ad : Bytes) (y : System) (e : Sent) (rest : List Sent) (t : RatchetState) (r r' r2 : Rng)
      (result : Result RatchetError Bytes) (answer : Bytes)
    → length ad + 40 ≤ 2 ^ 36
    → Reaches p ad y
    → Takes e y.to_b rest
    → IsFresh p r y.a.dhs.pub_bytes y.used
    → ratchet_decrypt p e.message ad (y.b, r) ≡ (result, (t, r'))
    → y.b.sending_msg_number + 1 < 2 ^ 32
    → length y.to_a < max_in_flight
    → AreBytes answer
    → length answer ≤ 2 ^ 36
    → IsFresh p r2 t.dhs.pub_bytes (t.dhs.pub_bytes ∷ y.used)
    → (msg : EncryptedMessage) × (t' s : RatchetState) × (r'' r3 : Rng) × (ratchet_encrypt p answer
          ad
          (t, r')
        ≡ (ok msg, (t', r'')))
      × (ratchet_decrypt p msg ad (y.a, r2) ≡ (ok answer, (s, r3)))
every_message_is_answered p hex hkdf aead curve ad y e rest t r r' r2 result answer short reached
      taken fresh received small room bytes fits fresh2 =
    let talk = Reaches-IsTalk p ad hkdf hex aead curve short reached in
    let got = can_receive p ad hkdf hex aead curve short y e rest r talk taken fresh in
    let same : got.state ≡ t = ap (λ x. x.1.0) (sym got.result ∙ received) in
    let few : t.sending_msg_number + 1 < 2 ^ 32 =
      omega (arith, ap (λ (u : RatchetState). u.sending_msg_number) same, got.number) in
    let after = swaps _ (receives y e rest r r' t result reached taken fresh received) in
    let talk' = Reaches-IsTalk p ad hkdf hex aead curve short after in
    elim (can_send p ad hkdf hex aead curve short _ answer r' talk' bytes fits room few) [
      | inl sent ↦
          let msg : Sent = record {
            message = sent.message;
            text = answer;
            peer = t.dhs.pub_bytes;
          } in
          let read =
            can_receive p ad hkdf hex aead curve short _ msg y.to_a r2 sent.talk here
              (rw sent.keys fresh2) in
          (sent.message, sent.state, read.state, sent.rng, read.rng, sent.result, read.result)
      | inr (mute, deaf) ↦
          let heard : t.receiving_chain_key ≡ some got.chain_key =
            ap (λ (u : RatchetState). u.receiving_chain_key) (sym same) ∙ got.listening in
          absurd (ground (arith, heard, deaf))
    ]

module _ (p : Primitives) (ad : Bytes) (hkdf : HkdfLaws p) where
  follower_keys :
      (leader follower : RatchetState) (start : Bytes) (es : List Sent)
      → Heads p ad hkdf leader follower start es
      → length follower.skipped_keys ≤ length es
  follower_keys leader follower start es (first_chain none_yet nexts count) = omega (arith, count)
  follower_keys leader follower start es (next_chain v sees total waiting count) =
      omega (arith, count)

  leader_keys :
      (leader follower : RatchetState) (es : List Sent)
      → Tails p ad hkdf follower leader es
      → length leader.skipped_keys ≤ length es
  leader_keys leader follower es (silent mute deaf empty none_yet unbanked) =
      omega (arith, unbanked)
  leader_keys leader follower es (answering v sees sending held count) = omega (arith, count)

-- Given what the hex, hkdf, aes-gcm and x25519 crates promise, in a conversation as the relation
-- Reaches describes it, under associated data of at most 2^36 - 40 bytes, neither side has more
-- keys banked than messages are on their way to it, lost ones included.
pub keys_of_messages_only :
    (p : Primitives)
    → HexLaws p
    → HkdfLaws p
    → AeadLaws p
    → CurveLaws p
    → (ad : Bytes) (y : System) → length ad + 40 ≤ 2 ^ 36
    → Reaches p ad y
    → (length y.b.skipped_keys ≤ length y.to_b) × (length y.a.skipped_keys ≤ length y.to_a)
keys_of_messages_only p hex hkdf aead curve ad y short reached =
    elim (Reaches-IsTalk p ad hkdf hex aead curve short reached) [
      | inl h ↦ (
        follower_keys p ad hkdf y.a y.b h.start y.to_b h.heads,
        leader_keys p ad hkdf y.a y.b y.to_a h.tails,
      )
      | inr h ↦ (
        leader_keys p ad hkdf y.b y.a y.to_b h.tails,
        follower_keys p ad hkdf y.b y.a h.start y.to_a h.heads,
      )
    ]
