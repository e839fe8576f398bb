-- ===== src/Ratchet/Session/Once.antt =====
-- Replays on one chain of src/ratchet.rs: a message that was decrypted is refused from then on.
use trino_core.Prelude.{
  ℕ, ◌+◌, ◌≤◌, ◌<◌, ◌^◌, ◌≡◌, refl, Bytes, Bool, true, false, bytes_eq_refl, lookup, arith, some,
  none, ok, err, if◌then◌else◌, Bool-cases, Result, inl, inr, List, [], ◌∷◌, All, length, get_elem?,
}
use trino_core.Primitives.{Primitives, Rng, HexLaws, HkdfLaws, AeadLaws}
use trino_core.Ratchet.State.{
  RatchetState, RatchetError, replay, EncryptedMessage, max_skip, max_skipped_keys, skipped_key_id,
  decode_32,
}
use trino_core.Ratchet.State.Laws.{IsKey}
use trino_core.Ratchet.Session.{
  World, try_skipped_message_key, is_replay, receive_fresh, use_skipped, ratchet_decrypt_inner,
  ratchet_decrypt,
}
use trino_core.Ratchet.Session.Chain.{IsChain, Receives, received}
use trino_core.Ratchet.Session.Delivery.{IsSealed, decrypt_next}
use trino_core.Ratchet.Session.Burst.{
  AllSealed, IsSealed-at, select, select-cons, AreTexts, encrypt_all, encrypt_all_lem,
}
use trino_core.Ratchet.Session.AnyOrder.{
  InStep, chain_key, message_key, iterate-IsChain, InStep-Sends, InStep-Receives,
}

module _ (p : Primitives) where
  -- A message that the replay test meets, and for which no key is banked.
  refused :
      (msg : EncryptedMessage) (d ad : Bytes) (t : RatchetState) (r : Rng)
      → decode_32 p msg.header.dh_pub ≡ ok d
      → lookup (skipped_key_id p d msg.header.n) t.skipped_keys ≡ none
      → is_replay t d msg.header.n ≡ true
      → ratchet_decrypt p msg ad (t, r) ≡ (err (replay msg.header.n), (t, r))
  unfolding ratchet_decrypt ratchet_decrypt_inner try_skipped_message_key use_skipped receive_fresh
  refused msg d ad t r peer unbanked again =
      rw (peer, unbanked, try_skipped_message_key, again) refl

  -- The messages that arrive one after another, errors or not, and what comes of each.
  pub decrypt_each :
      List EncryptedMessage → Bytes → World → List (Result RatchetError Bytes) × World
  decrypt_each [] ad w = ([], w)
  decrypt_each (m ∷ ms) ad w =
      let (x, w') = ratchet_decrypt p m ad w in
      let (xs, w'') = decrypt_each ms ad w' in (x ∷ xs, w'')

-- What should come of messages of a burst that starts at number `first`, which arrive in the order
-- of the given places: the text if the number was not received before, else that it is a replay.
abbrev pub outcomes : ℕ → (ℕ → Bool) → List ℕ → List Bytes → List (Result RatchetError Bytes)
outcomes first done [] pts = []
outcomes first done (i ∷ order) pts = elim (get_elem? pts i) [
  | none ↦ outcomes first done order pts
  | some pt ↦
      (if done (first + i) then err (replay (first + i)) else ok pt)
      ∷ outcomes first (received (first + i) done) order pts
]

outcomes-cons :
    (first i n : ℕ) (done : ℕ → Bool) (order : List ℕ) (pts : List Bytes) (pt : Bytes)
    → get_elem? pts i ≡ some pt
    → n ≡ first + i
    → outcomes first done (i ∷ order) pts
      ≡ (if done n then err (replay n) else ok pt) ∷ outcomes first (received n done) order pts
outcomes-cons first i n done order pts pt e num = rw (e, outcomes, num)

module _ (p : Primitives) (hex : HexLaws p) (d : Bytes) (dk : IsKey d) (first last : ℕ)
    (ck mk : ℕ → Bytes) (chain : IsChain p first ck mk) (small : last < 2 ^ 32) (ad : Bytes) where
  -- A message of the chain that was received.
  pub decrypt_again :
      (msg : EncryptedMessage) (done : ℕ → Bool) (t : RatchetState) (r : Rng)
      → decode_32 p msg.header.dh_pub ≡ ok d
      → Receives p d first last ck mk done t
      → done msg.header.n ≡ true
      → first ≤ msg.header.n
      → ratchet_decrypt p msg ad (t, r) ≡ (err (replay msg.header.n), (t, r))
  unfolding is_replay
  decrypt_again msg done t r peer h old begun =
      let n = msg.header.n in
      let passed : n < t.receiving_msg_number = ground (arith, h.tracks.undone n) in
      let unbanked : lookup (skipped_key_id p d n) t.skipped_keys ≡ none =
        ground (arith, h.tracks.banked n begun) in
      let again : is_replay t d n ≡ true =
        rw (h.tracks.live, h.tracks.peer, bytes_eq_refl d) (ground arith) in
      refused p msg d ad t r peer unbanked again

  received_twice :
      (n : ℕ) (done : ℕ → Bool) (t : RatchetState)
      → done n ≡ true
      → Receives p d first last ck mk done t
      → Receives p d first last ck mk (received n done) t
  received_twice n done t old h = record {
    tracks = record {
      peer = h.tracks.peer;
      live = h.tracks.live;
      begun = h.tracks.begun;
      store = h.tracks.store;
      banked = λ m f b. ground (arith, h.tracks.banked m f b);
      fresh = h.tracks.fresh;
      undone = λ m above. ground (arith, h.tracks.undone m);
      room = h.tracks.room;
    };
    key = h.key;
  }

  -- One message of the chain, received before or not.
  decrypt_any :
      (msg : EncryptedMessage) (pt : Bytes) (done : ℕ → Bool) (t : RatchetState) (r : Rng)
      → IsSealed p d ad mk msg pt
      → Receives p d first last ck mk done t
      → first ≤ msg.header.n
      → msg.header.n ≤ t.receiving_msg_number + max_skip
      → msg.header.n < last
      → (t' : RatchetState) × (ratchet_decrypt p msg ad (t, r)
          ≡ ((if done msg.header.n then err (replay msg.header.n) else ok pt), (t', r)))
        × Receives p d first last ck mk (received msg.header.n done) t'
  decrypt_any msg pt done t r m h begun near below = elim (Bool-cases (done msg.header.n)) [
    | inl old ↦ (
      t,
      rw old (decrypt_again msg done t r m.peer h old begun),
      received_twice msg.header.n done t old h,
    )
    | inr new ↦
        let (t', e, h', _) =
          decrypt_next p hex d dk first last ck mk chain small ad msg pt done t r m h new begun near
            below in
        (t', rw new e, h')
  ]

  pub decrypt_each_lem :
      (order : List ℕ) (ms : List EncryptedMessage) (pts : List Bytes) (done : ℕ → Bool)
      (t : RatchetState) (r : Rng)
      → AllSealed p d ad mk first ms pts
      → first + length pts ≤ last
      → length pts ≤ max_skip
      → All (λ i. i < length pts) order
      → Receives p d first last ck mk done t
      → (t' : RatchetState) × (decrypt_each p (select order ms) ad (t, r)
          ≡ (outcomes first done order pts, (t', r)))
  unfolding decrypt_each
  decrypt_each_lem [] ms pts done t r all fits near places h = (t, refl)
  decrypt_each_lem (i ∷ order) ms pts done t r all fits near places h =
      let (m, pt, em, ept, num, sealed) = IsSealed-at p d ad mk first i ms pts all places.0 in
      let (t', e, h') =
        decrypt_any m pt done t r sealed h (omega (arith, num))
          (omega (arith, num, h.tracks.begun, places.0)) (omega (arith, num, places.0)) in
      let (t'', e') =
        decrypt_each_lem order ms pts (received m.header.n done) t' r all fits near places.1 h' in
      (
        t'',
        rw (
          select-cons i order ms m em,
          outcomes-cons first i m.header.n done order pts pt ept num,
          e,
          e',
        ),
      )

-- Two ends of a chain that are in step: the sender encrypts at most 1000 texts of bytes, none
-- longer than 2^36, without its counter wrapping, and the receiver's store has room for as many
-- keys; the messages arrive in any order, each any number of times. Given what the hex, hkdf and
-- aes-gcm crates promise, all are encrypted; every message is decrypted to its text when it
-- arrives for the first time, and is refused as a replay of its number from then on, whatever
-- arrives in between.
pub replays_refused :
    (p : Primitives)
    → HexLaws p
    → HkdfLaws p
    → AeadLaws p
    → (s t : RatchetState) (r r' : Rng) (ad : Bytes) (pts : List Bytes) (order : List ℕ)
    → InStep p s t
    → s.sending_msg_number + length pts < 2 ^ 32
    → length pts ≤ max_skip
    → length t.skipped_keys + length pts ≤ max_skipped_keys
    → length ad + 40 ≤ 2 ^ 36
    → AreTexts pts
    → All (λ i. i < length pts) order
    → (ms : List EncryptedMessage) × (w : World) × (t' : RatchetState) × (encrypt_all p pts ad
          (s, r)
        ≡ (ok ms, w))
      × (decrypt_each p (select order ms) ad (t, r')
          ≡ (outcomes s.sending_msg_number (λ _. false) order pts, (t', r')))
replays_refused p hex hkdf aead s t r r' ad pts order h small near room short lens places =
    let first = s.sending_msg_number in
    let last = first + length pts in
    let d = s.dhs.pub_bytes in
    let ck = chain_key p hkdf first h.chain_key in
    let mk = message_key p hkdf first h.chain_key in
    let chain = iterate-IsChain p hkdf first h.chain_key in
    let (ms, w, encrypted, all, _) =
      encrypt_all_lem p hex aead d h.own_key first last ck mk chain small ad short pts first s r
        (InStep-Sends p hkdf s t h) (omega arith) (omega arith) lens in
    let (t', decrypted) =
      decrypt_each_lem p hex d h.own_key first last ck mk chain small ad order ms pts (λ _. false) t
        r' all (omega arith) near places (InStep-Receives p hkdf s t last h (omega arith)) in
    (ms, w, t', encrypted, decrypted)
