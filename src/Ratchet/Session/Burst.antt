-- ===== src/Ratchet/Session/Burst.antt =====
-- Bursts of messages on one chain of src/ratchet.rs: encrypted in turn, decrypted as they arrive.
use trino_core.Prelude.{
  ℕ, zero, suc, ◌+◌, ◌≤◌, ◌<◌, ◌^◌, ◌≡◌, ◌≢◌, refl, Bytes, List, [], ◌∷◌, length, Bool, false,
  arith, some, none, ok, All, AreBytes, get_elem?,
}
use trino_core.Prelude.Steps.{◌>>=◌, pure}
use trino_core.Primitives.{Primitives, Rng, HexLaws, AeadLaws}
use trino_core.Crypto.{to_hex}
use trino_core.Ratchet.State.{RatchetState, EncryptedMessage, MessageHeader, decode_32, max_skip}
use trino_core.Ratchet.State.Laws.{IsKey}
use trino_core.Ratchet.Cipher.Laws.{message_of, open-seal, decode_32-to_hex, encode_header_lem}
use trino_core.Ratchet.Session.{World, Ratchet, ratchet_encrypt, ratchet_decrypt, succ_u32}
use trino_core.Ratchet.Session.Side.{IsReceiving, IsReceiving-trans, IsSending, IsSending-trans}
use trino_core.Ratchet.Session.Chain.{IsChain, Receives, received}
use trino_core.Ratchet.Session.Delivery.{IsSealed, decrypt_next}

-- A burst: the messages that a sender encrypts one after another.
unfoldable pub encrypt_all : Primitives → List Bytes → Bytes → Ratchet (List EncryptedMessage)
encrypt_all p [] ad = pure []
encrypt_all p (pt ∷ pts) ad = do
  m ← ratchet_encrypt p pt ad
  ms ← encrypt_all p pts ad
  pure (m ∷ ms)

-- The messages that arrive one after another, and their texts.
unfoldable pub decrypt_all : Primitives → List EncryptedMessage → Bytes → Ratchet (List Bytes)
decrypt_all p [] ad = pure []
decrypt_all p (m ∷ ms) ad = do
  pt ← ratchet_decrypt p m ad
  pts ← decrypt_all p ms ad
  pure (pt ∷ pts)

-- The elements at the given places.
abbrev pub select {ℓ} : {A : Type ℓ} → List ℕ → List A → List A
select [] xs = []
select (i ∷ is) xs = elim (get_elem? xs i) [ none ↦ select is xs | some x ↦ x ∷ select is xs ]

pub select-cons {ℓ} :
    {A : Type ℓ} (i : ℕ) (is : List ℕ) (xs : List A) (x : A)
    → get_elem? xs i ≡ some x
    → select (i ∷ is) xs ≡ x ∷ select is xs
select-cons i is xs x e = rw (e, select)

-- No place twice, each below the bound.
abbrev pub ArePlaces : ℕ → List ℕ → Type 0
ArePlaces bound [] = Unit
ArePlaces bound (i ∷ is) = (i < bound) × All (λ j. j ≢ i) is × ArePlaces bound is

-- The sender's end of the chain.
pub record Sends (ck : ℕ → Bytes) (d : Bytes) (n : ℕ) (s : RatchetState) : Type 0 where
  pub key : s.sending_chain_key ≡ some (ck n)
  pub number : s.sending_msg_number ≡ n
  pub own : s.dhs.pub_bytes ≡ d

-- The messages from number `n` on, each with its text.
abbrev pub AllSealed :
    Primitives → Bytes → Bytes → (ℕ → Bytes) → ℕ → List EncryptedMessage → List Bytes → Type 0
AllSealed p d ad mk n [] [] = Unit
AllSealed p d ad mk n [] (pt ∷ pts) = ⊥
AllSealed p d ad mk n (m ∷ ms) [] = ⊥
AllSealed p d ad mk n (m ∷ ms) (pt ∷ pts) =
    (m.header.n ≡ n) × IsSealed p d ad mk m pt × AllSealed p d ad mk (suc n) ms pts

pub IsSealed-at :
    (p : Primitives) (d ad : Bytes) (mk : ℕ → Bytes) (n i : ℕ) (ms : List EncryptedMessage)
    (pts : List Bytes)
    → AllSealed p d ad mk n ms pts
    → i < length pts
    → (m : EncryptedMessage) × (pt : Bytes) × (get_elem? ms i ≡ some m)
      × (get_elem? pts i ≡ some pt)
      × (m.header.n ≡ n + i)
      × IsSealed p d ad mk m pt
IsSealed-at p d ad mk n i [] [] h below = absurd (omega arith)
IsSealed-at p d ad mk n i [] (pt ∷ pts) h below = absurd h
IsSealed-at p d ad mk n i (m ∷ ms) [] h below = absurd h
IsSealed-at p d ad mk n zero (m ∷ ms) (pt ∷ pts) h below =
    (m, pt, refl, refl, omega (arith, h.0), h.1)
IsSealed-at p d ad mk n (suc i) (m ∷ ms) (pt ∷ pts) h below =
    let (m', pt', e, e', num, s) = IsSealed-at p d ad mk (suc n) i ms pts h.2 (omega arith) in
    (m', pt', e, e', omega (arith, num), s)

-- There is a message at every place below the bound, under the key `d`.
abbrev pub ArePeers : Primitives → Bytes → ℕ → List EncryptedMessage → Type 0
ArePeers p d bound ms =
    (i : ℕ)
    → i < bound
    → (m : EncryptedMessage) × (get_elem? ms i ≡ some m) × (decode_32 p m.header.dh_pub ≡ ok d)

pub AllSealed-ArePeers :
    (p : Primitives) (d ad : Bytes) (mk : ℕ → Bytes) (n : ℕ) (ms : List EncryptedMessage)
    (pts : List Bytes)
    → AllSealed p d ad mk n ms pts
    → ArePeers p d (length pts) ms
AllSealed-ArePeers p d ad mk n ms pts h i below =
    let (m, pt, em, _, _, sealed) = IsSealed-at p d ad mk n i ms pts h below in (m, em, sealed.peer)

-- The texts are bytes, and none is longer than the cipher takes.
abbrev pub AreTexts : List Bytes → Type 0
AreTexts = All (λ pt. AreBytes pt × (length pt ≤ 2 ^ 36))

module _ (p : Primitives) (hex : HexLaws p) (aead : AeadLaws p) (d : Bytes) (dk : IsKey d)
    (first last : ℕ) (ck mk : ℕ → Bytes) (chain : IsChain p first ck mk) (small : last < 2 ^ 32)
    (ad : Bytes) (short : length ad + 40 ≤ 2 ^ 36) where
  -- A text that is encrypted on the chain.
  pub encrypt_next :
      (pt : Bytes) (n : ℕ) (s : RatchetState) (r : Rng)
      → Sends ck d n s
      → first ≤ n
      → n < last
      → AreBytes pt
      → length pt ≤ 2 ^ 36
      → (msg : EncryptedMessage) × (s' : RatchetState) × (r' : Rng) × (ratchet_encrypt p pt ad
            (s, r)
          ≡ (ok msg, (s', r')))
        × (msg.header.n ≡ n)
        × IsSealed p d ad mk msg pt
        × Sends ck d (suc n) s'
        × IsSending s s'
        × (msg.header.pn ≡ s.previous_sending_chain_length)
  unfolding ratchet_encrypt
  encrypt_next pt n s r h begun below bytes fits =
      let header : MessageHeader = record {
        dh_pub = to_hex p d;
        pn = s.previous_sending_chain_length;
        n = n;
      } in
      let e = decode_32-to_hex p hex d dk in
      let (c, nonce, r', sealed, opened) =
        open-seal p hex aead header d (mk n) pt ad r e dk.1 (chain.length-mk n begun) bytes fits
          short in
      let up : succ_u32 n ≡ suc n = omega arith in
      (
        message_of p header c nonce,
        record s { sending_chain_key = some (ck (suc n)); sending_msg_number = suc n },
        r',
        rw (
          h.key,
          chain.derives n begun,
          h.own,
          h.number,
          encode_header_lem p hex header d e,
          sealed,
          up,
        ),
        refl,
        record { peer = e; opens = opened },
        record { key = refl; number = refl; own = h.own },
        refl,
        refl,
      )

  others :
      (i n : ℕ) (done : ℕ → Bool) (order : List ℕ)
      → n ≡ first + i
      → All (λ j. j ≢ i) order
      → All (λ j. done (first + j) ≡ false) order
      → All (λ j. received n done (first + j) ≡ false) order
  others i n done [] e apart new = tt
  others i n done (j ∷ order) e apart new =
      (ground (arith, apart.0, new.0), others i n done order e apart.1 new.1)

  -- A burst of texts is encrypted.
  pub encrypt_all_lem :
      (pts : List Bytes) (n : ℕ) (s : RatchetState) (r : Rng)
      → Sends ck d n s
      → first ≤ n
      → n + length pts ≤ last
      → AreTexts pts
      → (ms : List EncryptedMessage) × (w : World) × (encrypt_all p pts ad (s, r) ≡ (ok ms, w))
        × AllSealed p d ad mk n ms pts
        × IsSending s w.0
  unfolding encrypt_all
  encrypt_all_lem [] n s r h begun fits lens = ([], (s, r), refl, tt, refl)
  encrypt_all_lem (pt ∷ pts) n s r h begun fits lens =
      let (m, s', r', e, num, sealed, h', side, _) =
        encrypt_next pt n s r h begun (omega arith) lens.0.0 lens.0.1 in
      let (ms, w, e', all, sides) =
        encrypt_all_lem pts (suc n) s' r' h' (omega arith) (omega arith) lens.1 in
      (m ∷ ms, w, rw (e, e'), (num, sealed, all), IsSending-trans s s' w.0 side sides)

  -- Those of its messages that arrive are decrypted.
  pub decrypt_all_lem :
      (order : List ℕ) (ms : List EncryptedMessage) (pts : List Bytes) (done : ℕ → Bool)
      (t : RatchetState) (r : Rng)
      → AllSealed p d ad mk first ms pts
      → first + length pts ≤ last
      → length pts ≤ max_skip
      → ArePlaces (length pts) order
      → All (λ i. done (first + i) ≡ false) order
      → Receives p d first last ck mk done t
      → (t' : RatchetState) × (decrypt_all p (select order ms) ad (t, r)
          ≡ (ok (select order pts), (t', r)))
        × IsReceiving t t'
  unfolding decrypt_all
  decrypt_all_lem [] ms pts done t r all fits near places new h = (t, refl, refl)
  decrypt_all_lem (i ∷ order) ms pts done t r all fits near places new h =
      let (m, pt, em, ept, num, sealed) = IsSealed-at p d ad mk first i ms pts all places.0 in
      let unseen : done m.header.n ≡ false = rw num new.0 in
      let (t', e, h', side) =
        decrypt_next p hex d dk first last ck mk chain small ad m pt done t r sealed h unseen
          (omega (arith, num)) (omega (arith, num, h.tracks.begun)) (omega (arith, num)) in
      let (t'', e', sides) =
        decrypt_all_lem order ms pts (received m.header.n done) t' r all fits near places.2
          (others i m.header.n done order num places.1 new.1) h' in
      (
        t'',
        rw (select-cons i order ms m em, select-cons i order pts pt ept, e, e'),
        IsReceiving-trans t t' t'' side sides,
      )
