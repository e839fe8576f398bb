-- ===== src/Ratchet/Session/AnyOrder.antt =====
-- A burst of messages on one chain arrives in any order: every message comes out, exactly once.
use trino_core.Prelude.{
  ℕ, zero, suc, ◌+◌, ◌-◌, ◌≤◌, ◌<◌, ◌^◌, ◌≡◌, refl, sym, ap, ◌∙◌, Bytes, List, [], ◌∷◌, length,
  Bool, false, contains, lookup, arith, some, none, ok, All,
}
use trino_core.Primitives.{Primitives, Rng, HexLaws, HkdfLaws, AeadLaws}
use trino_core.Ratchet.State.{
  RatchetState, EncryptedMessage, max_skip, max_skipped_keys, skipped_key_id,
}
use trino_core.Ratchet.State.Laws.{IsKey, kdf_ck_total}
use trino_core.Ratchet.Store.Bank.{IsStore}
use trino_core.Ratchet.Session.{World}
use trino_core.Ratchet.Session.Side.{IsReceiving, IsSending}
use trino_core.Ratchet.Session.Chain.{IsChain, Receives}
use trino_core.Ratchet.Session.Burst.{
  encrypt_all, decrypt_all, select, ArePlaces, Sends, ArePeers, AllSealed-ArePeers, AreTexts,
  encrypt_all_lem, decrypt_all_lem,
}

-- The two ends of a chain that begins: the sender's chain key and counter are the receiver's, the
-- receiver's peer key is the sender's own, and the receiver has banked nothing ahead.
pub record InStep (p : Primitives) (s t : RatchetState) : Type 0 where
  pub own_key : IsKey s.dhs.pub_bytes
  pub chain_key : Bytes
  pub sending : s.sending_chain_key ≡ some chain_key
  pub receiving : t.receiving_chain_key ≡ some chain_key
  pub number : t.receiving_msg_number ≡ s.sending_msg_number
  pub peer : t.dhr ≡ some s.dhs.pub_bytes
  pub live : contains s.dhs.pub_bytes t.retired_peer_dh_keys ≡ false
  pub store : IsStore t
  pub none_ahead :
      (n : ℕ)
      → t.receiving_msg_number ≤ n
      → lookup (skipped_key_id p s.dhs.pub_bytes n) t.skipped_keys ≡ none

module _ (p : Primitives) (laws : HkdfLaws p) (first : ℕ) (c : Bytes) where
  -- The chain keys and message keys from the key `c` at number `first` on.
  iterate : ℕ → Bytes
  iterate zero = c
  iterate (suc k) = (kdf_ck_total p laws (iterate k)).0.0

  pub chain_key : ℕ → Bytes
  chain_key n = iterate (n - first)

  pub message_key : ℕ → Bytes
  message_key n = (kdf_ck_total p laws (chain_key n)).0.1

  pub iterate-IsChain : IsChain p first chain_key message_key
  unfolding chain_key message_key iterate
  iterate-IsChain = record {
    derives = λ n h.
        let e : suc n - first ≡ suc (n - first) = omega arith in
        rw e (kdf_ck_total p laws (iterate (n - first))).1;
    length-mk = λ n h. (kdf_ck_total p laws (chain_key n)).3.1;
  }

  pub chain_key_first : chain_key first ≡ c
  unfolding chain_key iterate
  chain_key_first = let e : first - first ≡ 0 = omega arith in rw e

module _ (p : Primitives) (laws : HkdfLaws p) (s t : RatchetState) where
  pub InStep-Sends :
      (h : InStep p s t)
      → Sends
          (chain_key p laws s.sending_msg_number h.chain_key)
          s.dhs.pub_bytes
          s.sending_msg_number
          s
  InStep-Sends h =
      let start = chain_key_first p laws s.sending_msg_number h.chain_key in
      record { key = h.sending ∙ ap some (sym start); number = refl; own = refl }

  pub InStep-Receives :
      (last : ℕ) (h : InStep p s t)
      → length t.skipped_keys + (last - s.sending_msg_number) ≤ max_skipped_keys
      → let first = s.sending_msg_number in
        Receives p s.dhs.pub_bytes first last
          (chain_key p laws first h.chain_key)
          (message_key p laws first h.chain_key)
          (λ _. false)
          t
  InStep-Receives last h room =
      let first = s.sending_msg_number in
      let start = chain_key_first p laws first h.chain_key in
      record {
        tracks = record {
          peer = h.peer;
          live = h.live;
          begun = omega (arith, h.number);
          store = h.store;
          banked = λ n f m. absurd (omega (arith, h.number));
          fresh = h.none_ahead;
          undone = λ n m. refl;
          room = omega (arith, h.number);
        };
        key =
            h.receiving
            ∙ ap some (sym start)
            ∙ ap (λ n. some (chain_key p laws first h.chain_key n)) (sym h.number);
      }

none_seen : (order : List ℕ) → All (λ (i : ℕ). ◌≡◌ {A = Bool} false false) order
none_seen [] = tt
none_seen (i ∷ order) = (refl, none_seen order)

-- Two ends in step: a burst is encrypted, and decrypted in any order, and either end changes its own
-- side only.
pub burst_lem :
    (p : Primitives)
    → HexLaws p
    → HkdfLaws p
    → AeadLaws p
    → (s t : RatchetState) (r r' : Rng) (ad : Bytes) (pts : List Bytes) (order : List ℕ)
    → InStep p s t
    → s.sending_msg_number + length pts < 2 ^ 32
    → length pts ≤ max_skip
    → length t.skipped_keys + length pts ≤ max_skipped_keys
    → length ad + 40 ≤ 2 ^ 36
    → AreTexts pts
    → ArePlaces (length pts) order
    → (ms : List EncryptedMessage) × (w : World) × (t' : RatchetState) × (encrypt_all p pts ad
          (s, r)
        ≡ (ok ms, w))
      × (decrypt_all p (select order ms) ad (t, r') ≡ (ok (select order pts), (t', r')))
      × IsSending s w.0
      × IsReceiving t t'
      × ArePeers p s.dhs.pub_bytes (length pts) ms
burst_lem p hex hkdf aead s t r r' ad pts order h small near room short lens places =
    let first = s.sending_msg_number in
    let last = first + length pts in
    let d = s.dhs.pub_bytes in
    let ck = chain_key p hkdf first h.chain_key in
    let mk = message_key p hkdf first h.chain_key in
    let chain = iterate-IsChain p hkdf first h.chain_key in
    let (ms, w, encrypted, all, sending) =
      encrypt_all_lem p hex aead d h.own_key first last ck mk chain small ad short pts first s r
        (InStep-Sends p hkdf s t h) (omega arith) (omega arith) lens in
    let (t', decrypted, receiving) =
      decrypt_all_lem p hex aead d h.own_key first last ck mk chain small ad short order ms pts
        (λ _. false) t r' all (omega arith) near places (none_seen order)
        (InStep-Receives p hkdf s t last h (omega arith)) in
    (
      ms,
      w,
      t',
      encrypted,
      decrypted,
      sending,
      receiving,
      AllSealed-ArePeers p d ad mk first ms pts all,
    )

-- Two ends of a chain that are in step: the sender encrypts at most 1000 texts of bytes, none
-- longer than 2^36, without its counter wrapping, and the receiver's store has room for as many
-- keys. Given what the hex, hkdf and aes-gcm crates promise, all are encrypted, and whichever of
-- the messages arrive, each once and in whatever order, each is decrypted to its text.
pub every_order_decrypts :
    (p : Primitives)
    → HexLaws p
    → HkdfLaws p
    → AeadLaws p
    → (s t : RatchetState) (r r' : Rng) (ad : Bytes) (pts : List Bytes) (order : List ℕ)
    → InStep p s t
    → s.sending_msg_number + length pts < 2 ^ 32
    → length pts ≤ max_skip
    → length t.skipped_keys + length pts ≤ max_skipped_keys
    → length ad + 40 ≤ 2 ^ 36
    → AreTexts pts
    → ArePlaces (length pts) order
    → (ms : List EncryptedMessage) × (w : World) × (t' : RatchetState) × (encrypt_all p pts ad
          (s, r)
        ≡ (ok ms, w))
      × (decrypt_all p (select order ms) ad (t, r') ≡ (ok (select order pts), (t', r')))
every_order_decrypts p hex hkdf aead s t r r' ad pts order h small near room short lens places =
    let (ms, w, t', encrypted, decrypted, _, _, _) =
      burst_lem p hex hkdf aead s t r r' ad pts order h small near room short lens places in
    (ms, w, t', encrypted, decrypted)
