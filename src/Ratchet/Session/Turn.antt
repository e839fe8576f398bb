-- ===== src/Ratchet/Session/Turn.antt =====
-- A new chain of src/ratchet.rs: the first message under a new key of the peer makes the DH step, after
-- which both ends are in step.
use trino_core.Prelude.{
  ℕ, ◌+◌, ◌≤◌, ◌≡◌, refl, sym, ap, ◌∙◌, Bytes, true, false, bytes_eq_iff, lookup, arith, some, none,
  ok, Option, List, [], ◌∷◌, ◌++◌, contains, length, drop, Result, err, Result-cases, ◌^◌, inl, inr,
}
use trino_core.Primitives.{Primitives, Rng, HexLaws, HkdfLaws, AeadLaws, CurveLaws}
use trino_core.Identity.Keys.{KeyPair, generate_x25519, x25519_derive_shared}
use trino_core.Identity.Keys.Laws.{IsX25519, x25519_derive_shared_agree, x25519_derive_shared_lem}
use trino_core.Ratchet.State.{
  RatchetState, RatchetError, EncryptedMessage, kdf_rk, decode_32, skipped_key_id, max_skip,
  max_skipped_keys,
}
use trino_core.Ratchet.State.Laws.{kdf_rk_total}
use trino_core.Ratchet.Store.Bank.{IsStore}
use trino_core.Ratchet.Session.{
  World, dh_ratchet_step, begin_step, retire, retired_after, is_key, is_replay, enter_chain,
  receive_next, receive_fresh, use_skipped, ratchet_decrypt_inner, ratchet_decrypt, roll_back,
  try_skipped_message_key,
}
use trino_core.Ratchet.Session.Side.{IsReceiving, IsSending, skip_message_keys-none}
use trino_core.Ratchet.Session.Delivery.{enter_chain_same}
use trino_core.Ratchet.Session.Burst.{
  AreTexts, ArePlaces, select, select-cons, encrypt_all, decrypt_all,
}
use trino_core.Ratchet.Session.AnyOrder.{InStep, burst_lem}

-- The sender has begun a chain under a key that the receiver has not seen, and this key and the
-- receiver's own derive the sender's root key and chain key from the receiver's root key.
pub record Ahead (p : Primitives) (s t : RatchetState) : Type 0 where
  pub own : IsX25519 p s.dhs
  pub theirs : IsX25519 p t.dhs
  pub live : p.was_contributory (p.diffie_hellman s.dhs.priv_bytes t.dhs.pub_bytes) ≡ true
  pub chain_key : Bytes
  pub agreed :
      kdf_rk p t.root_key (p.diffie_hellman s.dhs.priv_bytes t.dhs.pub_bytes)
      ≡ ok (s.root_key, chain_key)
  pub sending : s.sending_chain_key ≡ some chain_key
  pub number : s.sending_msg_number ≡ 0
  pub unseen : is_key t.dhr s.dhs.pub_bytes ≡ false
  pub unretired : contains s.dhs.pub_bytes t.retired_peer_dh_keys ≡ false
  pub unbanked : (n : ℕ) → lookup (skipped_key_id p s.dhs.pub_bytes n) t.skipped_keys ≡ none
  pub store : IsStore t

contains-append :
    (d : Bytes) (xs ys : List Bytes)
    → contains d xs ≡ false
    → contains d ys ≡ false
    → contains d (xs ++ ys) ≡ false
unfolding contains
contains-append d [] ys h k = k
contains-append d (x ∷ xs) ys h k =
    let rest = contains-append d xs ys (ground arith) k in ground (arith, h, rest)

contains-drop :
    (d : Bytes) (xs : List Bytes) → contains d xs ≡ false → contains d (drop 1 xs) ≡ false
unfolding contains
contains-drop d [] h = h
contains-drop d (x ∷ xs) h = ground arith

-- A key that is neither the one retired nor among those that were is not retired.
pub contains-retired_after :
    (d peer : Bytes) (previous : Option Bytes) (retired : List Bytes)
    → is_key previous d ≡ false
    → contains d retired ≡ false
    → contains d (retired_after previous peer retired) ≡ false
unfolding retired_after retire contains
contains-retired_after d peer none retired h k = k
contains-retired_after d peer (some x) retired h k =
    let one : contains d (x ∷ []) ≡ false = ground (arith, h, bytes_eq_iff d x, bytes_eq_iff x d) in
    let all = contains-append d retired (x ∷ []) k one in
    let rest = contains-drop d (retired ++ (x ∷ [])) all in ground (arith, k, all, rest)

-- The answer: the receiver's own new chain, which derives from the sender's root key.
pub record Answers (p : Primitives) (s t : RatchetState) (own : KeyPair) : Type 0 where
  pub own_key : t.dhs ≡ own
  pub peer : t.dhr ≡ some s.dhs.pub_bytes
  pub number : t.sending_msg_number ≡ 0
  pub chain_key : Bytes
  pub sending : t.sending_chain_key ≡ some chain_key
  pub agreed :
      p.was_contributory (p.diffie_hellman own.priv_bytes s.dhs.pub_bytes) ≡ true
      → kdf_rk p s.root_key (p.diffie_hellman own.priv_bytes s.dhs.pub_bytes)
        ≡ ok (t.root_key, chain_key)

pub Answers-IsReceiving :
    (p : Primitives) (s t t' : RatchetState) (own : KeyPair)
    → IsReceiving t t'
    → Answers p s t own
    → Answers p s t' own
Answers-IsReceiving p s t t' own e h = record {
  own_key = ap (λ (u : RatchetState). u.dhs) e ∙ h.own_key;
  peer = ap (λ (u : RatchetState). u.dhr) e ∙ h.peer;
  number = ap (λ (u : RatchetState). u.sending_msg_number) e ∙ h.number;
  chain_key = h.chain_key;
  sending = ap (λ (u : RatchetState). u.sending_chain_key) e ∙ h.sending;
  agreed = λ live.
      h.agreed live ∙ ap (λ k. ok (k, h.chain_key)) (sym (ap (λ (u : RatchetState). u.root_key) e));
}

module _ (p : Primitives) (hkdf : HkdfLaws p) (curve : CurveLaws p) where
  -- A step of both ends under the receiver's next key, which is the next that is drawn.
  pub dh_ratchet_step-InStep :
      (s t : RatchetState) (r : Rng)
      → Ahead p s t
      → (t' : RatchetState) × (r' : Rng) × (dh_ratchet_step p s.dhs.pub_bytes (t, r)
          ≡ (ok tt, (t', r')))
        × InStep p s t'
        × Answers p s t' (generate_x25519 p r).0
        × (t'.skipped_keys ≡ t.skipped_keys)
        × (t'.previous_sending_chain_length ≡ t.sending_msg_number)
        × (t'.retired_peer_dh_keys ≡ retired_after t.dhr s.dhs.pub_bytes t.retired_peer_dh_keys)
  unfolding dh_ratchet_step begin_step
  dh_ratchet_step-InStep s t r h =
      let own = (generate_x25519 p r).0 in
      let r' = (generate_x25519 p r).1 in
      let (_, received) =
        x25519_derive_shared_agree p curve s.dhs t.dhs r r h.own h.theirs h.live in
      let (out, r'') = x25519_derive_shared p own.priv_bytes s.dhs.pub_bytes r' in
      let ((root, send_ck), derived, _, _) = kdf_rk_total p hkdf s.root_key out in
      (
        record (begin_step s.dhs.pub_bytes t) {
          root_key = root;
          receiving_chain_key = some h.chain_key;
          dhs = own;
          sending_chain_key = some send_ck;
        },
        r'',
        rw (received, h.agreed, derived),
        record {
          own_key =
              rw h.own
                (curve.public-AreBytes s.dhs.priv_bytes, curve.length-public s.dhs.priv_bytes);
          chain_key = h.chain_key;
          sending = h.sending;
          receiving = refl;
          number = sym h.number;
          peer = refl;
          live =
              contains-retired_after s.dhs.pub_bytes s.dhs.pub_bytes t.dhr t.retired_peer_dh_keys
                h.unseen h.unretired;
          store = h.store;
          none_ahead = λ n above. h.unbanked n;
        },
        record {
          own_key = refl;
          peer = refl;
          number = refl;
          chain_key = send_ck;
          sending = refl;
          agreed = λ live.
              ap (λ (x : Bytes × Rng). kdf_rk p s.root_key x.0)
                (sym (x25519_derive_shared_lem p own.priv_bytes s.dhs.pub_bytes r' live))
              ∙ derived;
        },
        refl,
        refl,
        refl,
      )

-- No replay: the peer key is new, or its chain is current and the number is not below the counter.
pub is_replay_fresh :
    (t : RatchetState) (d : Bytes) (n : ℕ)
    → is_key t.dhr d ≡ false
    → contains d t.retired_peer_dh_keys ≡ false
    → is_replay t d n ≡ false
unfolding is_replay
is_replay_fresh t d n unseen unretired = ground arith

pub is_replay_ahead :
    (t : RatchetState) (d : Bytes) (n : ℕ)
    → t.receiving_msg_number ≤ n
    → contains d t.retired_peer_dh_keys ≡ false
    → is_replay t d n ≡ false
unfolding is_replay
is_replay_ahead t d n above unretired = ground arith

module _ (p : Primitives) (d : Bytes) (ad : Bytes) where
  -- A message under the peer key `d`, of which nothing is banked, enters the chain and is then
  -- received there.
  pub inner_lem :
      (msg : EncryptedMessage) (t t' : RatchetState) (r r' : Rng)
      → decode_32 p msg.header.dh_pub ≡ ok d
      → lookup (skipped_key_id p d msg.header.n) t.skipped_keys ≡ none
      → is_replay t d msg.header.n ≡ false
      → enter_chain p msg d (t, r) ≡ (ok tt, (t', r'))
      → ratchet_decrypt_inner p msg ad (t, r) ≡ receive_next p msg ad (t', r')
  unfolding ratchet_decrypt_inner try_skipped_message_key use_skipped receive_fresh
  inner_lem msg t t' r r' peer unbanked new entered =
      rw (peer, unbanked, try_skipped_message_key, new, entered)

  roll_back-ok :
      (t : RatchetState) (x : Result RatchetError Bytes × World) (pt : Bytes) (w : World)
      → roll_back t x ≡ (ok pt, w)
      → x ≡ (ok pt, w)
  roll_back-ok t (ok a, w') pt w h = h
  roll_back-ok t (err e, w') pt w h = absurd (ground (arith, ap (λ x. x.0) h))

  -- Decrypting before the step is decrypting after it.
  pub ratchet_decrypt-entered :
      (msg : EncryptedMessage) (t t' : RatchetState) (r r' : Rng) (pt : Bytes) (w : World)
      → ratchet_decrypt_inner p msg ad (t, r) ≡ ratchet_decrypt_inner p msg ad (t', r')
      → ratchet_decrypt p msg ad (t', r') ≡ (ok pt, w)
      → ratchet_decrypt p msg ad (t, r) ≡ (ok pt, w)
  unfolding ratchet_decrypt
  ratchet_decrypt-entered msg t t' r r' pt w same h =
      ap (roll_back t) (same ∙ roll_back-ok t' (ratchet_decrypt_inner p msg ad (t', r')) pt w h)

  -- The same for the first message of several.
  decrypt_all-entered :
      (m : EncryptedMessage) (ms : List EncryptedMessage) (t t' : RatchetState) (r r' : Rng)
      (pts : List Bytes) (w : World)
      → ratchet_decrypt_inner p m ad (t, r) ≡ ratchet_decrypt_inner p m ad (t', r')
      → decrypt_all p (m ∷ ms) ad (t', r') ≡ (ok pts, w)
      → decrypt_all p (m ∷ ms) ad (t, r) ≡ (ok pts, w)
  unfolding decrypt_all
  decrypt_all-entered m ms t t' r r' pts w same h =
      elim (Result-cases (ratchet_decrypt p m ad (t', r')).0) [
        | inl (pt, fine) ↦
            let w' = (ratchet_decrypt p m ad (t', r')).1 in
            let after : ratchet_decrypt p m ad (t', r') ≡ (ok pt, w') = ap (λ x. (x, w')) fine in
            let before = ratchet_decrypt-entered m t t' r r' pt w' same after in
            rw before (rw after at h)
        | inr (e, failed) ↦
            let w' = (ratchet_decrypt p m ad (t', r')).1 in
            let after : ratchet_decrypt p m ad (t', r') ≡ (err e, w') = ap (λ x. (x, w')) failed in
            let stuck : (err e, w') ≡ (ok pts, w) = rw after at h in
            absurd
              (ground (arith, ap (λ (x : Result RatchetError (List Bytes) × World). x.0) stuck))
      ]

module _ (p : Primitives) (hex : HexLaws p) (hkdf : HkdfLaws p) (aead : AeadLaws p)
    (curve : CurveLaws p) where
  -- The receiver has no receiving chain yet.
  enter_first :
      (msg : EncryptedMessage) (d : Bytes) (t t' : RatchetState) (r r' : Rng)
      → is_key t.dhr d ≡ false
      → t.receiving_chain_key ≡ none
      → dh_ratchet_step p d (t, r) ≡ (ok tt, (t', r'))
      → enter_chain p msg d (t, r) ≡ (ok tt, (t', r'))
  unfolding enter_chain
  enter_first msg d t t' r r' unseen none_yet stepped =
      rw (unseen, skip_message_keys-none p msg.header.pn t none_yet) stepped

  pub turn_lem :
      (s t : RatchetState) (r r' : Rng) (ad : Bytes) (pts : List Bytes) (i : ℕ) (order : List ℕ)
      → Ahead p s t
      → t.receiving_chain_key ≡ none
      → length pts ≤ max_skip
      → length t.skipped_keys + length pts ≤ max_skipped_keys
      → length ad + 40 ≤ 2 ^ 36
      → AreTexts pts
      → ArePlaces (length pts) (i ∷ order)
      → (ms : List EncryptedMessage) × (w : World) × (t' : RatchetState) × (r'' : Rng)
        × (encrypt_all p pts ad (s, r) ≡ (ok ms, w))
        × (decrypt_all p (select (i ∷ order) ms) ad (t, r')
            ≡ (ok (select (i ∷ order) pts), (t', r'')))
        × IsSending s w.0
        × Answers p s t' (generate_x25519 p r').0
  turn_lem s t r r' ad pts i order h none_yet near room short lens places =
      let d = s.dhs.pub_bytes in
      let (t1, r1, stepped, together, answers, stores, _, _) =
        dh_ratchet_step-InStep p hkdf curve s t r' h in
      let (ms, w, t', encrypted, decrypted, sending, receiving, peers) =
        burst_lem p hex hkdf aead s t1 r r1 ad pts (i ∷ order) together (omega (arith, h.number))
          near (omega (arith, ap length stores)) short lens places in
      let (m, em, peer) = peers i places.0 in
      let entered = enter_first m d t t1 r' r1 h.unseen none_yet stepped in
      let again : enter_chain p m d (t1, r1) ≡ (ok tt, (t1, r1)) =
        enter_chain_same p d m t1 r1 together.peer in
      let start : t1.receiving_msg_number ≤ m.header.n = omega (arith, together.number, h.number) in
      let same =
        inner_lem p d ad m t t1 r' r1 peer (h.unbanked m.header.n)
          (is_replay_fresh t d m.header.n h.unseen h.unretired) entered
        ∙ sym (
            inner_lem p d ad m t1 t1 r1 r1 peer (together.none_ahead m.header.n start)
              (is_replay_ahead t1 d m.header.n start together.live) again) in
      (
        ms,
        w,
        t',
        r1,
        encrypted,
        rw (select-cons i order ms m em) (
            decrypt_all-entered p d ad m (select order ms) t t1 r' r1 (select (i ∷ order) pts)
              (t', r1) same (rw (select-cons i order ms m em) at decrypted)),
        sending,
        Answers-IsReceiving p s t1 t' _ receiving answers,
      )
