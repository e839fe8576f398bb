-- ===== src/X3dh/Exchange.antt =====
-- From the bundle to the first reply: src/x3dh.rs hands its secret to src/ratchet.rs on both sides.
use trino_core.Prelude.{
  ℕ, ◌+◌, ◌≤◌, ◌^◌, ◌≡◌, ◌≢◌, refl, ap, ◌∙◌, true, false, ok, List, ◌∷◌, Bytes, arith, length,
  bytes_eq_iff, contains, lookup,
}
use trino_core.Prelude.Int.{ℤ, IsTime}
use trino_core.Primitives.{Primitives, Rng, HexLaws, HkdfLaws, AeadLaws, CurveLaws, SignatureLaws}
use trino_core.Identity.Keys.{KeyPair, generate_x25519}
use trino_core.Identity.Keys.Laws.{IsX25519, generate_x25519-IsX25519}
use trino_core.Identity.Prekeys.{Identity, rotate_signed_prekey_if_due}
use trino_core.Identity.Prekeys.Rotation.{IsOrdered}
use trino_core.Identity.Bundle.{public_bundle_for}
use trino_core.Identity.Bundle.Laws.{IsWellFormed}
use trino_core.X3dh.{InitiatorResult, ResponderResult, initiate, respond}
use trino_core.X3dh.Agreement.{AreContributory, handshake_lem}
use trino_core.Ratchet.State.{
  RatchetState, EncryptedMessage, init_initiator, init_responder, max_skip,
}
use trino_core.Ratchet.Store.Bank.{empty-IsFullStore}
use trino_core.Ratchet.Session.{is_key}
use trino_core.Ratchet.Session.Burst.{AreTexts, ArePlaces, select, encrypt_all, decrypt_all}
use trino_core.Ratchet.Session.Turn.{Ahead, turn_lem}
use trino_core.Ratchet.Session.Begin.{init_initiator-Ahead, Answers-Ahead}

module _ (p : Primitives) (hex : HexLaws p) (hkdf : HkdfLaws p) (aead : AeadLaws p)
    (curve : CurveLaws p) where
  -- A burst to a responder that has just begun, and its reply.
  session_lem :
      (master : Bytes) (spk : KeyPair) (ad : Bytes) (r r' : Rng) (pts replies : List Bytes)
      (i j : ℕ) (order order' : List ℕ)
      → IsX25519 p spk
      → let alice_key = (generate_x25519 p r).0 in
        let bob_key = (generate_x25519 p r').0 in
        p.was_contributory (p.diffie_hellman alice_key.priv_bytes spk.pub_bytes) ≡ true
        → p.was_contributory (p.diffie_hellman bob_key.priv_bytes alice_key.pub_bytes) ≡ true
        → spk.pub_bytes ≢ bob_key.pub_bytes
        → length ad + 40 ≤ 2 ^ 36
        → length pts ≤ max_skip
        → length replies ≤ max_skip
        → AreTexts pts
        → AreTexts replies
        → ArePlaces (length pts) (i ∷ order)
        → ArePlaces (length replies) (j ∷ order')
        → (s s1 s2 t1 t2 : RatchetState) × (r1 r2 r3 r4 : Rng) × (ms : List EncryptedMessage)
          × (ns : List EncryptedMessage) × (init_initiator p master spk.pub_bytes r
              ≡ (ok s, (generate_x25519 p r).1))
          × (encrypt_all p pts ad (s, (generate_x25519 p r).1) ≡ (ok ms, (s1, r1)))
          × (decrypt_all p (select (i ∷ order) ms) ad (init_responder master spk, r')
              ≡ (ok (select (i ∷ order) pts), (t1, r2)))
          × (encrypt_all p replies ad (t1, r2) ≡ (ok ns, (t2, r3)))
          × (decrypt_all p (select (j ∷ order') ns) ad (s1, r1)
              ≡ (ok (select (j ∷ order') replies), (s2, r4)))
  unfolding init_responder contains lookup
  session_lem master spk ad r r' pts replies i j order order' pair live live' fresh short near near'
        lens lens' places places' =
      let own = (generate_x25519 p r').0 in
      let (s, begun, ahead, begins) = init_initiator-Ahead p curve hkdf master spk r pair live in
      let t = init_responder master spk in
      let (ms, w, t1, r2, encrypted, decrypted, sending, answers) =
        turn_lem p hex hkdf aead curve s t (generate_x25519 p r).1 r' ad pts i order ahead refl near
          (omega arith) short lens places in
      let unseen : is_key s.dhr own.pub_bytes ≡ false =
        rw begins.peer (ground (arith, bytes_eq_iff spk.pub_bytes own.pub_bytes)) in
      let ahead' : Ahead p t1 w.0 =
        Answers-Ahead p curve s w.0 t1 own sending answers (generate_x25519-IsX25519 p curve r')
          (rw begins.own_key (generate_x25519-IsX25519 p curve r)) (rw begins.own_key live') unseen
          (rw begins.retired_empty refl) (λ n. rw begins.keys_empty refl)
          (rw (begins.keys_empty, begins.order_empty) empty-IsFullStore) in
      let (ns, w', s2, r4, encrypted', decrypted', _, _) =
        turn_lem p hex hkdf aead curve t1 w.0 r2 w.1 ad replies j order' ahead'
          (ap (λ (u : RatchetState). u.receiving_chain_key) sending ∙ begins.unreceived) near'
          (omega (
            arith,
            ap (λ (u : RatchetState). length u.skipped_keys) sending,
            ap length begins.keys_empty,
          ))
          short lens' places' in
      (
        s, w.0, s2, t1, w'.0, w.1, r2, w'.1, r4, ms, ns, begun, encrypted, decrypted, encrypted',
        decrypted',
      )

module _ (p : Primitives) (alice bob : Identity) where
  -- What the two sides draw: the initiator from `r` for the handshake and from `r1` for the ratchet,
  -- the responder from `r2` for its first step. All secrets are contributory, and the responder's
  -- new key is not its prekey.
  pub record AreLive (r r1 r2 : Rng) : Type 0 where
    pub handshake : AreContributory p alice.ik_dh (generate_x25519 p r).0 bob
    pub first :
        p.was_contributory
          (p.diffie_hellman (generate_x25519 p r1).0.priv_bytes bob.signed_prekey.keypair.pub_bytes)
        ≡ true
    pub second :
        p.was_contributory
          (p.diffie_hellman (generate_x25519 p r2).0.priv_bytes (generate_x25519 p r1).0.pub_bytes)
        ≡ true
    pub fresh : bob.signed_prekey.keypair.pub_bytes ≢ (generate_x25519 p r2).0.pub_bytes

module _ (p : Primitives) (hex : HexLaws p) (hkdf : HkdfLaws p) (aead : AeadLaws p)
    (curve : CurveLaws p) (signing : SignatureLaws p) (alice bob : Identity)
    (alice_key : IsX25519 p alice.ik_dh) (bob_keys : IsWellFormed p bob) where
  abbrev spk : KeyPair
  spk = bob.signed_prekey.keypair

  -- An initiator, whose x25519 key pair belongs together, makes a handshake from the bundle of a
  -- well-formed responder, and begins a ratchet with its secret and the bundle's prekey; the
  -- responder answers after it tried to rotate its prekey at any time, its ids and times being
  -- in order, and begins a ratchet with what it is handed. All secrets are contributory, and the
  -- responder's next key is not its prekey. Given what the crates promise, all calls succeed: of
  -- at most 1000 texts of bytes, none longer than 2^36, that the initiator encrypts, those that
  -- arrive, at least one, each once and in whatever order, are decrypted; and so are as many
  -- replies.
  pub first_exchange :
      (r r1 r2 r3 r4 : Rng) (now : ℤ) (pts replies : List Bytes) (i j : ℕ) (order order' : List ℕ)
      → AreLive p alice bob r r1 r2
      → IsOrdered bob
      → IsTime now
      → length pts ≤ max_skip
      → length replies ≤ max_skip
      → AreTexts pts
      → AreTexts replies
      → ArePlaces (length pts) (i ∷ order)
      → ArePlaces (length replies) (j ∷ order')
      → let later = (rotate_signed_prekey_if_due p bob now r3).0.0 in
        (a : InitiatorResult) × (b : ResponderResult) × (s s' s'' t' t'' : RatchetState) × (r5 r6 r7
          r8 r9 : Rng)
        × (ms : List EncryptedMessage) × (ns : List EncryptedMessage) × (initiate p alice
              (public_bundle_for p bob)
              r
            ≡ (ok a, r5))
        × (respond p a.message (later, r4) ≡ (ok b, (later, r4)))
        × (init_initiator p a.master_secret spk.pub_bytes r1 ≡ (ok s, r6))
        × (encrypt_all p pts a.associated_data (s, r6) ≡ (ok ms, (s', r7)))
        × (decrypt_all p
              (select (i ∷ order) ms)
              b.associated_data
              (init_responder b.master_secret b.spk_keypair, r2)
            ≡ (ok (select (i ∷ order) pts), (t', r8)))
        × (encrypt_all p replies b.associated_data (t', r8) ≡ (ok ns, (t'', r9)))
        × (r10 : Rng) × (decrypt_all p (select (j ∷ order') ns) a.associated_data (s', r7)
            ≡ (ok (select (j ∷ order') replies), (s'', r10)))
  first_exchange r r1 r2 r3 r4 now pts replies i j order order' live ordered time near near' lens
        lens' places places' =
      let (a, b, initiated, responded, masters, datas, keys, short) =
        handshake_lem p hex hkdf curve signing alice bob alice_key bob_keys r live.handshake now r4
          r3 ordered time in
      let (s, s', s'', t', t'', r7, r8, r9, r10, ms, ns, begun, sent, got, answered, read) =
        session_lem p hex hkdf aead curve a.master_secret spk a.associated_data r1 r2 pts replies i
          j order order' bob_keys.prekey.curve live.first live.second live.fresh
          (omega (arith, short)) near near' lens lens' places places' in
      (
        a,
        b,
        s,
        s',
        s'',
        t',
        t'',
        _,
        _,
        r7,
        r8,
        r9,
        ms,
        ns,
        initiated,
        responded,
        begun,
        sent,
        rw (datas, masters, keys) got,
        rw datas answered,
        r10,
        read,
      )
