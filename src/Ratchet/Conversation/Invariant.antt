-- ===== src/Ratchet/Conversation/Invariant.antt =====
-- Conversations over src/ratchet.rs: every message is decrypted to its text, and can be answered.
use trino_core.Prelude.{
  suc, ◌+◌, ◌≤◌, ◌<◌, ◌^◌, ◌≡◌, ◌⊎◌, sym, ap, ◌∙◌, Bytes, AreBytes, List, ◌∷◌, length, some, none,
  ok, err, inl, inr, arith, Result,
}
use mathlib.Core.Path.{subst}
use trino_core.Primitives.{Primitives, Rng, HexLaws, HkdfLaws, AeadLaws, CurveLaws}
use trino_core.Ratchet.State.{RatchetState, RatchetError, EncryptedMessage}
use trino_core.Ratchet.Session.{
  World, ratchet_encrypt, ratchet_decrypt, ratchet_decrypt_inner, roll_back,
}
use trino_core.Ratchet.Conversation.{
  Sent, System, Takes, IsFresh, max_in_flight, Reaches, begins, swaps, sends, receives, refuses,
}
use trino_core.Ratchet.Conversation.Lead.{silent, answering, IsLed}
use trino_core.Ratchet.Conversation.SendFrame.{says}
use trino_core.Ratchet.Conversation.Send.{no_chain, leader_speaks, follower_speaks}
use trino_core.Ratchet.Conversation.ReceiveNew.{IsX25519-IsKey}
use trino_core.Ratchet.Conversation.Receive.{Receives, follower_gets, leader_gets}
use trino_core.Ratchet.Conversation.Begin.{opening}

module _ (p : Primitives) where
  -- A message that is refused changes nothing.
  refused_same :
      (msg : EncryptedMessage) (ad : Bytes) (s t : RatchetState) (r r' : Rng) (error : RatchetError)
      → ratchet_decrypt p msg ad (s, r) ≡ (err error, (t, r'))
      → s ≡ t
  unfolding ratchet_decrypt
  refused_same msg ad s t r r' error e = rolled s (ratchet_decrypt_inner p msg ad (s, r)) e
    where
      rolled :
          (s : RatchetState) (x : Result RatchetError Bytes × World)
          → roll_back s x ≡ (err error, (t, r'))
          → s ≡ t
      rolled s (ok pt, w) e = absurd (ground (arith, ap (λ x. x.0) e))
      rolled s (err other, w) e = ap (λ x. x.1.0) e

module _ (p : Primitives) (ad : Bytes) (hkdf : HkdfLaws p) (hex : HexLaws p) (aead : AeadLaws p)
    (curve : CurveLaws p) (short : length ad + 40 ≤ 2 ^ 36) where
  -- One of the two leads.
  abbrev pub IsTalk : System → Type 0
  IsTalk y =
      IsLed p ad hkdf y.a y.b y.to_b y.to_a y.used ⊎ IsLed p ad hkdf y.b y.a y.to_a y.to_b y.used

  -- Either end sends, unless it is a follower that has received nothing.
  pub record Sending (y : System) (text : Bytes) (r : Rng) : Type 0 where
    pub message : EncryptedMessage
    pub state : RatchetState
    pub rng : Rng
    pub result : ratchet_encrypt p text ad (y.a, r) ≡ (ok message, (state, rng))
    pub keys : state.dhs ≡ y.a.dhs
    pub number : state.sending_msg_number ≡ suc y.a.sending_msg_number
    pub chain_key : Bytes
    pub speaking : state.sending_chain_key ≡ some chain_key
    pub talk : IsTalk (record y {
      a = state;
      to_b = record { message = message; text = text; peer = y.a.dhs.pub_bytes } ∷ y.to_b;
    })

  pub can_send :
      (y : System) (text : Bytes) (r : Rng)
      → IsTalk y
      → AreBytes text
      → length text ≤ 2 ^ 36
      → length y.to_b < max_in_flight
      → y.a.sending_msg_number + 1 < 2 ^ 32
      → Sending y text r ⊎ ((y.a.sending_chain_key ≡ none) × (y.a.receiving_chain_key ≡ none))
  can_send y text r (inl h) bytes fits room small =
      let dk = IsX25519-IsKey p ad hkdf hex curve y.a.dhs h.leads.own in
      let (msg, s, r', e, m) =
        says p ad hkdf hex aead short h.start y.a.dhs.pub_bytes text y.a.sending_msg_number y.a r dk
          h.leads.sends small bytes fits in
      inl (record {
        message = msg;
        state = s;
        rng = r';
        result = e;
        keys = ap (λ (u : RatchetState). u.dhs) m.said;
        number = ap (λ (u : RatchetState). u.sending_msg_number) m.said;
        chain_key = _;
        speaking = ap (λ (u : RatchetState). u.sending_chain_key) m.said;
        talk =
            inl (
              leader_speaks p ad hkdf hex y.a y.b y.to_b y.to_a y.used msg text s h dk small room
                m);
      })
  can_send y text r (inr h) bytes fits room small = elim h.tails [
    | silent mute deaf empty none_yet unbanked ↦ inr (mute, deaf)
    | answering v sees sending held count ↦
        let (msg, s, r', e, m) =
          says p ad hkdf hex aead short v.start v.peer text v.total y.a r sees.sender sending
            (omega (arith, sending.number)) bytes fits in
        inl (record {
          message = msg;
          state = s;
          rng = r';
          result = e;
          keys = ap (λ (u : RatchetState). u.dhs) m.said;
          number =
              ap (λ (u : RatchetState). u.sending_msg_number) m.said ∙ ap suc (sym sending.number);
          chain_key = _;
          speaking = ap (λ (u : RatchetState). u.sending_chain_key) m.said;
          talk = inr (
              follower_speaks p ad hkdf hex y.b y.a y.to_a y.to_b y.used msg text s h v sees sending
                held count (omega (arith, sending.number)) room m);
        })
  ]

  -- Whatever arrives is received.
  pub can_receive :
      (y : System) (e : Sent) (rest : List Sent) (r : Rng)
      → IsTalk y
      → Takes e y.to_b rest
      → IsFresh p r y.a.dhs.pub_bytes y.used
      → Receives p ad hkdf hex curve y.a y.b y.to_a rest y.used r e
  can_receive y e rest r (inl h) taken fresh =
      follower_gets p ad hkdf hex curve y.a y.b y.to_b y.to_a y.used h r e rest fresh taken
  can_receive y e rest r (inr h) taken fresh =
      leader_gets p ad hkdf hex curve y.b y.a y.to_a y.to_b y.used h r e rest taken

  -- All that a conversation comes to is led.
  pub Reaches-IsTalk : {y : System} → Reaches p ad y → IsTalk y
  Reaches-IsTalk (begins master spk r r' s pair live e) =
      inl (opening p ad hkdf curve master spk r s r' pair live e)
  Reaches-IsTalk (swaps y reached) = elim (Reaches-IsTalk reached) [ inl h ↦ inr h | inr h ↦ inl h ]
  Reaches-IsTalk (sends y text r r' s msg reached bytes fits room small e) =
      elim (can_send y text r (Reaches-IsTalk reached) bytes fits room small) [
        | inl sent ↦
            let same = sym sent.result ∙ e in
            let message : sent.message ≡ msg = ground (arith, ap (λ x. x.0) same) in
            let state : sent.state ≡ s = ap (λ x. x.1.0) same in
            subst
              (λ u. IsTalk (record y {
                a = u;
                to_b = record { message = msg; text = text; peer = y.a.dhs.pub_bytes } ∷ y.to_b;
              }))
              state
              (subst
                (λ m. IsTalk (record y {
                  a = sent.state;
                  to_b = record { message = m; text = text; peer = y.a.dhs.pub_bytes } ∷ y.to_b;
                }))
                message sent.talk)
        | inr (mute, deaf) ↦
            let stuck = sym (no_chain p ad hkdf hex text y.a r mute) ∙ e in
            absurd (ground (arith, ap (λ x. x.0) stuck))
      ]
  Reaches-IsTalk (receives y e rest r r' t result reached taken fresh eq) =
      let got = can_receive y e rest r (Reaches-IsTalk reached) taken fresh in
      let same : got.state ≡ t = ap (λ x. x.1.0) (sym got.result ∙ eq) in
      subst (λ u. IsTalk (record y { b = u; to_b = rest; used = u.dhs.pub_bytes ∷ y.used })) same
        got.led
  Reaches-IsTalk (refuses y msg other_ad r r' t error reached e) =
      subst (λ u. IsTalk (record y { b = u })) (refused_same p msg other_ad y.b t r r' error e)
        (Reaches-IsTalk reached)
