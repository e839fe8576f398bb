-- ===== src/Ratchet/Conversation/Begin.antt =====
-- A conversation over src/ratchet.rs that has just begun is led by the initiator.
use trino_core.Prelude.{
  ◌≡◌, refl, sym, ap, ◌∙◌, Bytes, List, [], ◌∷◌, length, bytes_eq_refl, true, some, ok, arith,
  lookup, contains,
}
use mathlib.Core.Path.{subst}
use trino_core.Primitives.{Primitives, Rng, HkdfLaws, CurveLaws}
use trino_core.Identity.Keys.{KeyPair, generate_x25519}
use trino_core.Identity.Keys.Laws.{IsX25519}
use trino_core.Ratchet.State.{RatchetState, init_initiator, init_responder}
use trino_core.Ratchet.Store.Bank.{empty-IsFullStore}
use trino_core.Ratchet.Session.{is_key}
use trino_core.Ratchet.Session.AnyOrder.{chain_key, chain_key_first}
use trino_core.Ratchet.Session.Turn.{Ahead}
use trino_core.Ratchet.Session.Begin.{Begins, init_initiator-Ahead}
use trino_core.Ratchet.Conversation.Lead.{IsClean, first_chain, silent, Leads, IsLed}

module _ (p : Primitives) (ad : Bytes) (hkdf : HkdfLaws p) (curve : CurveLaws p) (master : Bytes)
    (spk : KeyPair) (r : Rng) where
  init_responder-IsClean : (used : List Bytes) → IsClean p used (init_responder master spk)
  unfolding init_responder contains lookup
  init_responder-IsClean used k kk unused = record {
    unseen = refl;
    unretired = refl;
    unbanked = λ n. refl;
  }

  init_initiator-IsClean :
      (s : RatchetState) (d : Bytes)
      → Begins p curve hkdf master spk r s
      → IsClean p (d ∷ spk.pub_bytes ∷ []) s
  unfolding contains lookup
  init_initiator-IsClean s d b k kk unused = record {
    unseen = ap (λ x. is_key x k) b.peer ∙ ground arith;
    unretired = ap (contains k) b.retired_empty;
    unbanked = λ n. ap (lookup _) b.keys_empty;
  }

  opening_Leads :
      (s : RatchetState)
      → (a : Ahead p s (init_responder master spk)) → Begins p curve hkdf master spk r s
      → Leads p ad hkdf s (init_responder master spk) a.chain_key
  unfolding init_responder
  opening_Leads s a b = record {
    own = a.own;
    theirs = a.theirs;
    live = a.live;
    agreed = a.agreed;
    sends = record {
      key =
          a.sending
          ∙ ap some (sym (chain_key_first p hkdf 0 a.chain_key))
          ∙ ap (λ n. some (chain_key p hkdf 0 a.chain_key n)) (sym a.number);
      number = refl;
      own = refl;
    };
    small = omega (arith, a.number);
    peer = b.peer;
    new = record { unseen = a.unseen; unretired = a.unretired; unbanked = a.unbanked };
    store = a.store;
    leader_store = rw (b.keys_empty, b.order_empty) empty-IsFullStore;
  }

  opening_IsLed :
      (s : RatchetState)
      → Ahead p s (init_responder master spk)
      → Begins p curve hkdf master spk r s
      → IsLed p ad hkdf s (init_responder master spk) [] [] (s.dhs.pub_bytes ∷ spk.pub_bytes ∷ [])
  unfolding init_responder contains
  opening_IsLed s a b = record {
    start = a.chain_key;
    leads = opening_Leads s a b;
    heads = first_chain refl tt (omega (arith, a.number));
    tails = silent refl refl refl b.unreceived (ap length b.keys_empty);
    apart = (tt, tt);
    clean = (
      init_responder-IsClean (s.dhs.pub_bytes ∷ spk.pub_bytes ∷ []),
      init_initiator-IsClean s s.dhs.pub_bytes b,
    );
    counted = (rw (bytes_eq_refl s.dhs.pub_bytes), ground (arith, bytes_eq_refl spk.pub_bytes));
    bounded = (omega arith, omega arith);
  }

  pub opening :
      (s : RatchetState) (r' : Rng)
      → IsX25519 p spk
      → p.was_contributory (p.diffie_hellman (generate_x25519 p r).0.priv_bytes spk.pub_bytes)
        ≡ true
      → init_initiator p master spk.pub_bytes r ≡ (ok s, r')
      → IsLed p ad hkdf s (init_responder master spk) [] [] (s.dhs.pub_bytes ∷ spk.pub_bytes ∷ [])
  opening s r' pair live e =
      let (s', e', a, b) = init_initiator-Ahead p curve hkdf master spk r pair live in
      let same : s' ≡ s = ground (arith, ap (λ x. x.0) (sym e' ∙ e)) in
      subst
        (λ u.
          IsLed p ad hkdf u (init_responder master spk) [] []
            (u.dhs.pub_bytes ∷ spk.pub_bytes ∷ []))
        same (opening_IsLed s' a b)
