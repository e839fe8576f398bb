-- ===== src/Ratchet/Session/Begin.antt =====
-- How a session of src/ratchet.rs begins, and how a turn of it prepares the next.
use trino_core.Prelude.{ℕ, ◌≡◌, refl, sym, Bytes, false, true, lookup, some, none, ok, [], contains}
use mathlib.Core.Path.{subst}
use trino_core.Primitives.{Primitives, Rng, HkdfLaws, CurveLaws}
use trino_core.Identity.Keys.{KeyPair, generate_x25519}
use trino_core.Identity.Keys.Laws.{IsX25519, generate_x25519-IsX25519, x25519_derive_shared_lem}
use trino_core.Ratchet.State.{RatchetState, skipped_key_id, init_initiator, init_responder}
use trino_core.Ratchet.State.Laws.{kdf_rk_total}
use trino_core.Ratchet.Store.Bank.{IsStore, empty-IsFullStore}
use trino_core.Ratchet.Session.{is_key}
use trino_core.Ratchet.Session.Side.{IsSending}
use trino_core.Ratchet.Session.Turn.{Ahead, Answers}

module _ (p : Primitives) (curve : CurveLaws p) where
  -- The receiver's answer is ahead of the sender, under a key that the sender has not seen.
  pub Answers-Ahead :
      (s s' t : RatchetState) (own : KeyPair)
      → IsSending s s'
      → Answers p s t own
      → IsX25519 p own
      → IsX25519 p s.dhs
      → p.was_contributory (p.diffie_hellman own.priv_bytes s.dhs.pub_bytes) ≡ true
      → is_key s.dhr own.pub_bytes ≡ false
      → contains own.pub_bytes s.retired_peer_dh_keys ≡ false
      → ((n : ℕ) → lookup (skipped_key_id p own.pub_bytes n) s.skipped_keys ≡ none)
      → IsStore s
      → Ahead p t s'
  Answers-Ahead s s' t own sending h pair theirs live unseen unretired unbanked store =
      let u = record s {
        sending_chain_key = s'.sending_chain_key;
        sending_msg_number = s'.sending_msg_number;
      } in
      subst (λ v. Ahead p t v) (sym sending)
        (record {
          own = rw h.own_key pair;
          theirs = theirs;
          live = rw h.own_key live;
          chain_key = h.chain_key;
          agreed = rw h.own_key (h.agreed live);
          sending = h.sending;
          number = h.number;
          unseen = rw h.own_key unseen;
          unretired = rw h.own_key unretired;
          unbanked = λ n. rw h.own_key (unbanked n);
          store = store;
        })

  module _ (hkdf : HkdfLaws p) (master : Bytes) (spk : KeyPair) (r : Rng) where
    -- An initiator that has just begun.
    pub record Begins (s : RatchetState) : Type 0 where
      pub own_key : s.dhs ≡ (generate_x25519 p r).0
      pub peer : s.dhr ≡ some spk.pub_bytes
      pub unreceived : s.receiving_chain_key ≡ none
      pub keys_empty : s.skipped_keys ≡ []
      pub order_empty : s.skipped_key_order ≡ []
      pub retired_empty : s.retired_peer_dh_keys ≡ []

    pub init_initiator-Ahead :
        IsX25519 p spk
        → p.was_contributory (p.diffie_hellman (generate_x25519 p r).0.priv_bytes spk.pub_bytes)
          ≡ true
        → (s : RatchetState) × (init_initiator p master spk.pub_bytes r
            ≡ (ok s, (generate_x25519 p r).1))
          × Ahead p s (init_responder master spk)
          × Begins s
    unfolding init_initiator init_responder contains lookup
    init_initiator-Ahead pair live =
        let own = (generate_x25519 p r).0 in
        let sent =
          x25519_derive_shared_lem p own.priv_bytes spk.pub_bytes (generate_x25519 p r).1 live in
        let ((root, chain), derived, _, _) =
          kdf_rk_total p hkdf master (p.diffie_hellman own.priv_bytes spk.pub_bytes) in
        (
          record {
            root_key = root;
            dhs = own;
            dhr = some spk.pub_bytes;
            sending_chain_key = some chain;
            receiving_chain_key = none;
            sending_msg_number = 0;
            receiving_msg_number = 0;
            previous_sending_chain_length = 0;
            skipped_keys = [];
            skipped_key_order = [];
            retired_peer_dh_keys = [];
          },
          rw (sent, derived) refl,
          record {
            own = generate_x25519-IsX25519 p curve r;
            theirs = pair;
            live = live;
            chain_key = chain;
            agreed = derived;
            sending = refl;
            number = refl;
            unseen = refl;
            unretired = refl;
            unbanked = λ n. refl;
            store = empty-IsFullStore;
          },
          record {
            own_key = refl;
            peer = refl;
            unreceived = refl;
            keys_empty = refl;
            order_empty = refl;
            retired_empty = refl;
          },
        )
