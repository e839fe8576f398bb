-- ===== src/X3dh/Opening.antt =====
-- A handshake of src/x3dh.rs opens a conversation of src/ratchet.rs.
use trino_core.Prelude.{◌+◌, ◌≤◌, ◌^◌, ◌≡◌, true, ok, [], ◌∷◌, arith, length}
use trino_core.Prelude.Int.{ℤ, IsTime}
use trino_core.Primitives.{Primitives, Rng, HexLaws, HkdfLaws, CurveLaws, SignatureLaws}
use trino_core.Identity.Keys.{generate_x25519}
use trino_core.Identity.Keys.Laws.{IsX25519}
use trino_core.Identity.Prekeys.{Identity, rotate_signed_prekey_if_due}
use trino_core.Identity.Prekeys.Rotation.{IsOrdered}
use trino_core.Identity.Bundle.{public_bundle_for}
use trino_core.Identity.Bundle.Laws.{IsWellFormed}
use trino_core.X3dh.{InitiatorResult, ResponderResult, initiate, respond}
use trino_core.X3dh.Agreement.{AreContributory, handshake_lem}
use trino_core.Ratchet.State.{RatchetState, init_initiator, init_responder}
use trino_core.Ratchet.Session.Begin.{init_initiator-Ahead}
use trino_core.Ratchet.Conversation.{Reaches, begins}

module _ (p : Primitives) (hex : HexLaws p) (hkdf : HkdfLaws p) (curve : CurveLaws p)
    (signing : SignatureLaws p) (alice bob : Identity) (alice_key : IsX25519 p alice.ik_dh)
    (bob_keys : IsWellFormed p bob) where
  -- An initiator, whose x25519 key pair belongs together, makes a handshake from the bundle of a
  -- well-formed responder, and begins a ratchet with its secret and the bundle's prekey; the
  -- responder answers after it tried to rotate its prekey at any time, its ids and times being
  -- in order, and begins a ratchet with what it is handed. The secrets of both the handshake and
  -- the first ratchet step are contributory. Given what the crates promise, all calls succeed,
  -- both sides have the same associated data, which is short enough for the ratchet, and the two
  -- ratchets are the beginning of a conversation as the relation Reaches describes it.
  pub handshake_opens :
      (r r1 r2 r3 : Rng) (now : ℤ)
      → AreContributory p alice.ik_dh (generate_x25519 p r).0 bob
      → p.was_contributory
          (p.diffie_hellman (generate_x25519 p r1).0.priv_bytes bob.signed_prekey.keypair.pub_bytes)
        ≡ true
      → IsOrdered bob
      → IsTime now
      → let spk = bob.signed_prekey.keypair in
        let later = (rotate_signed_prekey_if_due p bob now r2).0.0 in
        (a : InitiatorResult) × (b : ResponderResult) × (s : RatchetState) × (r4 r5 : Rng)
        × (initiate p alice (public_bundle_for p bob) r ≡ (ok a, r4))
        × (respond p a.message (later, r3) ≡ (ok b, (later, r3)))
        × (init_initiator p a.master_secret spk.pub_bytes r1 ≡ (ok s, r5))
        × (b.associated_data ≡ a.associated_data)
        × (length a.associated_data + 40 ≤ 2 ^ 36)
        × Reaches p a.associated_data (record {
          a = s;
          b = init_responder b.master_secret b.spk_keypair;
          to_a = [];
          to_b = [];
          used = s.dhs.pub_bytes ∷ spk.pub_bytes ∷ [];
        })
  handshake_opens r r1 r2 r3 now live first ordered time =
      let spk = bob.signed_prekey.keypair in
      let (a, b, initiated, responded, masters, datas, keys, size) =
        handshake_lem p hex hkdf curve signing alice bob alice_key bob_keys r live now r3 r2 ordered
          time in
      let (s, begun, _, _) =
        init_initiator-Ahead p curve hkdf a.master_secret spk r1 bob_keys.prekey.curve first in
      (
        a,
        b,
        s,
        _,
        _,
        initiated,
        responded,
        begun,
        datas,
        omega (arith, size),
        rw (masters, keys) (begins a.master_secret spk r1 _ s bob_keys.prekey.curve first begun),
      )
