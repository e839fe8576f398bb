-- ===== src/Tests/ExchangeRuns.antt =====
-- A run from the bundle to the first reply, through src/x3dh.rs and src/ratchet.rs.
use trino_core.X3dh.Opening.{handshake_opens}
use trino_core.Ratchet.Conversation.{Reaches}
use trino_core.Prelude.{
  ◌+◌, ◌≤◌, ◌^◌, length, ◌≡◌, refl, ok, List, [], ◌∷◌, arith, bytes_eq, bytes_eq_iff,
}
use trino_core.Primitives.{Rng}
use trino_core.Crypto.{random_bytes}
use trino_core.Identity.Keys.{generate_x25519}
use trino_core.Identity.Prekeys.{rotate_signed_prekey_if_due}
use trino_core.Identity.Bundle.{public_bundle_for}
use trino_core.X3dh.{InitiatorResult, ResponderResult, initiate, respond}
use trino_core.X3dh.Exchange.{AreLive, first_exchange}
use trino_core.Ratchet.State.{RatchetState, EncryptedMessage, init_initiator, init_responder}
use trino_core.Ratchet.Session.Burst.{encrypt_all, decrypt_all, select}
use trino_core.Tests.Toy.{
  toy, toy_hex, toy_hkdf, toy_aead, toy_curve, toy_signature, point, seed, stretch,
}
use trino_core.Tests.Runs.{rng, texts, texts-AreTexts, order-ArePlaces}
use trino_core.Tests.IdentityRuns.{bob, bob-IsOrdered, bob-IsWellFormed, soon}
use trino_core.Tests.HandshakeRuns.{alice, keys-AreContributory}

runs-AreLive : AreLive toy alice bob rng rng rng
unfolding generate_x25519 random_bytes point seed stretch bytes_eq
runs-AreLive = record {
  handshake = keys-AreContributory;
  first = refl;
  second = refl;
  fresh = λ e.
      let same =
        (bytes_eq_iff bob.signed_prekey.keypair.pub_bytes (generate_x25519 toy rng).0.pub_bytes).1
          e in
      absurd (ground (arith, same));
}

first_exchange_example :
    let later = (rotate_signed_prekey_if_due toy bob soon rng).0.0 in
    (a : InitiatorResult) × (b : ResponderResult) × (s s' s'' t' t'' : RatchetState) × (r5 r6 r7 r8
      r9 : Rng)
    × (ms : List EncryptedMessage) × (ns : List EncryptedMessage) × (initiate toy alice
          (public_bundle_for toy bob)
          rng
        ≡ (ok a, r5))
    × (respond toy a.message (later, rng) ≡ (ok b, (later, rng)))
    × (init_initiator toy a.master_secret bob.signed_prekey.keypair.pub_bytes rng ≡ (ok s, r6))
    × (encrypt_all toy texts a.associated_data (s, r6) ≡ (ok ms, (s', r7)))
    × (decrypt_all toy
          (select (2 ∷ 0 ∷ 1 ∷ []) ms)
          b.associated_data
          (init_responder b.master_secret b.spk_keypair, rng)
        ≡ (ok (stretch 4 3 ∷ stretch 3 1 ∷ stretch 5 2 ∷ []), (t', r8)))
    × (encrypt_all toy texts b.associated_data (t', r8) ≡ (ok ns, (t'', r9)))
    × (r10 : Rng) × (decrypt_all toy (select (2 ∷ 0 ∷ 1 ∷ []) ns) a.associated_data (s', r7)
        ≡ (ok (stretch 4 3 ∷ stretch 3 1 ∷ stretch 5 2 ∷ []), (s'', r10)))
first_exchange_example =
    first_exchange toy toy_hex toy_hkdf toy_aead toy_curve toy_signature alice bob refl
      bob-IsWellFormed rng rng rng rng rng soon texts texts 2 2 (0 ∷ 1 ∷ []) (0 ∷ 1 ∷ [])
      runs-AreLive bob-IsOrdered (refl, omega arith) (omega arith) (omega arith) texts-AreTexts
      texts-AreTexts order-ArePlaces order-ArePlaces

handshake_opens_example :
    let spk = bob.signed_prekey.keypair in
    let later = (rotate_signed_prekey_if_due toy bob soon rng).0.0 in
    (a : InitiatorResult) × (b : ResponderResult) × (s : RatchetState) × (r4 r5 : Rng) × (initiate
        toy alice
        (public_bundle_for toy bob)
        rng
      ≡ (ok a, r4))
    × (respond toy a.message (later, rng) ≡ (ok b, (later, rng)))
    × (init_initiator toy a.master_secret spk.pub_bytes rng ≡ (ok s, r5))
    × (b.associated_data ≡ a.associated_data)
    × (length a.associated_data + 40 ≤ 2 ^ 36)
    × Reaches toy a.associated_data (record {
      a = s;
      b = init_responder b.master_secret b.spk_keypair;
      to_a = [];
      to_b = [];
      used = s.dhs.pub_bytes ∷ spk.pub_bytes ∷ [];
    })
handshake_opens_example =
    handshake_opens toy toy_hex toy_hkdf toy_curve toy_signature alice bob refl bob-IsWellFormed rng
      rng rng rng soon keys-AreContributory runs-AreLive.first bob-IsOrdered (refl, omega arith)
