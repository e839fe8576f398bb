-- ===== src/Tests/HandshakeRuns.antt =====
-- A run of the handshake of src/x3dh.rs, with a rotation in between.
use trino_core.Prelude.{◌≡◌, ◌≤◌, refl, ok, err, some, true, arith, [], ◌∷◌}
use trino_core.Crypto.{random_bytes, concat, hkdf_expand}
use trino_core.Identity.Keys.{generate_x25519}
use trino_core.Identity.Prekeys.{
  Identity, OneTimePreKey, rotate_signed_prekey_if_due, consume_one_time_prekey, is_rotation_due,
  expire, rotate,
}
use trino_core.Prelude.Int.{sub_i64}
use trino_core.Identity.Prekeys.OneTime.{stock}
use trino_core.Identity.Bundle.{public_bundle_for}
use trino_core.X3dh.{
  InitiatorResult, ResponderResult, initiate, respond, unknown_opk, hkdf_salt, hkdf_info,
}
use trino_core.X3dh.Agreement.{AreContributory, handshake_agrees}
use trino_core.X3dh.OneTime.{naming, four_secrets, one_time_handshake}
use trino_core.Tests.Toy.{toy, toy_hex, toy_hkdf, toy_curve, toy_signature, point, seed, stretch}
use trino_core.Tests.Runs.{rng}
use trino_core.Tests.IdentityRuns.{curve_pair, bob, bob-IsOrdered, bob-IsWellFormed, soon}

abbrev pub alice : Identity
alice = record bob { ik_dh = curve_pair 40 }

pub keys-AreContributory : AreContributory toy (curve_pair 40) (generate_x25519 toy rng).0 bob
unfolding generate_x25519 random_bytes point seed stretch
keys-AreContributory = record { first = refl; second = refl; third = refl }

handshake_agrees_example :
    let later = (rotate_signed_prekey_if_due toy bob soon rng).0.0 in
    (a : InitiatorResult) × (b : ResponderResult) × (initiate toy alice
        (public_bundle_for toy bob)
        rng
      ≡ (ok a, (generate_x25519 toy rng).1))
    × (respond toy a.message (later, rng) ≡ (ok b, (later, rng)))
    × (b.master_secret ≡ a.master_secret)
    × (b.associated_data ≡ a.associated_data)
    × (b.spk_keypair ≡ bob.signed_prekey.keypair)
handshake_agrees_example =
    handshake_agrees toy toy_hex toy_hkdf toy_curve toy_signature alice bob refl bob-IsWellFormed
      rng keys-AreContributory soon rng rng bob-IsOrdered (refl, omega arith)

-- The first of the one-time prekeys.
abbrev opk : OneTimePreKey
opk = record { id = 1; keypair = curve_pair 30 }

opk_lives :
    toy.was_contributory
      (toy.diffie_hellman (generate_x25519 toy rng).0.priv_bytes opk.keypair.pub_bytes)
    ≡ true
unfolding generate_x25519 random_bytes point seed stretch
opk_lives = refl

abbrev later : Identity
later = (rotate_signed_prekey_if_due toy bob soon rng).0.0

abbrev rest : Identity
rest = (consume_one_time_prekey later 1).1

one_in_stock : ((consume_one_time_prekey later 1).0 ≡ some opk) × (stock 1 later ≤ 1)
unfolding rotate_signed_prekey_if_due consume_one_time_prekey stock is_rotation_due sub_i64 expire
    rotate
one_in_stock = (refl, omega arith)

one_time_handshake_example :
    let msg =
      naming toy toy_hex toy_hkdf toy_curve toy_signature alice bob refl bob-IsWellFormed rng
        keys-AreContributory opk refl opk_lives in
    let secrets =
      four_secrets toy toy_hex toy_hkdf toy_curve toy_signature alice bob refl bob-IsWellFormed rng
        keys-AreContributory opk refl opk_lives in
    (b : ResponderResult) × (respond toy msg (later, rng) ≡ (ok b, (rest, rng)))
    × (hkdf_expand toy secrets hkdf_salt hkdf_info 32 ≡ ok b.master_secret)
    × (b.associated_data ≡ concat (alice.ik_dh.pub_bytes ∷ bob.ik_dh.pub_bytes ∷ []))
    × (b.spk_keypair ≡ bob.signed_prekey.keypair)
    × ((respond toy msg (rest, rng)).0 ≡ err (unknown_opk 1))
    × ((respond toy msg (rest, rng)).1.0 ≡ rest)
one_time_handshake_example =
    one_time_handshake toy toy_hex toy_hkdf toy_curve toy_signature alice bob refl bob-IsWellFormed
      rng keys-AreContributory opk refl opk_lives soon rng rng rng bob-IsOrdered (refl, omega arith)
      one_in_stock.0 one_in_stock.1
