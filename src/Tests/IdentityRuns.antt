-- ===== src/Tests/IdentityRuns.antt =====
-- Runs of the theorems about src/identity.rs and src/crypto.rs, on an identity with one retired
-- prekey.
use trino_core.Prelude.{ℕ, ◌≡◌, refl, true, none, ok, [], ◌∷◌, Bytes, length, arith}
use trino_core.Prelude.Int.{ℤ, pos}
use trino_core.Crypto.{random_bytes, aes_gcm_encrypt, aes_gcm_decrypt, key_size, nonce_size}
use trino_core.Crypto.Laws.{aes_gcm_decrypt-encrypt}
use trino_core.Identity.Keys.{KeyPair, ed25519_sign}
use trino_core.Identity.Prekeys.{
  SignedPreKey, Identity, signed_prekey_by_id, rotate_signed_prekey_if_due, consume_one_time_prekey,
}
use trino_core.Identity.Prekeys.Rotation.{IsOrdered, rotation_keeps, rotation_drops}
use trino_core.Identity.Prekeys.OneTime.{IsConsumed, consume_one_time_prekey-IsConsumed}
use trino_core.Identity.Bundle.{public_bundle_for, verify_bundle, verify_bundle_binding}
use trino_core.Identity.Bundle.Laws.{IsWellFormed, verify_bundle_binding-public}
use trino_core.Tests.Toy.{toy, toy_hex, toy_curve, toy_signature, toy_aead, tag_of, stretch}
use trino_core.Tests.Runs.{rng, own, shared}

-- A key pair that the toy curve made, and one for signatures.
abbrev pub curve_pair : ℕ → KeyPair
curve_pair n = record { priv_bytes = stretch 32 n; pub_bytes = toy.x25519_public (stretch 32 n) }

abbrev pub sign_pair : KeyPair
sign_pair = record { priv_bytes = stretch 32 8; pub_bytes = toy.ed25519_public (stretch 32 8) }

abbrev pub prekey : ℕ → ℕ → SignedPreKey
prekey id time = record {
  id = id;
  keypair = curve_pair id;
  signature = ed25519_sign toy sign_pair (curve_pair id).pub_bytes;
  created_at = pos time;
}

-- The first prekey was retired for the second, after three days.
abbrev pub bob : Identity
bob = record {
  ik_sign = sign_pair;
  ik_dh = curve_pair 20;
  nostr = curve_pair 21;
  signed_prekey = prekey 2 259200;
  one_time_prekeys =
      record { id = 1; keypair = curve_pair 30 } ∷ record { id = 2; keypair = curve_pair 31 } ∷ [];
  retired_signed_prekeys = record { prekey = prekey 1 0; retired_at = pos 259200 } ∷ [];
}

pub bob-IsOrdered : IsOrdered bob
bob-IsOrdered = record {
  older = (omega arith, tt);
  small = omega arith;
  times = ((refl, omega arith), tt);
  created = (refl, omega arith);
}

-- Three days later the next rotation is due, and the first prekey is still found.
abbrev pub soon : ℤ
soon = pos 518400

abbrev late : ℤ
late = pos 4000000

rotation_keeps_example :
    signed_prekey_by_id (rotate_signed_prekey_if_due toy bob soon rng).0.0 1
    ≡ signed_prekey_by_id bob 1
rotation_keeps_example =
    rotation_keeps toy bob soon rng bob-IsOrdered (refl, omega arith) 1 (omega arith)
      ((λ e. omega arith), tt)

rotation_drops_example :
    signed_prekey_by_id (rotate_signed_prekey_if_due toy bob late rng).0.0 1 ≡ none
rotation_drops_example =
    rotation_drops toy bob late rng bob-IsOrdered (refl, omega arith) 1 (omega arith)
      ((λ e. omega arith), tt)

consume_one_time_prekey-IsConsumed_example : IsConsumed 2 bob (consume_one_time_prekey bob 2)
consume_one_time_prekey-IsConsumed_example = consume_one_time_prekey-IsConsumed bob 2

pub bob-IsWellFormed : IsWellFormed toy bob
bob-IsWellFormed = record {
  sign = refl;
  dh = refl;
  dh_array = (toy_curve.public-AreBytes _, toy_curve.length-public _);
  nostr_array = (toy_curve.public-AreBytes _, toy_curve.length-public _);
  prekey = record {
    array = (toy_curve.public-AreBytes _, toy_curve.length-public _);
    curve = refl;
    signed = refl;
  };
}

verify_bundle_binding-public_example :
    (verify_bundle toy (public_bundle_for toy bob) ≡ true)
    × (verify_bundle_binding toy (public_bundle_for toy bob) ≡ true)
verify_bundle_binding-public_example =
    verify_bundle_binding-public toy toy_hex toy_signature bob bob-IsWellFormed

-- What a sealing under the key `shared` gives.
abbrev sealed : Bytes × Bytes
sealed = (tag_of shared (random_bytes nonce_size rng).0 [] ∷ own, (random_bytes nonce_size rng).0)

aes_gcm_decrypt-encrypt_example :
    (length shared ≡ key_size)
    × (length sealed.1 ≡ nonce_size)
    × (aes_gcm_decrypt toy shared sealed.0 sealed.1 none ≡ ok own)
unfolding aes_gcm_encrypt stretch
aes_gcm_decrypt-encrypt_example = aes_gcm_decrypt-encrypt toy toy_aead shared own none rng refl
