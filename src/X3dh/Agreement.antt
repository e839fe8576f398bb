-- ===== src/X3dh/Agreement.antt =====
-- The two sides of a handshake agree, also when the responder's prekey was rotated in between.
use mathlib.Core.List.{append-nil}
use trino_core.Prelude.{
  ℕ, ◌<◌, ◌≡◌, refl, sym, ◌∙◌, true, some, none, ok, List, [], ◌∷◌, ◌++◌, Bytes, arith, All, length,
  length-append,
}
use trino_core.Prelude.Int.{ℤ, IsTime}
use trino_core.Primitives.{Primitives, Rng, HexLaws, HkdfLaws, CurveLaws, SignatureLaws}
use trino_core.Crypto.{concat, to_hex, hkdf_expand}
use trino_core.Crypto.Laws.{hkdf_expand_total}
use trino_core.Identity.Keys.{KeyPair, decode_array_32, generate_x25519}
use trino_core.Identity.Keys.Laws.{
  IsX25519, generate_x25519-IsX25519, decode_array_32-to_hex, x25519_derive_shared_lem,
}
use trino_core.Identity.Prekeys.{
  RetiredSignedPreKey, Identity, signed_prekey_by_id, rotate_signed_prekey_if_due, rotate, expire,
}
use trino_core.Identity.Prekeys.Rotation.{IsOrdered, IsWithinRetention, rotation_keeps}
use trino_core.Identity.Bundle.{public_bundle_for}
use trino_core.Identity.Bundle.Laws.{IsWellFormed, verify_bundle-public}
use trino_core.X3dh.{
  InitiatorResult, ResponderResult, InitialMessage, initiate, initiate_verified, respond,
  one_time_secret, hkdf_salt, hkdf_info,
}

-- The three secrets of the handshake are contributory: no public key has a small order.
pub record AreContributory (p : Primitives) (alice ek : KeyPair) (bob : Identity) : Type 0 where
  pub first :
      p.was_contributory (p.diffie_hellman alice.priv_bytes bob.signed_prekey.keypair.pub_bytes)
      ≡ true
  pub second : p.was_contributory (p.diffie_hellman ek.priv_bytes bob.ik_dh.pub_bytes) ≡ true
  pub third :
      p.was_contributory (p.diffie_hellman ek.priv_bytes bob.signed_prekey.keypair.pub_bytes) ≡ true

module _ (p : Primitives) where
  -- Two pairs have one secret.
  pub dh_comm :
      CurveLaws p
      → (a b : KeyPair) → IsX25519 p a
      → IsX25519 p b
      → p.diffie_hellman a.priv_bytes b.pub_bytes ≡ p.diffie_hellman b.priv_bytes a.pub_bytes
  dh_comm curve a b ha hb = rw (ha, hb) (curve.agree a.priv_bytes b.priv_bytes)

  -- A public key is decoded from its text.
  pub decode_public :
      HexLaws p
      → CurveLaws p
      → (kp : KeyPair) → IsX25519 p kp
      → decode_array_32 p (to_hex p kp.pub_bytes) ≡ ok kp.pub_bytes
  decode_public hex curve kp h =
      decode_array_32-to_hex p hex kp.pub_bytes (rw h (curve.public-AreBytes kp.priv_bytes))
        (rw h (curve.length-public kp.priv_bytes))

  -- A rotation does not change the identity key.
  pub rotation-ik_dh :
      (identity : Identity) (now : ℤ) (r : Rng)
      → (rotate_signed_prekey_if_due p identity now r).0.0.ik_dh ≡ identity.ik_dh
  unfolding rotate_signed_prekey_if_due rotate expire
  rotation-ik_dh identity now r = ground arith

  older_within :
      (now : ℤ) (k : ℕ) (xs : List RetiredSignedPreKey)
      → All (λ x. x.prekey.id < k) xs
      → All (λ x. x.prekey.id ≡ k → IsWithinRetention now x) xs
  older_within now k [] h = tt
  older_within now k (x ∷ xs) h = ((λ e. absurd (omega (arith, h.0, e))), older_within now k xs h.1)

  -- What a side derives from its secrets.
  pub master :
      HkdfLaws p
      → (dh_inputs : Bytes)
      → (okm : Bytes) × (hkdf_expand p dh_inputs hkdf_salt hkdf_info 32 ≡ ok okm)
  master hkdf dh_inputs =
      let (okm, e, _, _) =
        hkdf_expand_total p hkdf dh_inputs hkdf_salt hkdf_info 32 (omega arith) in
      (okm, e)

module _ (p : Primitives) (hex : HexLaws p) (hkdf : HkdfLaws p) (curve : CurveLaws p)
    (signing : SignatureLaws p) (alice bob : Identity) (alice_key : IsX25519 p alice.ik_dh)
    (bob_keys : IsWellFormed p bob) (r : Rng)
    (live : AreContributory p alice.ik_dh (generate_x25519 p r).0 bob) where
  abbrev pub ek : KeyPair
  ek = (generate_x25519 p r).0

  abbrev pub spk : KeyPair
  spk = bob.signed_prekey.keypair

  -- The secrets, as the initiator computes them.
  abbrev pub secrets : Bytes
  secrets =
      p.diffie_hellman alice.ik_dh.priv_bytes spk.pub_bytes
      ++ p.diffie_hellman ek.priv_bytes bob.ik_dh.pub_bytes
      ++ p.diffie_hellman ek.priv_bytes spk.pub_bytes

  abbrev pub sent : InitialMessage
  sent = record {
    ik_dh_pub = to_hex p alice.ik_dh.pub_bytes;
    ek_pub = to_hex p ek.pub_bytes;
    spk_id = bob.signed_prekey.id;
    opk_id = none;
  }

  abbrev pub data_of : Bytes
  data_of = concat (alice.ik_dh.pub_bytes ∷ bob.ik_dh.pub_bytes ∷ [])

  initiate_lem : initiate p alice (public_bundle_for p bob) r ≡ (
    ok (record {
      master_secret = (master p hkdf secrets).0;
      message = sent;
      associated_data = data_of;
    }),
    (generate_x25519 p r).1,
  )
  unfolding initiate initiate_verified public_bundle_for
  initiate_lem = rw (
    verify_bundle-public p hex signing bob bob_keys,
    decode_public p hex curve bob.ik_dh bob_keys.dh,
    decode_public p hex curve spk bob_keys.prekey.curve,
    x25519_derive_shared_lem p alice.ik_dh.priv_bytes spk.pub_bytes (generate_x25519 p r).1
        live.first,
    x25519_derive_shared_lem p ek.priv_bytes bob.ik_dh.pub_bytes (generate_x25519 p r).1
        live.second,
    x25519_derive_shared_lem p ek.priv_bytes spk.pub_bytes (generate_x25519 p r).1 live.third,
    (master p hkdf secrets).1,
  )

  respond_lem :
      (later : Identity) (r' : Rng)
      → signed_prekey_by_id later bob.signed_prekey.id ≡ some bob.signed_prekey
      → later.ik_dh ≡ bob.ik_dh
      → respond p sent (later, r') ≡ (
        ok (record {
          master_secret = (master p hkdf secrets).0;
          associated_data = data_of;
          spk_keypair = spk;
        }),
        (later, r'),
      )
  unfolding respond one_time_secret
  respond_lem later r' found same =
      let ek_key = generate_x25519-IsX25519 p curve r in
      let one = dh_comm p curve alice.ik_dh spk alice_key bob_keys.prekey.curve in
      let two = dh_comm p curve ek bob.ik_dh ek_key bob_keys.dh in
      let three = dh_comm p curve ek spk ek_key bob_keys.prekey.curve in
      rw (
        found,
        same,
        decode_public p hex curve alice.ik_dh alice_key,
        decode_public p hex curve ek ek_key,
        x25519_derive_shared_lem p spk.priv_bytes alice.ik_dh.pub_bytes r'
            (rw (sym one) live.first),
        x25519_derive_shared_lem p bob.ik_dh.priv_bytes ek.pub_bytes r' (rw (sym two) live.second),
        x25519_derive_shared_lem p spk.priv_bytes ek.pub_bytes r' (rw (sym three) live.third),
        append-nil,
        sym one,
        sym two,
        sym three,
        (master p hkdf secrets).1,
      )

  -- The prekey of the bundle is found after a rotation.
  pub bob_found :
      (now : ℤ) (r'' : Rng)
      → IsOrdered bob
      → IsTime now
      → signed_prekey_by_id (rotate_signed_prekey_if_due p bob now r'').0.0 bob.signed_prekey.id
        ≡ some bob.signed_prekey
  unfolding signed_prekey_by_id
  bob_found now r'' o tn =
      rotation_keeps p bob now r'' o tn bob.signed_prekey.id (omega arith)
        (older_within p now bob.signed_prekey.id bob.retired_signed_prekeys o.older)
      ∙ ground arith

  length-data_of : length data_of ≡ 64
  unfolding concat
  length-data_of =
      rw (alice_key, bob_keys.dh)
        (omega (
          arith,
          length-append (p.x25519_public alice.ik_dh.priv_bytes)
              (p.x25519_public bob.ik_dh.priv_bytes ++ []),
          length-append (p.x25519_public bob.ik_dh.priv_bytes) [],
          curve.length-public alice.ik_dh.priv_bytes,
          curve.length-public bob.ik_dh.priv_bytes,
        ))

  -- What the exchange after the handshake relies on.
  pub handshake_lem :
      (now : ℤ) (r' r'' : Rng)
      → IsOrdered bob
      → IsTime now
      → let later = (rotate_signed_prekey_if_due p bob now r'').0.0 in
        (a : InitiatorResult) × (b : ResponderResult) × (initiate p alice
            (public_bundle_for p bob)
            r
          ≡ (ok a, (generate_x25519 p r).1))
        × (respond p a.message (later, r') ≡ (ok b, (later, r')))
        × (b.master_secret ≡ a.master_secret)
        × (b.associated_data ≡ a.associated_data)
        × (b.spk_keypair ≡ bob.signed_prekey.keypair)
        × (length a.associated_data ≡ 64)
  handshake_lem now r' r'' o tn =
      let later = (rotate_signed_prekey_if_due p bob now r'').0.0 in
      (
        _,
        _,
        initiate_lem,
        respond_lem later r' (bob_found now r'' o tn) (rotation-ik_dh p bob now r''),
        refl,
        refl,
        refl,
        length-data_of,
      )

  -- An initiator, whose x25519 key pair belongs together, makes a handshake from the bundle of a
  -- well-formed responder, where the three secrets are contributory; the responder answers after
  -- it tried to rotate its signed prekey at any time, its ids and times being in order. Given
  -- what the crates promise, both calls succeed, both sides have the same master secret and
  -- associated data, the responder is handed the key pair of the bundle's prekey, and answering
  -- does not change its identity.
  pub handshake_agrees :
      (now : ℤ) (r' r'' : Rng)
      → IsOrdered bob
      → IsTime now
      → let later = (rotate_signed_prekey_if_due p bob now r'').0.0 in
        (a : InitiatorResult) × (b : ResponderResult) × (initiate p alice
            (public_bundle_for p bob)
            r
          ≡ (ok a, (generate_x25519 p r).1))
        × (respond p a.message (later, r') ≡ (ok b, (later, r')))
        × (b.master_secret ≡ a.master_secret)
        × (b.associated_data ≡ a.associated_data)
        × (b.spk_keypair ≡ bob.signed_prekey.keypair)
  handshake_agrees now r' r'' o tn =
      let (a, b, initiated, responded, masters, datas, spks, _) = handshake_lem now r' r'' o tn in
      (a, b, initiated, responded, masters, datas, spks)
