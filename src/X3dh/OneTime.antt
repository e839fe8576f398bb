-- ===== src/X3dh/OneTime.antt =====
-- A handshake of src/x3dh.rs whose message names a one-time prekey.
use trino_core.Prelude.{
  ℕ, ◌≤◌, ◌≡◌, refl, sym, ap, ◌∙◌, true, some, none, ok, err, ◌++◌, Bytes, arith, inl, inr,
  Option-cases,
}
use mathlib.Core.Path.{subst}
use trino_core.Prelude.Int.{ℤ, IsTime}
use trino_core.Primitives.{Primitives, Rng, HexLaws, HkdfLaws, CurveLaws, SignatureLaws}
use trino_core.Crypto.{hkdf_expand}
use trino_core.Identity.Keys.{generate_x25519}
use trino_core.Identity.Keys.Laws.{IsX25519, generate_x25519-IsX25519, x25519_derive_shared_lem}
use trino_core.Identity.Prekeys.{
  OneTimePreKey, Identity, signed_prekey_by_id, consume_one_time_prekey,
  rotate_signed_prekey_if_due,
}
use trino_core.Identity.Prekeys.Rotation.{IsOrdered}
use trino_core.Identity.Prekeys.OneTime.{stock, consume_one_time_prekey-IsConsumed, IsConsumed}
use trino_core.Identity.Bundle.Laws.{IsWellFormed}
use trino_core.X3dh.{
  ResponderResult, InitialMessage, unknown_opk, respond, one_time_secret, hkdf_salt, hkdf_info,
}
use trino_core.X3dh.Agreement.{
  AreContributory, dh_comm, decode_public, master, data_of, sent, bob_found, rotation-ik_dh,
}

-- Consuming a one-time prekey changes no signed prekey.
consume-signed_prekey_by_id :
    (ours : Identity) (opk_id id : ℕ)
    → signed_prekey_by_id (consume_one_time_prekey ours opk_id).1 id ≡ signed_prekey_by_id ours id
unfolding consume_one_time_prekey signed_prekey_by_id
consume-signed_prekey_by_id ours opk_id id = ground arith

consume-ik_dh :
    (ours : Identity) (opk_id : ℕ) → (consume_one_time_prekey ours opk_id).1.ik_dh ≡ ours.ik_dh
unfolding consume_one_time_prekey
consume-ik_dh ours opk_id = ground arith

-- The only one of its id is gone once it was consumed.
consumed_once :
    (ours rest : Identity) (opk : OneTimePreKey)
    → stock opk.id ours ≤ 1
    → consume_one_time_prekey ours opk.id ≡ (some opk, rest)
    → consume_one_time_prekey rest opk.id ≡ (none, rest)
consumed_once ours rest opk single e =
    let k = opk.id in
    let first : IsConsumed k ours (some opk, rest) =
      subst (IsConsumed k ours) e (consume_one_time_prekey-IsConsumed ours k) in
    let second = consume_one_time_prekey-IsConsumed rest k in
    let gone : stock k rest ≡ 0 = ground (arith, first.1 k) in
    let now = consume_one_time_prekey rest k in
    elim (Option-cases now.0) [
      | inl absent ↦
          let e' : now ≡ (none, now.1) = ap (λ x. (x, now.1)) absent in
          e' ∙ ap (λ i. (none, i)) (subst (IsConsumed k rest) e' second).0
      | inr (x, found) ↦
          let e' : now ≡ (some x, now.1) = ap (λ y. (y, now.1)) found in
          let again = (subst (IsConsumed k rest) e' second).1 k in absurd (ground (arith, again))
    ]

module _ (p : Primitives) (hex : HexLaws p) (hkdf : HkdfLaws p) (curve : CurveLaws p)
    (signing : SignatureLaws p) (alice bob : Identity) (alice_key : IsX25519 p alice.ik_dh)
    (bob_keys : IsWellFormed p bob) (r : Rng)
    (live : AreContributory p alice.ik_dh (generate_x25519 p r).0 bob) (opk : OneTimePreKey)
    (opk_key : IsX25519 p opk.keypair)
    (live4 : p.was_contributory
        (p.diffie_hellman (generate_x25519 p r).0.priv_bytes opk.keypair.pub_bytes)
      ≡ true) where
  -- The first message of an initiator who used the one-time prekey.
  abbrev pub naming : InitialMessage
  naming = record (sent p hex hkdf curve signing alice bob alice_key bob_keys r live) {
    opk_id = some opk.id;
  }

  -- The four secrets, as the initiator computes them.
  abbrev pub four_secrets : Bytes
  four_secrets =
      let e = (generate_x25519 p r).0.priv_bytes in
      let spk_pub = bob.signed_prekey.keypair.pub_bytes in
      p.diffie_hellman alice.ik_dh.priv_bytes spk_pub
      ++ p.diffie_hellman e bob.ik_dh.pub_bytes
      ++ p.diffie_hellman e spk_pub
      ++ p.diffie_hellman e opk.keypair.pub_bytes

  abbrev pub own_data : Bytes
  own_data = data_of p hex hkdf curve signing alice bob alice_key bob_keys r live

  respond_four :
      (later rest : Identity) (r' : Rng)
      → signed_prekey_by_id later bob.signed_prekey.id ≡ some bob.signed_prekey
      → later.ik_dh ≡ bob.ik_dh
      → consume_one_time_prekey later opk.id ≡ (some opk, rest)
      → respond p naming (later, r') ≡ (
        ok (record {
          master_secret = (master p hkdf four_secrets).0;
          associated_data = own_data;
          spk_keypair = bob.signed_prekey.keypair;
        }),
        (rest, r'),
      )
  unfolding respond one_time_secret
  respond_four later rest r' found same consumed =
      let ek_pair = (generate_x25519 p r).0 in
      let spk_pair = bob.signed_prekey.keypair in
      let ek_key = generate_x25519-IsX25519 p curve r in
      let one = dh_comm p curve alice.ik_dh spk_pair alice_key bob_keys.prekey.curve in
      let two = dh_comm p curve ek_pair bob.ik_dh ek_key bob_keys.dh in
      let three = dh_comm p curve ek_pair spk_pair ek_key bob_keys.prekey.curve in
      let four = dh_comm p curve ek_pair opk.keypair ek_key opk_key in
      rw (
        found,
        decode_public p hex curve alice.ik_dh alice_key,
        decode_public p hex curve ek_pair ek_key,
        x25519_derive_shared_lem p spk_pair.priv_bytes alice.ik_dh.pub_bytes r'
            (rw (sym one) live.first),
        x25519_derive_shared_lem p later.ik_dh.priv_bytes ek_pair.pub_bytes r'
            (rw (same, sym two) live.second),
        x25519_derive_shared_lem p spk_pair.priv_bytes ek_pair.pub_bytes r'
            (rw (sym three) live.third),
        consumed,
        x25519_derive_shared_lem p opk.keypair.priv_bytes ek_pair.pub_bytes r'
            (rw (sym four) live4),
        same,
        sym one,
        sym two,
        sym three,
        sym four,
        (master p hkdf four_secrets).1,
      )

  respond-none :
      (later : Identity) (r' : Rng)
      → signed_prekey_by_id later bob.signed_prekey.id ≡ some bob.signed_prekey
      → consume_one_time_prekey later opk.id ≡ (none, later)
      → ((respond p naming (later, r')).0 ≡ err (unknown_opk opk.id))
        × ((respond p naming (later, r')).1.0 ≡ later)
  unfolding respond one_time_secret
  respond-none later r' found absent =
      let ek_pair = (generate_x25519 p r).0 in
      let ek_key = generate_x25519-IsX25519 p curve r in
      rw
        (
          found,
          decode_public p hex curve alice.ik_dh alice_key,
          decode_public p hex curve ek_pair ek_key,
          absent,
        )
        (refl, refl)

  -- A responder, well-formed and with ids and times in order, may try to rotate its prekey and
  -- then gets a first message that names its current prekey from before and a one-time prekey,
  -- of whose id it has exactly one; the four secrets are contributory and all key pairs belong
  -- together. Given what the crates promise, it answers with the master secret that the
  -- initiator derives from the four secrets, with the initiator's associated data and its own
  -- prekey, and the one-time prekey is consumed: the same message once more is refused with the
  -- id of the unknown one-time prekey, and nothing more is consumed.
  pub one_time_handshake :
      (now : ℤ) (r' r2 r3 : Rng)
      → IsOrdered bob
      → IsTime now
      → let later = (rotate_signed_prekey_if_due p bob now r3).0.0 in
        let rest = (consume_one_time_prekey later opk.id).1 in
        (consume_one_time_prekey later opk.id).0 ≡ some opk
        → stock opk.id later ≤ 1
        → (b : ResponderResult) × (respond p naming (later, r') ≡ (ok b, (rest, r')))
          × (hkdf_expand p four_secrets hkdf_salt hkdf_info 32 ≡ ok b.master_secret)
          × (b.associated_data ≡ own_data)
          × (b.spk_keypair ≡ bob.signed_prekey.keypair)
          × ((respond p naming (rest, r2)).0 ≡ err (unknown_opk opk.id))
          × ((respond p naming (rest, r2)).1.0 ≡ rest)
  one_time_handshake now r' r2 r3 ordered time held single =
      let later = (rotate_signed_prekey_if_due p bob now r3).0.0 in
      let rest = (consume_one_time_prekey later opk.id).1 in
      let consumed : consume_one_time_prekey later opk.id ≡ (some opk, rest) =
        ap (λ x. (x, rest)) held in
      let found =
        bob_found p hex hkdf curve signing alice bob alice_key bob_keys r live now r3 ordered
          time in
      let (refused, same) =
        respond-none rest r2 (consume-signed_prekey_by_id later opk.id bob.signed_prekey.id ∙ found)
          (consumed_once later rest opk single consumed) in
      (
        _,
        respond_four later rest r' found (rotation-ik_dh p bob now r3) consumed,
        (master p hkdf four_secrets).1,
        refl,
        refl,
        refused,
        same,
      )
