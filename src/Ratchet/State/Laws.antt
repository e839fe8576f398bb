-- ===== src/Ratchet/State/Laws.antt =====
-- Key identifiers are injective, and key derivation is total.
use trino_core.Prelude.{
  ℕ, ◌≡◌, sym, ap, ◌∙◌, ok, Bytes, AreBytes, length, take, drop, take-append, drop-append,
  length-take, length-drop, arith, ◌∷◌,
}
use trino_core.Prelude.Decimal.{decimal, decimal_injective}
use trino_core.Primitives.{Primitives, HexLaws, HkdfLaws}
use trino_core.Crypto.Laws.{hkdf_expand_total}
use trino_core.Ratchet.State.{
  kdf_rk_info, kdf_ck_info_chain, kdf_ck_info_msg, zero_salt, kdf_rk, kdf_ck, skipped_key_id,
}

-- A 32-byte array.
abbrev pub IsKey : Bytes → Type 0
IsKey k = AreBytes k × (length k ≡ 32)

module _ (p : Primitives) where
  module _ (hex : HexLaws p) where
    hex_encode_injective :
        (a b : Bytes) → AreBytes a → AreBytes b → p.hex_encode a ≡ p.hex_encode b → a ≡ b
    hex_encode_injective a b ha hb e = cc (hex.decode-encode a ha, hex.decode-encode b hb, e)

    -- Given what the hex crate promises, two ids of the skipped-key store for 32-byte keys are
    -- the same only for the same peer key and number.
    pub skipped_key_id_injective :
        (d e : Bytes) (n m : ℕ)
        → IsKey d
        → IsKey e
        → skipped_key_id p d n ≡ skipped_key_id p e m
        → (d ≡ e) × (n ≡ m)
    unfolding skipped_key_id
    skipped_key_id_injective d e n m hd he q =
        let len : length (p.hex_encode d) ≡ length (p.hex_encode e) =
          omega (arith, hex.length-encode d, hex.length-encode e) in
        let heads : p.hex_encode d ≡ p.hex_encode e =
          sym (take-append (p.hex_encode d) (b':' ∷ decimal n))
          ∙ (rw (q, len) (take-append (p.hex_encode e) (b':' ∷ decimal m))) in
        let tails : ◌≡◌ {A = Bytes} (b':' ∷ decimal n) (b':' ∷ decimal m) =
          sym (drop-append (p.hex_encode d) (b':' ∷ decimal n))
          ∙ (rw (q, len) (drop-append (p.hex_encode e) (b':' ∷ decimal m))) in
        (hex_encode_injective d e hd.0 he.0 heads, decimal_injective n m (ap (drop 1) tails))

  module _ (laws : HkdfLaws p) where
    pub kdf_rk_total :
        (rk dh_out : Bytes)
        → (k : Bytes × Bytes) × (kdf_rk p rk dh_out ≡ ok k) × (length k.0 ≡ 32) × (length k.1 ≡ 32)
    unfolding kdf_rk
    kdf_rk_total rk dh_out =
        let (okm, e, len, _) = hkdf_expand_total p laws dh_out rk kdf_rk_info 64 (omega arith) in
        (
          (take 32 okm, drop 32 okm),
          rw e,
          omega (arith, length-take 32 okm),
          omega (arith, length-drop 32 okm),
        )

    pub kdf_ck_total :
        (ck : Bytes) → (k : Bytes × Bytes) × (kdf_ck p ck ≡ ok k) × IsKey k.0 × IsKey k.1
    unfolding kdf_ck
    kdf_ck_total ck =
        let (a, ea, la, ba) =
          hkdf_expand_total p laws ck zero_salt kdf_ck_info_chain 32 (omega arith) in
        let (b, eb, lb, bb) =
          hkdf_expand_total p laws ck zero_salt kdf_ck_info_msg 32 (omega arith) in
        ((a, b), rw (ea, eb), (ba, la), (bb, lb))
