-- ===== src/Ratchet/State.antt =====
-- The state and the messages of src/ratchet.rs, its key derivation, and its message header.
pub mod Laws
use trino_core.Prelude.{
  ℕ, zero, suc, Option, some, none, Result, ok, err, ok_or, map_err, ◌==◌, if◌then◌else◌, not,
  Bytes, length, take, drop, ◌>>=◌, List, [], ◌∷◌, ◌++◌, codes, map,
}
use trino_core.Prelude.Decimal.{decimal, to_be_bytes}
use trino_core.Primitives.{Primitives, Rng}
use trino_core.Crypto.{CryptoError, invalid_key_length, aead, hkdf_expand}
use trino_core.Identity.Keys.{KeyPair, generate_x25519, x25519_derive_shared}

abbrev pub kdf_rk_info : Bytes
kdf_rk_info = codes "trino-ratchet-rk-v1"

abbrev pub kdf_ck_info_chain : Bytes
kdf_ck_info_chain = codes "trino-ratchet-ck-chain-v1"

abbrev pub kdf_ck_info_msg : Bytes
kdf_ck_info_msg = codes "trino-ratchet-ck-msg-v1"

abbrev pub max_skip : ℕ
max_skip = 1000

abbrev pub max_retired_dh_keys : ℕ
max_retired_dh_keys = 8

abbrev pub max_skipped_keys : ℕ
max_skipped_keys = 2000

abbrev replicate_zero : ℕ → Bytes
replicate_zero zero = []
replicate_zero (suc n) = 0 ∷ replicate_zero n

abbrev pub zero_salt : Bytes
zero_salt = replicate_zero 32

pub data RatchetError : Type 0 where
  no_sending_chain no_receiving_chain : RatchetError
  out_of_order : ℕ → ℕ → RatchetError
  too_many_skipped : ℕ → RatchetError
  replay : ℕ → RatchetError
  crypto : CryptoError → RatchetError

pub record RatchetState : Type 0 where
  pub root_key : Bytes
  pub dhs : KeyPair
  pub dhr : Option Bytes
  pub sending_chain_key : Option Bytes
  pub receiving_chain_key : Option Bytes
  pub sending_msg_number : ℕ
  pub receiving_msg_number : ℕ
  pub previous_sending_chain_length : ℕ
  pub skipped_keys : List (Bytes × Bytes)
  pub skipped_key_order : List Bytes
  pub retired_peer_dh_keys : List Bytes

pub record MessageHeader : Type 0 where
  pub dh_pub : Bytes
  pub pn : ℕ
  pub n : ℕ

pub record EncryptedMessage : Type 0 where
  pub header : MessageHeader
  pub nonce : Bytes
  pub ciphertext : Bytes

-- `key.zeroize()` on an array.
abbrev zeroize : Bytes → Bytes
zeroize = map (λ _. 0)

unfoldable pub zeroize_secrets : RatchetState → RatchetState
zeroize_secrets s = record s {
  root_key = zeroize s.root_key;
  dhs = record { priv_bytes = zeroize s.dhs.priv_bytes; pub_bytes = s.dhs.pub_bytes };
  sending_chain_key = none;
  receiving_chain_key = none;
  skipped_keys = [];
  skipped_key_order = [];
}

module _ (p : Primitives) where
  -- The root key and the chain key, from one derivation of 64 bytes.
  unfoldable pub kdf_rk : Bytes → Bytes → Result CryptoError (Bytes × Bytes)
  kdf_rk rk dh_out = do okm ← hkdf_expand p dh_out rk kdf_rk_info 64; ok (take 32 okm, drop 32 okm)

  -- The next chain key and this message's key.
  unfoldable pub kdf_ck : Bytes → Result CryptoError (Bytes × Bytes)
  kdf_ck ck = do
    next_ck ← hkdf_expand p ck zero_salt kdf_ck_info_chain 32
    mk ← hkdf_expand p ck zero_salt kdf_ck_info_msg 32
    ok (next_ck, mk)

  unfoldable pub decode_32 : Bytes → Result RatchetError Bytes
  decode_32 s = do
    v ← ok_or (p.hex_decode s) (crypto (invalid_key_length 32 0))
    if not (length v == 32) then err (crypto (invalid_key_length 32 (length v))) else ok v

  unfoldable pub decode_hex : Bytes → Result RatchetError Bytes
  decode_hex s = ok_or (p.hex_decode s) (crypto aead)

  unfoldable pub encode_header : MessageHeader → Result RatchetError Bytes
  encode_header h = do
    dh_bytes ← decode_32 h.dh_pub
    ok (dh_bytes ++ (to_be_bytes h.pn ++ to_be_bytes h.n))

  unfoldable pub skipped_key_id : Bytes → ℕ → Bytes
  skipped_key_id dh_pub n = p.hex_encode dh_pub ++ (b':' ∷ decimal n)

  unfoldable pub init_initiator : Bytes → Bytes → Rng → Result RatchetError RatchetState × Rng
  init_initiator master_secret their_spk_pub r =
      let (dhs, r') = generate_x25519 p r in
      let (dh_out, r'') = x25519_derive_shared p dhs.priv_bytes their_spk_pub r' in
      (
        map_err crypto (kdf_rk master_secret dh_out) >>= λ k. ok (record {
          root_key = k.0;
          dhs = dhs;
          dhr = some their_spk_pub;
          sending_chain_key = some k.1;
          receiving_chain_key = none;
          sending_msg_number = 0;
          receiving_msg_number = 0;
          previous_sending_chain_length = 0;
          skipped_keys = [];
          skipped_key_order = [];
          retired_peer_dh_keys = [];
        }),
        r'',
      )

unfoldable pub init_responder : Bytes → KeyPair → RatchetState
init_responder master_secret our_spk_keypair = record {
  root_key = master_secret;
  dhs = our_spk_keypair;
  dhr = none;
  sending_chain_key = none;
  receiving_chain_key = none;
  sending_msg_number = 0;
  receiving_msg_number = 0;
  previous_sending_chain_length = 0;
  skipped_keys = [];
  skipped_key_order = [];
  retired_peer_dh_keys = [];
}
