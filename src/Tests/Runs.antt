-- ===== src/Tests/Runs.antt =====
-- Runs of the theorems about the ratchet of src/ratchet.rs, on two ends of one chain.
use trino_core.Prelude.{
  ℕ, ◌↔◌, inl, ◌≤◌, ◌^◌, ◌≡◌, refl, some, none, ok, List, [], ◌∷◌, Bytes, AreBytes, length, arith,
  contains, lookup,
}
use trino_core.Primitives.{Rng}
use trino_core.Identity.Keys.{KeyPair}
use trino_core.Ratchet.State.{RatchetState, EncryptedMessage}
use trino_core.Ratchet.State.Laws.{IsKey}
use trino_core.Ratchet.Session.{World}
use trino_core.Ratchet.State.{RatchetError, replay}
use trino_core.Prelude.{err}
use trino_core.Crypto.{to_hex}
use trino_core.Ratchet.State.{too_many_skipped}
use trino_core.Ratchet.Session.{ratchet_decrypt}
use trino_core.Ratchet.Session.Refusal.{IsRepeated, IsDistant, ratchet_decrypt_refuses}
use trino_core.Ratchet.Session.Once.{decrypt_each, replays_refused}
use trino_core.Ratchet.Store.Bank.{empty-IsFullStore}
use trino_core.Ratchet.Session.Burst.{AreTexts, ArePlaces, select, encrypt_all, decrypt_all}
use trino_core.Ratchet.Session.AnyOrder.{InStep, every_order_decrypts}
use trino_core.Tests.Toy.{
  toy, toy_hex, toy_hkdf, toy_aead, stretch, length-stretch, stretch-AreBytes,
}

abbrev pub rng : Rng
rng = λ n. n

-- The sender's own key, and the chain key that both ends have.
abbrev pub own : Bytes
own = stretch 32 7

abbrev pub shared : Bytes
shared = stretch 32 99

abbrev pub pair : KeyPair
pair = record { priv_bytes = stretch 32 5; pub_bytes = own }

abbrev sender : RatchetState
sender = record {
  root_key = shared;
  dhs = pair;
  dhr = none;
  sending_chain_key = some shared;
  receiving_chain_key = none;
  sending_msg_number = 4;
  receiving_msg_number = 0;
  previous_sending_chain_length = 0;
  skipped_keys = [];
  skipped_key_order = [];
  retired_peer_dh_keys = [];
}

abbrev pub receiver : RatchetState
receiver = record sender {
  dhr = some own;
  sending_chain_key = none;
  receiving_chain_key = some shared;
  receiving_msg_number = 4;
}

pub own-IsKey : IsKey own
own-IsKey = (stretch-AreBytes 32 7, length-stretch 32 7)

in_step : InStep toy sender receiver
unfolding contains lookup
in_step = record {
  own_key = own-IsKey;
  chain_key = shared;
  sending = refl;
  receiving = refl;
  number = refl;
  peer = refl;
  live = refl;
  store = empty-IsFullStore;
  none_ahead = λ n h. refl;
}

abbrev pub texts : List Bytes
texts = stretch 3 1 ∷ stretch 5 2 ∷ stretch 4 3 ∷ []

-- The last message comes first.
abbrev pub order : List ℕ
order = 2 ∷ 0 ∷ 1 ∷ []

text_lem : (n c : ℕ) → n ≤ 2 ^ 36 → AreBytes (stretch n c) × (length (stretch n c) ≤ 2 ^ 36)
text_lem n c h = (stretch-AreBytes n c, omega (arith, length-stretch n c))

pub texts-AreTexts : AreTexts texts
texts-AreTexts =
    (text_lem 3 1 (omega arith), (text_lem 5 2 (omega arith), (text_lem 4 3 (omega arith), tt)))

pub order-ArePlaces : ArePlaces 3 order
order-ArePlaces = ground arith

every_order_decrypts_example :
    (ms : List EncryptedMessage) × (w : World) × (t' : RatchetState) × (encrypt_all toy texts own
        (sender, rng)
      ≡ (ok ms, w))
    × (decrypt_all toy (select order ms) own (receiver, rng) ≡ (ok (select order texts), (t', rng)))
every_order_decrypts_example =
    every_order_decrypts toy toy_hex toy_hkdf toy_aead sender receiver rng rng own texts order
      in_step (omega arith) (omega arith) (omega arith) (omega (arith, length-stretch 32 7))
      texts-AreTexts order-ArePlaces

-- Two messages come twice.
abbrev repeating : List ℕ
repeating = 2 ∷ 0 ∷ 2 ∷ 1 ∷ 0 ∷ []

replays_refused_example :
    (ms : List EncryptedMessage) × (w : World) × (t' : RatchetState) × (encrypt_all toy texts own
        (sender, rng)
      ≡ (ok ms, w))
    × (decrypt_each toy (select repeating ms) own (receiver, rng) ≡ (
      ok (stretch 4 3) ∷ ok (stretch 3 1) ∷ err (replay 6) ∷ ok (stretch 5 2) ∷ err (replay 4) ∷ [],
      (t', rng),
    ))
replays_refused_example =
    replays_refused toy toy_hex toy_hkdf toy_aead sender receiver rng rng own texts repeating
      in_step (omega arith) (omega arith) (omega arith) (omega (arith, length-stretch 32 7))
      texts-AreTexts (ground arith)

-- A message that claims to be the two thousandth.
abbrev distant : EncryptedMessage
distant = record {
  header = record { dh_pub = to_hex toy own; pn = 0; n = 2000 };
  nonce = [];
  ciphertext = [];
}

ratchet_decrypt_refuses_example :
    let x = ratchet_decrypt toy distant own (receiver, rng) in
    ((k : ℕ) → (x.0 ≡ err (replay k)) ↔ ((k ≡ 2000) × IsRepeated toy distant receiver))
    × ((k : ℕ) → (x.0 ≡ err (too_many_skipped k)) ↔ ((k ≡ 1000) × IsDistant toy distant receiver))
    × ((e : RatchetError) → x.0 ≡ err e → x.1.0 ≡ receiver)
ratchet_decrypt_refuses_example =
    ratchet_decrypt_refuses toy toy_hkdf distant own (omega arith) (omega arith) receiver rng

-- It is refused as such.
distant_refused : (ratchet_decrypt toy distant own (receiver, rng)).0 ≡ err (too_many_skipped 1000)
unfolding contains lookup
distant_refused =
    ((ratchet_decrypt_refuses toy toy_hkdf distant own (omega arith) (omega arith) receiver rng).1
        1000).1
      (
        refl,
        (
          own,
          (toy_hex.decode-encode own own-IsKey.0, own-IsKey.1),
          refl,
          refl,
          inl (refl, (shared, refl, omega arith)),
        ),
      )
