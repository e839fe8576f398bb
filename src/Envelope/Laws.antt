-- ===== src/Envelope/Laws.antt =====
-- Envelopes of src/envelope.rs come back from their bytes.
use trino_core.Prelude.{
  ◌≡◌, ◌<◌, ◌^◌, refl, List, none, some, ok, [], ◌∷◌, Bytes, codes, bytes_eq, arith, All,
}
use trino_core.Serde.{Value, IsInRange, object, Fields, end}
use trino_core.Envelope.{
  Envelope, text, group, roster, file, call, JsonText, to_value, is_known, from_value,
  encode_envelope, typed, parsed, decode_envelope,
}
use trino_core.Group.Serde.Laws.{
  IsFile, IsPhoto, as_number_lem, file_lem, roster_lem, file-IsInRange, roster-IsInRange,
}

-- serde_json: a value, whose numbers are of the type `u64`, is printed, in UTF-8, and the text parses to it.
pub record JsonLaws (c : JsonText) : Type 0 where
  pub prints :
      (v : Value) → IsInRange v → (b : Bytes) × (c.to_vec v ≡ some b) × (c.from_str b ≡ some v)
  pub is_utf8 :
      (v : Value) (b : Bytes) → IsInRange v → c.to_vec v ≡ some b → c.from_utf8_lossy b ≡ b

-- The numbers in an envelope have the types of their fields.
abbrev pub IsSendable : Envelope → Type 0
IsSendable (text body id) = Unit
IsSendable (group gid ep body) = ep < 2 ^ 64
IsSendable (roster r) =
    IsPhoto r.photo × All (λ m. m.spk_id < 2 ^ 32) r.members × (r.epoch < 2 ^ 64)
IsSendable (file f gid body) = IsFile f
IsSendable (call c) = Unit

-- The names that an envelope may have.
abbrev pub names : List Bytes
names =
    codes "ty"
    ∷ codes "body"
    ∷ codes "id"
    ∷ codes "gid"
    ∷ codes "ep"
    ∷ codes "roster"
    ∷ codes "file"
    ∷ codes "call"
    ∷ []

abbrev pub entries : Value → Fields
entries (object fs) = fs
entries v = end

to_value-IsInRange : (e : Envelope) → IsSendable e → IsInRange (to_value e)
unfolding to_value
to_value-IsInRange (text body []) h = ground arith
to_value-IsInRange (text body (b ∷ id)) h = ground arith
to_value-IsInRange (group gid ep body) h = ground (arith, h)
to_value-IsInRange (roster r) h =
    let v = roster-IsInRange r r.photo h.0 h.1 h.2 in ground (arith, v)
to_value-IsInRange (file f none none) h = let v = file-IsInRange f f.thumb h in ground (arith, v)
to_value-IsInRange (file f none (some b)) h =
    let v = file-IsInRange f f.thumb h in ground (arith, v)
to_value-IsInRange (file f (some g) none) h =
    let v = file-IsInRange f f.thumb h in ground (arith, v)
to_value-IsInRange (file f (some g) (some b)) h =
    let v = file-IsInRange f f.thumb h in ground (arith, v)
to_value-IsInRange (call c) h = ground arith

module _ (c : JsonText) where
  typed-to_value : (e : Envelope) → IsSendable e → typed c (to_value e) ≡ ok e
  unfolding typed to_value is_known from_value bytes_eq
  typed-to_value (text body []) h = refl
  typed-to_value (text body (b ∷ id)) h = refl
  typed-to_value (group gid ep body) h = rw (as_number_lem 64 ep h) refl
  typed-to_value (roster r) h = rw (roster_lem c.positional r r.photo h.0 h.1 h.2) refl
  typed-to_value (file f none none) h = rw (file_lem c.positional f f.thumb h) refl
  typed-to_value (file f none (some b)) h = rw (file_lem c.positional f f.thumb h) refl
  typed-to_value (file f (some g) none) h = rw (file_lem c.positional f f.thumb h) refl
  typed-to_value (file f (some g) (some b)) h = rw (file_lem c.positional f f.thumb h) refl
  typed-to_value (call signal) h = refl

  -- If serde_json prints a value, whose numbers are below 2^64, in UTF-8 as a text that it
  -- parses to that value, then an envelope whose numbers have the types of their fields comes
  -- back from its bytes: a text with or without an id, a group message, a roster with its photo
  -- and members, a file with or without a group and a caption, and a call.
  pub decode_envelope-encode_envelope :
      JsonLaws c → (e : Envelope) → IsSendable e → decode_envelope c (encode_envelope c e) ≡ e
  unfolding decode_envelope encode_envelope parsed
  decode_envelope-encode_envelope laws e h =
      let (b, written, read) = laws.prints (to_value e) (to_value-IsInRange e h) in
      rw (
        written,
        decode_envelope,
        laws.is_utf8 (to_value e) b (to_value-IsInRange e h) written,
        read,
        parsed,
        typed-to_value e h,
      )
