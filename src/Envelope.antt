-- ===== src/Envelope.antt =====
-- src/envelope.rs: what is inside a ratchet message.
pub mod Laws
use trino_core.Prelude.{
  ℕ, Option, none, some, ok, err, Bool, ◌||◌, if◌then◌else◌, [], Bytes, codes, bytes_eq, ◌>>=◌,
}
use trino_core.Serde.{
  Value, Fields, null, other, string, number, array, object, end, field, Parsed, get, as_text,
  as_number, required, optional, defaulted, put_some, put_filled,
}
use trino_core.Group.Roster.{FileRef, GroupRoster}
use trino_core.Group.Serde.{Positional, file_value, roster_value, as_file, as_roster}

pub data Envelope : Type 0 where
  text : Bytes → Bytes → Envelope
  group : Bytes → ℕ → Bytes → Envelope
  roster : GroupRoster → Envelope
  file : FileRef → Option Bytes → Option Bytes → Envelope
  call : Bytes → Envelope

-- What `derive(Serialize)` makes of the attributes: the tag, and the fields of the variant.
unfoldable pub to_value : Envelope → Value
to_value (text body id) = object (
    field (codes "ty") (string (codes "text"))
      (field (codes "body") (string body) (put_filled (codes "id") id end)))
to_value (group gid ep body) = object (
    field (codes "ty") (string (codes "grp")) (
      field (codes "gid") (string gid)
        (field (codes "ep") (number ep) (field (codes "body") (string body) end))))
to_value (roster r) =
    object
      (field (codes "ty") (string (codes "roster")) (field (codes "roster") (roster_value r) end))
to_value (file f gid body) = object (
    field (codes "ty") (string (codes "file")) (
      field (codes "file") (file_value f)
        (put_some (codes "gid") gid (put_some (codes "body") body end))))
to_value (call c) =
    object (field (codes "ty") (string (codes "call")) (field (codes "call") (string c) end))

-- The text layer of serde_json, `String::from_utf8_lossy`, and what serde makes of arrays.
pub record JsonText : Type 0 where
  pub to_vec : Value → Option Bytes
  pub from_utf8_lossy : Bytes → Bytes
  pub from_str : Bytes → Option Value
  pub positional : Positional

-- `unwrap_or_default`
abbrev or_empty : Option Bytes → Bytes
or_empty none = []
or_empty (some b) = b

unfoldable pub is_known : Bytes → Bool
is_known ty =
    bytes_eq ty (codes "text")
    || bytes_eq ty (codes "grp")
    || bytes_eq ty (codes "roster")
    || bytes_eq ty (codes "file")
    || bytes_eq ty (codes "call")

module _ (c : JsonText) where
  abbrev pub read_text : Fields → Parsed Envelope
  read_text fs = do
    body ← required as_text (codes "body") fs
    id ← defaulted (codes "id") fs
    ok (text body id)

  abbrev pub read_group : Fields → Parsed Envelope
  read_group fs = do
    gid ← required as_text (codes "gid") fs
    ep ← required (as_number 64) (codes "ep") fs
    body ← required as_text (codes "body") fs
    ok (group gid ep body)

  abbrev pub read_roster : Fields → Parsed Envelope
  read_roster fs = do r ← required (as_roster c.positional) (codes "roster") fs; ok (roster r)

  abbrev pub read_file : Fields → Parsed Envelope
  read_file fs = do
    f ← required (as_file c.positional) (codes "file") fs
    gid ← optional as_text (codes "gid") fs
    body ← optional as_text (codes "body") fs
    ok (file f gid body)

  abbrev pub read_call : Fields → Parsed Envelope
  read_call fs = do signal ← required as_text (codes "call") fs; ok (call signal)

  -- What `derive(Deserialize)` makes of the attributes, for an object with this tag.
  unfoldable pub from_value : Bytes → Fields → Parsed Envelope
  from_value ty fs =
      if bytes_eq ty (codes "text")
      then read_text fs
      else if bytes_eq ty (codes "grp")
      then read_group fs
      else if bytes_eq ty (codes "roster")
      then read_roster fs
      else if bytes_eq ty (codes "file")
      then read_file fs
      else if bytes_eq ty (codes "call")
      then read_call fs
      else err tt

  unfoldable pub encode_envelope : Envelope → Bytes
  unfolding to_value
  encode_envelope e = or_empty (c.to_vec (to_value e))

  -- The nested `if let`, from the inside out: the envelope, unless one of the tests fails.
  abbrev read_known : Bytes → Fields → Parsed Envelope
  read_known ty fs = if is_known ty then from_value ty fs else err tt

  abbrev pub read_tagged : Option Value → Fields → Parsed Envelope
  read_tagged none fs = err tt
  read_tagged (some v) fs = as_text v >>= λ ty. read_known ty fs

  -- `val.get("ty").and_then(|v| v.as_str())` is there on objects only.
  unfoldable pub typed : Value → Parsed Envelope
  typed null = err tt
  typed (other t) = err tt
  typed (string t) = err tt
  typed (number n) = err tt
  typed (array vs) = err tt
  typed (object fs) = read_tagged (get (codes "ty") fs) fs

  unfoldable pub parsed : Option Value → Parsed Envelope
  unfolding typed
  parsed none = err tt
  parsed (some val) = typed val

  unfoldable pub decode_envelope : Bytes → Envelope
  decode_envelope plaintext =
      let raw = c.from_utf8_lossy plaintext in
      elim (parsed (c.from_str raw)) [ ok env ↦ env | err _ ↦ text raw [] ]
