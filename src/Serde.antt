-- ===== src/Serde.antt =====
-- What src/envelope.rs and src/group.rs use of serde: JSON values, and the fields of a struct by their
-- attributes. A `Map` is given by its fields as they stand in the text, and only looked up by name.
use trino_core.Prelude.{
  ℕ, ◌^◌, ◌<◌, Bool, true, false, if◌then◌else◌, ltb, Option, none, some, Result, ok, err, [], ◌∷◌,
  Bytes, bytes_eq,
}

-- `serde_json::Value`; `other` is a boolean, or a number that is no `u64`.
mutual
  pub data Value : Type 0 where
    null : Value
    other : Bytes → Value
    string : Bytes → Value
    number : ℕ → Value
    array : Values → Value
    object : Fields → Value

  pub data Values : Type 0 where
    nil : Values
    cons : Value → Values → Values

  pub data Fields : Type 0 where
    end : Fields
    field : Bytes → Value → Fields → Fields

-- The numbers in it are of the type `u64`.
abbrev mutual
  pub IsInRange : Value → Type 0
  IsInRange null = Unit
  IsInRange (other t) = Unit
  IsInRange (string t) = Unit
  IsInRange (number n) = n < 2 ^ 64
  IsInRange (array vs) = AreInRange vs
  IsInRange (object fs) = FieldsInRange fs

  pub AreInRange : Values → Type 0
  AreInRange nil = Unit
  AreInRange (cons v vs) = IsInRange v × AreInRange vs

  pub FieldsInRange : Fields → Type 0
  FieldsInRange end = Unit
  FieldsInRange (field k v fs) = IsInRange v × FieldsInRange fs

-- A result of deserialization.
abbrev pub Parsed : Type 0 → Type 0
Parsed A = Result (Unit {0}) A

abbrev pub get : Bytes → Fields → Option Value
get key end = none
get key (field k v fs) = if bytes_eq k key then some v else get key fs

abbrev pub as_text : Value → Parsed Bytes
as_text null = err tt
as_text (other t) = err tt
as_text (string t) = ok t
as_text (number n) = err tt
as_text (array vs) = err tt
as_text (object fs) = err tt

-- A number of so many bits.
abbrev pub as_number : ℕ → Value → Parsed ℕ
as_number bits null = err tt
as_number bits (other t) = err tt
as_number bits (string t) = err tt
as_number bits (number n) = if ltb n (2 ^ bits) then ok n else err tt
as_number bits (array vs) = err tt
as_number bits (object fs) = err tt

abbrev pub is_null : Value → Bool
is_null null = true
is_null (other t) = false
is_null (string t) = false
is_null (number n) = false
is_null (array vs) = false
is_null (object fs) = false

module _ {A : Type 0} (read : Value → Parsed A) where
  abbrev read_field : Option Value → Parsed A
  read_field none = err tt
  read_field (some v) = read v

  -- A field that must be there.
  abbrev pub required : Bytes → Fields → Parsed A
  required key fs = read_field (get key fs)

  abbrev some_of : Parsed A → Parsed (Option A)
  some_of (ok a) = ok (some a)
  some_of (err e) = err e

  abbrev read_option : Option Value → Parsed (Option A)
  read_option none = ok none
  read_option (some v) = if is_null v then ok none else some_of (read v)

  -- A field of an `Option` type, which may be missing.
  abbrev pub optional : Bytes → Fields → Parsed (Option A)
  optional key fs = read_option (get key fs)

abbrev or_default : Option Value → Parsed Bytes
or_default none = ok []
or_default (some v) = as_text v

-- A `String` field with `#[serde(default)]`.
abbrev pub defaulted : Bytes → Fields → Parsed Bytes
defaulted key fs = or_default (get key fs)

-- `skip_serializing_if = "Option::is_none"`
abbrev pub put_some : Bytes → Option Bytes → Fields → Fields
put_some key none fs = fs
put_some key (some t) fs = field key (string t) fs

-- `skip_serializing_if = "String::is_empty"`
abbrev pub put_filled : Bytes → Bytes → Fields → Fields
put_filled key [] fs = fs
put_filled key (b ∷ bs) fs = field key (string (b ∷ bs)) fs
