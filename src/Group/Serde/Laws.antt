-- ===== src/Group/Serde/Laws.antt =====
-- The records of src/group.rs come back from what serde writes.
use trino_core.Prelude.{
  ℕ, ◌≡◌, ◌<◌, ◌^◌, true, refl, List, Option, none, some, ok, [], ◌∷◌, Bytes, bytes_eq, arith, All,
  ltb,
}
use trino_core.Serde.{IsInRange, AreInRange, as_number, number}
use trino_core.Group.Roster.{FileRef, MemberBundle, GroupRoster}
use trino_core.Group.Serde.{
  Positional, file_value, member_value, member_values, roster_value, as_file, as_member,
  each_member, as_roster,
}

-- The numbers in a file and a photo have the types of their fields.
abbrev pub IsFile : FileRef → Type 0
IsFile f = f.size < 2 ^ 64

abbrev pub IsPhoto : Option FileRef → Type 0
IsPhoto none = Unit
IsPhoto (some f) = IsFile f

pub as_number_lem : (bits n : ℕ) → n < 2 ^ bits → as_number bits (number n) ≡ ok n
as_number_lem bits n h = let fits : ltb n (2 ^ bits) ≡ true = ground (arith, h) in rw fits

pub file_lem :
    (q : Positional) (f : FileRef) (thumb : Option Bytes)
    → IsFile f
    → as_file q (file_value (record f { thumb = thumb })) ≡ ok (record f { thumb = thumb })
unfolding bytes_eq
file_lem q f none h = rw (as_number_lem 64 f.size h) refl
file_lem q f (some t) h = rw (as_number_lem 64 f.size h) refl

member_lem :
    (q : Positional) (m : MemberBundle) → m.spk_id < 2 ^ 32 → as_member q (member_value m) ≡ ok m
unfolding bytes_eq
member_lem q m h = rw (as_number_lem 32 m.spk_id h) refl

members_lem :
    (q : Positional) (ms : List MemberBundle)
    → All (λ m. m.spk_id < 2 ^ 32) ms
    → each_member q (member_values ms) ≡ ok ms
members_lem q [] h = refl
members_lem q (m ∷ ms) h = rw (member_lem q m h.0, members_lem q ms h.1)

pub roster_lem :
    (q : Positional) (r : GroupRoster) (photo : Option FileRef)
    → IsPhoto photo
    → All (λ m. m.spk_id < 2 ^ 32) r.members
    → r.epoch < 2 ^ 64
    → as_roster q (roster_value (record r { photo = photo })) ≡ ok (record r { photo = photo })
unfolding bytes_eq
roster_lem q r none h k e = rw (members_lem q r.members k, as_number_lem 64 r.epoch e) refl
roster_lem q r (some f) h k e =
    rw (file_lem q f f.thumb h, members_lem q r.members k, as_number_lem 64 r.epoch e) refl

pub file-IsInRange :
    (f : FileRef) (thumb : Option Bytes)
    → IsFile f
    → IsInRange (file_value (record f { thumb = thumb }))
file-IsInRange f none h = ground (arith, h)
file-IsInRange f (some t) h = ground (arith, h)

members-AreInRange :
    (ms : List MemberBundle) → All (λ m. m.spk_id < 2 ^ 32) ms → AreInRange (member_values ms)
members-AreInRange [] h = tt
members-AreInRange (m ∷ ms) h =
    let rest = members-AreInRange ms h.1 in
    let small : m.spk_id < 2 ^ 64 = omega (arith, h.0) in ground (arith, small, rest)

pub roster-IsInRange :
    (r : GroupRoster) (photo : Option FileRef)
    → IsPhoto photo
    → All (λ m. m.spk_id < 2 ^ 32) r.members
    → r.epoch < 2 ^ 64
    → IsInRange (roster_value (record r { photo = photo }))
roster-IsInRange r none h k e = let ms = members-AreInRange r.members k in ground (arith, ms, e)
roster-IsInRange r (some f) h k e =
    let ms = members-AreInRange r.members k in
    let picture = file-IsInRange f f.thumb h in ground (arith, ms, e, picture)
