-- ===== src/Group/Serde.antt =====
-- How serde writes and reads the records of src/group.rs, by the attributes they derive it with.
pub mod Laws
use trino_core.Prelude.{Option, none, some, ok, err, List, [], ◌∷◌, Bytes, codes, ◌>>=◌}
use trino_core.Group.Roster.{FileRef, MemberBundle, GroupRoster}
use trino_core.Serde.{
  Value, Values, Fields, null, other, string, number, array, object, nil, cons, end, field, Parsed,
  as_text, as_number, required, optional, defaulted, put_some,
}

abbrev pub file_value : FileRef → Value
file_value f = object (
    field (codes "url") (string f.url) (
      field (codes "key") (string f.key) (
        field (codes "sha256") (string f.sha256) (
          field (codes "mime") (string f.mime) (
            field (codes "name") (string f.name)
              (field (codes "size") (number f.size) (put_some (codes "thumb") f.thumb end)))))))

abbrev pub member_value : MemberBundle → Value
member_value m = object (
    field (codes "handle") (string m.handle) (
      field (codes "ikSignPub") (string m.ik_sign_pub) (
        field (codes "ikDhPub") (string m.ik_dh_pub) (
          field (codes "nostrPub") (string m.nostr_pub) (
            field (codes "spkId") (number m.spk_id) (
              field (codes "spkPub") (string m.spk_pub) (
                field (codes "spkSig") (string m.spk_sig)
                  (field (codes "idSig") (string m.id_sig) end))))))))

abbrev pub member_values : List MemberBundle → Values
member_values [] = nil
member_values (m ∷ ms) = cons (member_value m) (member_values ms)

abbrev pub photo_value : Option FileRef → Value
photo_value none = null
photo_value (some f) = file_value f

abbrev pub roster_value : GroupRoster → Value
roster_value r = object (
    field (codes "groupId") (string r.group_id) (
      field (codes "name") (string r.name) (
        field (codes "photo") (photo_value r.photo) (
          field (codes "adminPub") (string r.admin_pub) (
            field (codes "members") (array (member_values r.members)) (
              field (codes "epoch") (number r.epoch)
                (field (codes "signature") (string r.signature) end)))))))

-- serde also reads a struct from an array of its fields in order; how is left open.
pub record Positional : Type 0 where
  pub file : Values → Parsed FileRef
  pub member : Values → Parsed MemberBundle
  pub roster : Values → Parsed GroupRoster

module _ (positional : Positional) where
  abbrev pub as_file : Value → Parsed FileRef
  as_file null = err tt
  as_file (other t) = err tt
  as_file (string t) = err tt
  as_file (number n) = err tt
  as_file (array vs) = positional.file vs
  as_file (object fs) = do
    url ← required as_text (codes "url") fs
    key ← required as_text (codes "key") fs
    sha256 ← required as_text (codes "sha256") fs
    mime ← required as_text (codes "mime") fs
    name ← required as_text (codes "name") fs
    size ← required (as_number 64) (codes "size") fs
    thumb ← optional as_text (codes "thumb") fs
    ok (record {
      url = url;
      key = key;
      sha256 = sha256;
      mime = mime;
      name = name;
      size = size;
      thumb = thumb;
    })

  abbrev pub as_member : Value → Parsed MemberBundle
  as_member null = err tt
  as_member (other t) = err tt
  as_member (string t) = err tt
  as_member (number n) = err tt
  as_member (array vs) = positional.member vs
  as_member (object fs) = do
    handle ← required as_text (codes "handle") fs
    ik_sign_pub ← required as_text (codes "ikSignPub") fs
    ik_dh_pub ← required as_text (codes "ikDhPub") fs
    nostr_pub ← required as_text (codes "nostrPub") fs
    spk_id ← required (as_number 32) (codes "spkId") fs
    spk_pub ← required as_text (codes "spkPub") fs
    spk_sig ← required as_text (codes "spkSig") fs
    id_sig ← defaulted (codes "idSig") fs
    ok (record {
      handle = handle;
      ik_sign_pub = ik_sign_pub;
      ik_dh_pub = ik_dh_pub;
      nostr_pub = nostr_pub;
      spk_id = spk_id;
      spk_pub = spk_pub;
      spk_sig = spk_sig;
      id_sig = id_sig;
    })

  abbrev pub each_member : Values → Parsed (List MemberBundle)
  each_member nil = ok []
  each_member (cons v vs) = do m ← as_member v; ms ← each_member vs; ok (m ∷ ms)

  abbrev pub as_members : Value → Parsed (List MemberBundle)
  as_members null = err tt
  as_members (other t) = err tt
  as_members (string t) = err tt
  as_members (number n) = err tt
  as_members (array vs) = each_member vs
  as_members (object fs) = err tt

  abbrev pub as_roster : Value → Parsed GroupRoster
  as_roster null = err tt
  as_roster (other t) = err tt
  as_roster (string t) = err tt
  as_roster (number n) = err tt
  as_roster (array vs) = positional.roster vs
  as_roster (object fs) = do
    group_id ← required as_text (codes "groupId") fs
    name ← required as_text (codes "name") fs
    photo ← optional as_file (codes "photo") fs
    admin_pub ← required as_text (codes "adminPub") fs
    members ← required as_members (codes "members") fs
    epoch ← required (as_number 64) (codes "epoch") fs
    signature ← required as_text (codes "signature") fs
    ok (record {
      group_id = group_id;
      name = name;
      photo = photo;
      admin_pub = admin_pub;
      members = members;
      epoch = epoch;
      signature = signature;
    })
