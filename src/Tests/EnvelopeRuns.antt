-- ===== src/Tests/EnvelopeRuns.antt =====
-- Runs of the theorems about src/envelope.rs, with the parser and printer of Toy/Text.antt.
use trino_core.Prelude.{◌≡◌, refl, none, some, err, [], ◌∷◌, codes, arith}
use trino_core.Serde.{Fields, field, end, null, string, number}
use trino_core.Group.Roster.{FileRef, MemberBundle, GroupRoster}
use trino_core.Envelope.{Envelope, roster, file, JsonText, encode_envelope, decode_envelope}
use trino_core.Envelope.Laws.{JsonLaws, decode_envelope-encode_envelope}
use trino_core.Tests.Toy.Text.{parse, print, parse-print}

abbrev toy_text : JsonText
toy_text = record {
  to_vec = λ v. some (print v);
  from_utf8_lossy = λ b. b;
  from_str = parse;
  positional = record { file = λ vs. err tt; member = λ vs. err tt; roster = λ vs. err tt };
}

toy_laws : JsonLaws toy_text
toy_laws = record { prints = λ v h. (print v, refl, parse-print v); is_utf8 = λ v b h w. refl }

abbrev picture : FileRef
picture = record {
  url = codes "https://example.org/p";
  key = codes "00ff";
  sha256 = codes "ab";
  mime = codes "image/png";
  name = codes "p.png";
  size = 70000;
  thumb = some (codes "data:");
}

abbrev member : MemberBundle
member = record {
  handle = codes "bob";
  ik_sign_pub = codes "01";
  ik_dh_pub = codes "02";
  nostr_pub = codes "03";
  spk_id = 12;
  spk_pub = codes "04";
  spk_sig = codes "05";
  id_sig = [];
}

abbrev friends : GroupRoster
friends = record {
  group_id = codes "g";
  name = codes "friends";
  photo = some picture;
  admin_pub = codes "01";
  members = member ∷ [];
  epoch = 3;
  signature = codes "06";
}

decode_envelope-encode_envelope_example :
    decode_envelope toy_text (encode_envelope toy_text (roster friends)) ≡ roster friends
decode_envelope-encode_envelope_example =
    decode_envelope-encode_envelope toy_text toy_laws (roster friends)
      (omega arith, (omega arith, tt), omega arith)

-- A file to a group, without a caption.
shared_file : Envelope
shared_file = file picture (some (codes "g")) none

shared_file_lem : decode_envelope toy_text (encode_envelope toy_text shared_file) ≡ shared_file
unfolding shared_file
shared_file_lem = decode_envelope-encode_envelope toy_text toy_laws shared_file (omega arith)

-- The fields of a group message in another order, with one that nobody knows.
abbrev shuffled : Fields
shuffled = field (codes "body") (string (codes "hola")) (
    field (codes "x") null (
      field (codes "ep") (number 4) (
        field (codes "ty") (string (codes "grp"))
          (field (codes "gid") (string (codes "abc123")) end))))
