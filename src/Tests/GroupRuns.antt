-- ===== src/Tests/GroupRuns.antt =====
-- Runs of the theorems about src/group.rs: bob's group, which he renames.
use trino_core.Prelude.{
  ◌≡◌, ◌≢◌, ◌↔◌, refl, true, some, none, ok, [], ◌∷◌, ◌++◌, Bytes, codes, arith, Distinct, contains,
  bytes_eq, bytes_eq_refl,
}
use trino_core.Crypto.{to_hex}
use trino_core.Identity.Prekeys.{Identity}
use trino_core.Identity.Bundle.{public_bundle_for}
use trino_core.Group.Roster.{
  Json, JsonItems, null, text, number, array, nil, cons, MemberBundle, GroupRoster,
  from_public_bundle, member_keys, has_key, validate_roster, is_member,
}
use trino_core.Group.Roster.Validity.{IsRoster, validate_roster_iff}
use trino_core.Crypto.{random_array}
use trino_core.Group.{
  set_group_name, assert_admin, create_group, accept, reject, not_a_member, pending_invite,
  accept_roster_update, evaluate_incoming_roster, next_epoch, signed_roster,
}
use trino_core.Prelude.{false, if◌then◌else◌}
use trino_core.Prelude.Int.{pos}
use trino_core.Identity.Keys.{KeyPair, ed25519_sign}
use trino_core.Identity.Bundle.Laws.{IsWellFormed}
use trino_core.Prelude.{◌⊎◌, ◌≤◌, inl, inr, ap, sym, ◌∙◌}
use trino_core.Group.Convergence.{
  Incoming, IsAmong, first, later, IsGenuine, settle, AreConsistent, members_converge,
}
use trino_core.Group.Permitted.{IsMade, permitted_change_succeeds}
use trino_core.Group.Changes.{rename, add, sign_unsigned_ok, apply, member_after, change_accepted}
use trino_core.Group.Incoming.{IsOffered, Continues, evaluate_incoming_roster_lem}
use trino_core.Group.Honest.{sign_unsigned_total, member_is_bound-public, create_group_total}
use trino_core.Tests.Toy.Codec.{encode, digit}
use trino_core.Tests.Toy.{toy, toy_curve, toy_hex, toy_signature, stretch, weigh, point, seed}
use trino_core.Tests.Runs.{rng}
use mathlib.Core.List.Perm
use trino_core.Group.Roster.{roster_signing_bytes}
use trino_core.Group.Roster.Order.{roster_signing_bytes-Perm}
use trino_core.Tests.Toy.Printer.{wire, wire_injective}
use trino_core.Tests.IdentityRuns.{bob, curve_pair, bob-IsWellFormed}

-- A printer of JSON values.
unfoldable mutual
  printed : Json → Bytes
  printed null = 0 ∷ []
  printed (text t) = 1 ∷ t
  printed (number n) = 2 ∷ n ∷ []
  printed (array vs) = 3 ∷ printed_items vs

  printed_items : JsonItems → Bytes
  printed_items nil = []
  printed_items (cons v vs) = printed v ++ printed_items vs

abbrev member_of : Identity → MemberBundle
member_of i = from_public_bundle (codes "handle") (public_bundle_for toy i)

abbrev held : GroupRoster
held = record {
  group_id = codes "group";
  name = codes "name";
  photo = none;
  admin_pub = to_hex toy bob.ik_sign.pub_bytes;
  members = member_of bob ∷ [];
  epoch = 3;
  signature = [];
}

-- Bob gives the group another name.
abbrev renamed : GroupRoster
renamed =
    signed_roster toy printed held.group_id (codes "new") held.photo held.admin_pub held.members
      (next_epoch held.epoch) bob

bob_keys : Distinct (member_keys (member_of bob ∷ []))
unfolding from_public_bundle public_bundle_for contains bytes_eq encode digit stretch weigh point
    seed
bob_keys = (refl, (refl, (refl, tt)))

bob_named : has_key (to_hex toy bob.ik_sign.pub_bytes) held.members ≡ true
unfolding has_key from_public_bundle public_bundle_for
bob_named = rw (bytes_eq_refl (to_hex toy bob.ik_sign.pub_bytes))

bob_renames : apply toy printed (rename (codes "new")) held bob ≡ ok renamed
unfolding set_group_name assert_admin
bob_renames = rw (bytes_eq_refl (to_hex toy bob.ik_sign.pub_bytes)) (
    sign_unsigned_total toy toy_hex toy_signature printed bob refl held.group_id (codes "new")
      held.photo held.members (next_epoch held.epoch) (omega arith) (omega arith) bob_named bob_keys
      (member_is_bound-public toy toy_hex toy_signature (codes "handle") bob bob-IsWellFormed, tt))

change_accepted_example :
    (to_hex toy bob.ik_sign.pub_bytes ≡ held.admin_pub)
    × (accept_roster_update toy printed held renamed ≡ true)
    × ((k : Bytes) → is_member renamed k ≡ member_after (rename (codes "new")) k (is_member held k))
change_accepted_example =
    change_accepted toy printed (rename (codes "new")) held renamed bob bob_renames refl
      (omega arith)

validate_roster_iff_example :
    (validate_roster toy printed renamed ≡ ok tt) ↔ IsRoster toy printed renamed
validate_roster_iff_example = validate_roster_iff toy printed renamed

abbrev admin_key : Bytes
admin_key = held.admin_pub

abbrev my_key : Bytes
my_key = to_hex toy bob.ik_sign.pub_bytes

evaluate_incoming_roster_lem_example :
    ((current : GroupRoster)
      → ((evaluate_incoming_roster toy printed (some current) renamed admin_key my_key ≡ accept) ↔ (
          IsOffered toy printed renamed admin_key my_key
          × Continues toy printed renamed admin_key my_key current))
        × (evaluate_incoming_roster toy printed (some current) renamed admin_key my_key
            ≢ pending_invite))
    × ((evaluate_incoming_roster toy printed none renamed admin_key my_key ≡ pending_invite)
        ↔ IsOffered toy printed renamed admin_key my_key)
    × (evaluate_incoming_roster toy printed none renamed admin_key my_key ≢ accept)
evaluate_incoming_roster_lem_example =
    evaluate_incoming_roster_lem toy printed renamed admin_key my_key

create_group_total_example :
    (roster : GroupRoster) × (create_group toy printed bob (member_of bob) (codes "name") rng
      ≡ (ok roster, (random_array 32 rng).1))
    × (validate_roster toy printed roster ≡ ok tt)
    × (roster.members ≡ (member_of bob ∷ []))
    × (roster.epoch ≡ 0)
create_group_total_example =
    create_group_total toy toy_hex toy_signature printed bob (codes "handle") (codes "name") rng
      bob-IsWellFormed bob_keys

abbrev other : MemberBundle
other = record (member_of bob) { handle = codes "other" }

roster_signing_bytes-Perm_example :
    roster_signing_bytes wire
      (codes "group")
      (codes "name")
      none
      (codes "admin")
      (member_of bob ∷ other ∷ [])
      7
    ≡ roster_signing_bytes wire
        (codes "group")
        (codes "name")
        none
        (codes "admin")
        (other ∷ member_of bob ∷ [])
        7
roster_signing_bytes-Perm_example =
    roster_signing_bytes-Perm wire wire_injective (codes "group") (codes "name") none
      (codes "admin") (member_of bob ∷ other ∷ []) (other ∷ member_of bob ∷ []) 7
      (Perm.swap other (member_of bob) [])

-- Somebody else, who is to join.
abbrev carol_pair : KeyPair
carol_pair = record { priv_bytes = stretch 32 9; pub_bytes = toy.ed25519_public (stretch 32 9) }

abbrev carol : Identity
carol = record bob {
  ik_sign = carol_pair;
  ik_dh = curve_pair 22;
  nostr = curve_pair 23;
  signed_prekey = record {
    id = 1;
    keypair = curve_pair 24;
    signature = ed25519_sign toy carol_pair (curve_pair 24).pub_bytes;
    created_at = pos 0;
  };
}

carol-IsWellFormed : IsWellFormed toy carol
carol-IsWellFormed = record {
  sign = refl;
  dh = refl;
  dh_array = (toy_curve.public-AreBytes _, toy_curve.length-public _);
  nostr_array = (toy_curve.public-AreBytes _, toy_curve.length-public _);
  prekey = record {
    array = (toy_curve.public-AreBytes _, toy_curve.length-public _);
    curve = refl;
    signed = refl;
  };
}

both_keys : Distinct (member_keys (member_of bob ∷ member_of carol ∷ []))
unfolding from_public_bundle public_bundle_for contains bytes_eq encode digit stretch weigh point
    seed
both_keys = (refl, (refl, (refl, (refl, (refl, (refl, tt))))))

carol_new : is_member renamed (member_of carol).ik_sign_pub ≡ false
unfolding is_member has_key from_public_bundle public_bundle_for bytes_eq encode digit stretch weigh
    point seed
carol_new = refl

renamed_valid : validate_roster toy printed renamed ≡ ok tt
renamed_valid =
    (sign_unsigned_ok toy printed held.group_id (codes "new") held.photo held.admin_pub held.members
      (next_epoch held.epoch) bob renamed
      (sign_unsigned_total toy toy_hex toy_signature printed bob refl held.group_id (codes "new")
        held.photo held.members (next_epoch held.epoch) (omega arith) (omega arith) bob_named
        bob_keys
        (
          member_is_bound-public toy toy_hex toy_signature (codes "handle") bob bob-IsWellFormed,
          tt,
        ))).1

permitted_change_succeeds_example :
    (r : GroupRoster) × (apply toy printed (add (member_of carol)) renamed bob ≡ ok r)
    × IsMade (add (member_of carol)) renamed r
    × ((k : Bytes) → is_member r k ≡ member_after (add (member_of carol)) k (is_member renamed k))
    × ((k : Bytes)
        → evaluate_incoming_roster toy printed (some renamed) r renamed.admin_pub k
          ≡ (if is_member r k then accept else reject not_a_member))
permitted_change_succeeds_example =
    permitted_change_succeeds toy printed toy_hex toy_signature bob refl (add (member_of carol))
      renamed renamed_valid refl
      (
        carol_new,
        omega arith,
        member_is_bound-public toy toy_hex toy_signature (codes "handle") carol carol-IsWellFormed,
        both_keys,
      )
      (omega arith)

-- Bob renames his group twice, and the two rosters arrive in either order, one of them twice.
abbrev renamed_again : GroupRoster
renamed_again =
    signed_roster toy printed held.group_id (codes "newer") held.photo held.admin_pub held.members 5
      bob

abbrev one : Incoming
one = record { roster = renamed; sender = admin_key }

abbrev two : Incoming
two = record { roster = renamed_again; sender = admin_key }

among_two : {x : Incoming} (a b : Incoming) → IsAmong x (a ∷ b ∷ []) → (x ≡ a) ⊎ (x ≡ b)
among_two a b first = inl refl
among_two a b (later _ first) = inr refl
among_two a b (later _ (later _ i)) = elim i [ ]

among_three : {x : Incoming} (a b : Incoming) → IsAmong x (b ∷ a ∷ b ∷ []) → IsAmong x (a ∷ b ∷ [])
among_three a b first = later a first
among_three a b (later _ first) = first
among_three a b (later _ (later _ first)) = later a first
among_three a b (later _ (later _ (later _ i))) = elim i [ ]

among_again : {x : Incoming} (a b : Incoming) → IsAmong x (a ∷ b ∷ []) → IsAmong x (b ∷ a ∷ b ∷ [])
among_again a b i = later b i

one_and_two : AreConsistent toy printed my_key (one ∷ two ∷ [])
one_and_two x y i j gx gy g a e = elim (among_two one two i) [
  | inl x1 ↦ elim (among_two one two j) [
    | inl y1 ↦ ap (λ z. z.roster) (x1 ∙ sym y1)
    | inr y2 ↦ absurd (omega (arith, e, ap (λ z. z.roster.epoch) x1, ap (λ z. z.roster.epoch) y2))
  ]
  | inr x2 ↦ elim (among_two one two j) [
    | inl y1 ↦ absurd (omega (arith, e, ap (λ z. z.roster.epoch) x2, ap (λ z. z.roster.epoch) y1))
    | inr y2 ↦ ap (λ z. z.roster) (x2 ∙ sym y2)
  ]
]

members_converge_example :
    (settle toy printed my_key held (one ∷ two ∷ [])
      ≡ settle toy printed my_key held (two ∷ one ∷ two ∷ []))
    × ((x : Incoming)
        → IsAmong x (one ∷ two ∷ [])
        → IsGenuine toy printed my_key x
        → x.roster.group_id ≡ held.group_id
        → x.roster.admin_pub ≡ held.admin_pub
        → x.roster.epoch ≤ (settle toy printed my_key held (one ∷ two ∷ [])).epoch)
members_converge_example =
    members_converge toy printed my_key held (one ∷ two ∷ []) (two ∷ one ∷ two ∷ [])
      (λ x i. among_again one two i) (λ y i. among_three one two i) one_and_two
