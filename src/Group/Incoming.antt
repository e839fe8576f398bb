-- ===== src/Group/Incoming.antt =====
-- What a member does with a roster that arrives.
use trino_core.Prelude.{
  ◌⊎◌, ◌<◌, ◌≡◌, ◌≢◌, ◌↔◌, Option, some, none, ok, true, Bytes, bytes_eq_iff, bytes_eq_refl, arith,
  Result-cases, inl, inr,
}
use trino_core.Primitives.{Primitives}
use trino_core.Group.Roster.{JsonPrinter, GroupRoster, is_member, validate_roster}
use trino_core.Group.{accept, pending_invite, check_update_rules, evaluate_incoming_roster}

module _ (p : Primitives) (print : JsonPrinter) (incoming : GroupRoster) (sender me : Bytes) where
  -- The admin itself sent a valid roster that names us.
  pub record IsOffered : Type 0 where
    pub from_admin : sender ≡ incoming.admin_pub
    pub validated : validate_roster p print incoming ≡ ok tt
    pub names_us : is_member incoming me ≡ true

  -- It continues the roster that we hold.
  pub record Continues (current : GroupRoster) : Type 0 where
    pub group : incoming.group_id ≡ current.group_id
    pub admin : incoming.admin_pub ≡ current.admin_pub
    pub newer : current.epoch < incoming.epoch

  offered :
      (current : Option GroupRoster)
      → (evaluate_incoming_roster p print current incoming sender me ≡ accept)
        ⊎ (evaluate_incoming_roster p print current incoming sender me ≡ pending_invite)
      → IsOffered
  unfolding evaluate_incoming_roster
  offered current h = record {
    from_admin = ground (arith, bytes_eq_iff sender incoming.admin_pub);
    validated = elim (Result-cases (validate_roster p print incoming)) [
      | inl (u, valid) ↦ valid
      | inr (e, failed) ↦ absurd (ground arith)
    ];
    names_us = ground arith;
  }

  continues :
      (current : GroupRoster)
      → evaluate_incoming_roster p print (some current) incoming sender me ≡ accept
      → Continues current
  unfolding evaluate_incoming_roster check_update_rules
  continues current h = record {
    group = ground (arith, bytes_eq_iff incoming.group_id current.group_id);
    admin = ground (arith, bytes_eq_iff incoming.admin_pub current.admin_pub);
    newer = ground arith;
  }

  accepts :
      (current : GroupRoster)
      → IsOffered
      → Continues current
      → evaluate_incoming_roster p print (some current) incoming sender me ≡ accept
  unfolding evaluate_incoming_roster check_update_rules
  accepts current o c = ground (
    arith,
    o.from_admin,
    o.validated,
    o.names_us,
    c.group,
    c.admin,
    c.newer,
    bytes_eq_refl current.group_id,
    bytes_eq_refl current.admin_pub,
    bytes_eq_refl incoming.admin_pub,
  )

  invites : IsOffered → evaluate_incoming_roster p print none incoming sender me ≡ pending_invite
  unfolding evaluate_incoming_roster
  invites o =
      ground (arith, o.from_admin, o.validated, o.names_us, bytes_eq_refl incoming.admin_pub)

  not_accepted : evaluate_incoming_roster p print none incoming sender me ≢ accept
  unfolding evaluate_incoming_roster
  not_accepted h = ground arith

  not_invited :
      (current : GroupRoster)
      → evaluate_incoming_roster p print (some current) incoming sender me ≢ pending_invite
  unfolding evaluate_incoming_roster check_update_rules
  not_invited current h = ground arith

  -- A roster of a group that we hold is accepted exactly when its admin sent it, it is valid and
  -- names us, and it has the same group and admin and a newer epoch; and it is never an
  -- invitation. A roster of a group that we do not hold is never accepted, and is an invitation
  -- exactly when its admin sent it, it is valid and names us.
  pub evaluate_incoming_roster_lem :
      ((current : GroupRoster)
        → ((evaluate_incoming_roster p print (some current) incoming sender me ≡ accept)
            ↔ (IsOffered × Continues current))
          × (evaluate_incoming_roster p print (some current) incoming sender me ≢ pending_invite))
      × ((evaluate_incoming_roster p print none incoming sender me ≡ pending_invite) ↔ IsOffered)
      × (evaluate_incoming_roster p print none incoming sender me ≢ accept)
  evaluate_incoming_roster_lem = (
    λ current. (
      (λ h. (offered (some current) (inl h), continues current h), λ x. accepts current x.0 x.1),
      not_invited current,
    ),
    (λ h. offered none (inr h), invites),
    not_accepted,
  )
