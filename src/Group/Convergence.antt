-- ===== src/Group/Convergence.antt =====
-- Rosters that arrive in any order, at a member that follows the decisions of src/group.rs.
use trino_core.Prelude.{
  ◌⊎◌, ◌<◌, ◌≤◌, ◌≡◌, refl, sym, ap, ◌∙◌, some, Bool, true, false, if◌then◌else◌, Bytes, List, [],
  ◌∷◌, arith, Bool-cases, inl, inr, ltb,
}
use mathlib.Core.Path.{subst}
use trino_core.Primitives.{Primitives}
use trino_core.Group.Roster.{JsonPrinter, GroupRoster}
use trino_core.Group.{RosterDecision, accept, pending_invite, reject, evaluate_incoming_roster}
use trino_core.Group.Incoming.{IsOffered, evaluate_incoming_roster_lem}

-- A roster that arrives, and the key of the contact that sent it.
pub record Incoming : Type 0 where
  pub roster : GroupRoster
  pub sender : Bytes

pub data IsAmong (x : Incoming) : List Incoming → Type 0 where
  first : {xs : List Incoming} → IsAmong x (x ∷ xs)
  later : (y : Incoming) {xs : List Incoming} → IsAmong x xs → IsAmong x (y ∷ xs)

abbrev is_accept : RosterDecision → Bool
is_accept accept = true
is_accept pending_invite = false
is_accept (reject why) = false

is_accept-accept : (d : RosterDecision) → is_accept d ≡ true → d ≡ accept
is_accept-accept accept h = refl
is_accept-accept pending_invite h = absurd (ground arith)
is_accept-accept (reject why) h = absurd (ground arith)

nowhere : {x : Incoming} → IsAmong x [] → ⊥
nowhere i = elim i [ ]

-- Whatever holds of the first one and of those among the others.
newest_of {ℓ} :
    {P : Type ℓ} (x : Incoming) (xs : List Incoming) (y : Incoming)
    → IsAmong y (x ∷ xs)
    → (y ≡ x → P)
    → (IsAmong y xs → P)
    → P
newest_of x xs y first f g = f refl
newest_of x xs y (later _ among) f g = g among

module _ (p : Primitives) (print : JsonPrinter) (me : Bytes) where
  abbrev pub IsGenuine : Incoming → Type 0
  IsGenuine x = IsOffered p print x.roster x.sender me

  -- The member keeps the roster that it accepts.
  unfoldable pub keep : GroupRoster → Incoming → GroupRoster
  keep held x =
      if is_accept (evaluate_incoming_roster p print (some held) x.roster x.sender me)
      then x.roster
      else held

  unfoldable pub settle : GroupRoster → List Incoming → GroupRoster
  unfolding keep
  settle held [] = held
  settle held (x ∷ xs) = settle (keep held x) xs

  -- Of genuine rosters for one group by one admin, each epoch has one.
  abbrev pub AreConsistent : List Incoming → Type 0
  AreConsistent xs =
      (x y : Incoming)
      → IsAmong x xs
      → IsAmong y xs
      → IsGenuine x
      → IsGenuine y
      → x.roster.group_id ≡ y.roster.group_id
      → x.roster.admin_pub ≡ y.roster.admin_pub
      → x.roster.epoch ≡ y.roster.epoch
      → x.roster ≡ y.roster

  -- Where a roster that is held comes from.
  abbrev ComesFrom : GroupRoster → List Incoming → GroupRoster → Type 0
  ComesFrom held xs r =
      (r ≡ held)
      ⊎ ((x : Incoming) × IsAmong x xs × IsGenuine x × (x.roster ≡ r) × (held.epoch < r.epoch))

  -- The newest of what was held and what is genuine.
  record IsNewest (held : GroupRoster) (xs : List Incoming) (r : GroupRoster) : Type 0 where
    group : r.group_id ≡ held.group_id
    admin : r.admin_pub ≡ held.admin_pub
    not_older : held.epoch ≤ r.epoch
    source : ComesFrom held xs r
    newest :
        (x : Incoming)
        → IsAmong x xs
        → IsGenuine x
        → x.roster.group_id ≡ held.group_id
        → x.roster.admin_pub ≡ held.admin_pub
        → x.roster.epoch ≤ r.epoch

  -- The same for one roster.
  record IsKept (held : GroupRoster) (x : Incoming) (r : GroupRoster) : Type 0 where
    group : r.group_id ≡ held.group_id
    admin : r.admin_pub ≡ held.admin_pub
    not_older : held.epoch ≤ r.epoch
    source : (r ≡ held) ⊎ (IsGenuine x × (x.roster ≡ r) × (held.epoch < r.epoch))
    newest :
        IsGenuine x
        → x.roster.group_id ≡ held.group_id
        → x.roster.admin_pub ≡ held.admin_pub
        → x.roster.epoch ≤ r.epoch

  keep-IsKept : (held : GroupRoster) (x : Incoming) → IsKept held x (keep held x)
  unfolding keep
  keep-IsKept held x =
      let decision = evaluate_incoming_roster p print (some held) x.roster x.sender me in
      let (taken, given) = ((evaluate_incoming_roster_lem p print x.roster x.sender me).0 held).0 in
      elim (Bool-cases (is_accept decision)) [
        | inl accepted ↦
            let (genuine, c) = taken (is_accept-accept decision accepted) in
            rw accepted (record {
              group = c.group;
              admin = c.admin;
              not_older = omega (arith, c.newer);
              source = inr (genuine, refl, c.newer);
              newest = λ g a b. omega arith;
            })
        | inr refused ↦ rw refused (record {
          group = refl;
          admin = refl;
          not_older = omega arith;
          source = inl refl;
          newest = λ genuine same_group same_admin.
              elim (Bool-cases (ltb held.epoch x.roster.epoch)) [
                | inl above ↦
                    let newer : held.epoch < x.roster.epoch = ground arith in
                    let accepted =
                      given (
                        genuine,
                        record { group = same_group; admin = same_admin; newer = newer },
                      ) in
                    absurd (ground (arith, refused, ap is_accept accepted))
                | inr older ↦ ground arith
              ];
        })
      ]

  settle-IsNewest : (held : GroupRoster) (xs : List Incoming) → IsNewest held xs (settle held xs)
  unfolding settle
  settle-IsNewest held [] = record {
    group = refl;
    admin = refl;
    not_older = omega arith;
    source = inl refl;
    newest = λ x among. absurd (nowhere among);
  }
  settle-IsNewest held (x ∷ xs) =
      let k = keep-IsKept held x in
      let next = keep held x in
      let n = settle-IsNewest next xs in
      record {
        group = n.group ∙ k.group;
        admin = n.admin ∙ k.admin;
        not_older = omega (arith, n.not_older, k.not_older);
        source = elim n.source [
          | inl same ↦ elim k.source [
            | inl still ↦ inl (same ∙ still)
            | inr (genuine, it, newer) ↦
                inr (x, first, genuine, it ∙ sym same, omega (arith, newer, ap (λ r. r.epoch) same))
          ]
          | inr (y, among, genuine, it, newer) ↦
              inr (y, later x among, genuine, it, omega (arith, newer, k.not_older))
        ];
        newest = λ y among genuine g a.
            newest_of x xs y among
              (λ e. omega (
                arith,
                k.newest (subst IsGenuine e genuine) (ap (λ z. z.roster.group_id) (sym e) ∙ g)
                    (ap (λ z. z.roster.admin_pub) (sym e) ∙ a),
                n.not_older,
                ap (λ z. z.roster.epoch) e,
              ))
              (λ rest. n.newest y rest genuine (g ∙ sym k.group) (a ∙ sym k.admin));
      }

  same_settled :
      (held : GroupRoster) (xs ys : List Incoming)
      → ((x : Incoming) → IsAmong x xs → IsAmong x ys)
      → ((y : Incoming) → IsAmong y ys → IsAmong y xs)
      → AreConsistent xs
      → settle held xs ≡ settle held ys
  same_settled held xs ys there back one =
      let a = settle-IsNewest held xs in
      let b = settle-IsNewest held ys in
      elim a.source [
        | inl same ↦ elim b.source [
          | inl still ↦ same ∙ sym still
          | inr (y, among, genuine, it, newer) ↦
              let bound =
                a.newest y (back y among) genuine (ap (λ r. r.group_id) it ∙ b.group)
                  (ap (λ r. r.admin_pub) it ∙ b.admin) in
              absurd (omega (arith, bound, newer, ap (λ r. r.epoch) it, ap (λ r. r.epoch) same))
        ]
        | inr (x, among, genuine, it, newer) ↦
            let group = ap (λ r. r.group_id) it ∙ a.group in
            let admin = ap (λ r. r.admin_pub) it ∙ a.admin in
            let bound = b.newest x (there x among) genuine group admin in
            elim b.source [
              | inl still ↦
                  absurd
                    (omega (arith, bound, newer, ap (λ r. r.epoch) it, ap (λ r. r.epoch) still))
              | inr (y, among', genuine', it', newer') ↦
                  let group' = ap (λ r. r.group_id) it' ∙ b.group in
                  let admin' = ap (λ r. r.admin_pub) it' ∙ b.admin in
                  let bound' = a.newest y (back y among') genuine' group' admin' in
                  let epochs : x.roster.epoch ≡ y.roster.epoch =
                    omega (arith, bound, bound', ap (λ r. r.epoch) it, ap (λ r. r.epoch) it') in
                  sym it
                  ∙ one x y among (back y among') genuine genuine' (group ∙ sym group')
                      (admin ∙ sym admin') epochs
                  ∙ it'
            ]
      ]

  -- A member that holds a roster gets others, from anybody, and keeps each that it accepts. When
  -- the same rosters arrive in another order, or more often, it ends with the same roster, if no
  -- two genuine ones (sent by their admin, valid and naming the member) for one group by one
  -- admin have the same epoch without being the same; and of the genuine ones for its group by
  -- its admin none is newer than the roster it ends with.
  pub members_converge :
      (held : GroupRoster) (xs ys : List Incoming)
      → ((x : Incoming) → IsAmong x xs → IsAmong x ys)
      → ((y : Incoming) → IsAmong y ys → IsAmong y xs)
      → AreConsistent xs
      → (settle held xs ≡ settle held ys)
        × ((x : Incoming)
            → IsAmong x xs
            → IsGenuine x
            → x.roster.group_id ≡ held.group_id
            → x.roster.admin_pub ≡ held.admin_pub
            → x.roster.epoch ≤ (settle held xs).epoch)
  members_converge held xs ys there back one =
      (same_settled held xs ys there back one, (settle-IsNewest held xs).newest)
