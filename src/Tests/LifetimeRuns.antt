-- ===== src/Tests/LifetimeRuns.antt =====
-- An identity of src/identity.rs that is created and rotated.
use trino_core.Prelude.{◌≤◌, ◌≡◌, refl, some, none, All, AreBytes, arith, length}
use mathlib.Core.Path.{subst}
use trino_core.Prelude.Int.{pos, pos_part}
use trino_core.Primitives.{Rng, XOnlyLaws}
use trino_core.Identity.Keys.{generate_nostr_keypair}
use trino_core.Identity.Prekeys.{Identity, create_identity, rotate_signed_prekey_if_due}
use trino_core.Identity.Prekeys.Rotation.{IsOrdered, AreLinked}
use trino_core.Identity.Bundle.Laws.{IsWellFormed}
use trino_core.Identity.Creation.{create_identity_total}
use trino_core.Identity.Lifetime.{Lives, created, rotated, Lives-IsWellFormed}
use trino_core.Tests.Toy.{toy, toy_curve, stretch, weigh, stretch-AreBytes, length-stretch}
use trino_core.Tests.Runs.{rng}
use trino_core.Tests.IdentityRuns.{bob}

toy_x_only : XOnlyLaws toy
toy_x_only = record {
  length-x_only = λ b x h. ground (arith, length-stretch 32 (weigh b));
  x_only-AreBytes = λ b x h.
      let e : stretch 32 (weigh b) ≡ x = ground arith in
      subst AreBytes e (stretch-AreBytes 32 (weigh b));
}

create_identity_total_example :
    (identity : Identity) × (r' : Rng) × (create_identity toy 3 (pos 0) rng ≡ (some identity, r'))
    × IsWellFormed toy identity
    × IsOrdered identity
    × (length identity.one_time_prekeys ≡ 50)
create_identity_total_example =
    create_identity_total toy toy_curve toy_x_only 0 3 (pos 0) rng _ (refl, omega arith) refl
      (omega arith)

-- What is created, and three days later.
abbrev made : Identity
made = elim (create_identity toy 3 (pos 0) rng).0 [ none ↦ bob | some identity ↦ identity ]

abbrev later : Identity
later = (rotate_signed_prekey_if_due toy made (pos 259200) rng).0.0

later-Lives : Lives toy 1 (pos 259200) later
unfolding create_identity generate_nostr_keypair
later-Lives =
    rotated 0 (pos 0) (pos 259200) rng made (refl, omega arith) (omega arith)
      (created 3 (pos 0) rng made (refl, omega arith) refl)

Lives-IsWellFormed_example :
    IsWellFormed toy later
    × IsOrdered later
    × AreLinked later.retired_signed_prekeys later.signed_prekey
    × All (λ x. pos_part x.retired_at ≤ 259200) later.retired_signed_prekeys
Lives-IsWellFormed_example =
    Lives-IsWellFormed toy toy_curve toy_x_only 1 (pos 259200) later (omega arith) later-Lives
