-- ===== src/Prelude/Steps.antt =====
-- Sequencing of code that changes a state and may fail: the `?` of a Rust function on `&mut S`.
use trino_core.Prelude.Outcome.{Result, ok, err, Action}

-- What follows a call, by how the call ended.
abbrev pub next : {S E A B : Type 0} → Result E A × S → (A → Action S E B) → Result E B × S
next (ok a, s) f = f a s
next (err e, s) f = (err e, s)

infixl 5 ◌>>=◌ ◌>>◌
abbrev pub ◌>>=◌ : {S E A B : Type 0} → Action S E A → (A → Action S E B) → Action S E B
◌>>=◌ m f s = next (m s) f

abbrev pub ◌>>◌ : {S E B : Type 0} → Action S E (Unit {0}) → Action S E B → Action S E B
m >> k = m >>= λ _. k

module _ {S E : Type 0} where
  abbrev pub pure : {A : Type 0} → A → Action S E A
  pure a s = (ok a, s)

  abbrev pub fail : {A : Type 0} → E → Action S E A
  fail e s = (err e, s)

  abbrev pub lift : {A : Type 0} → Result E A → Action S E A
  lift r s = (r, s)

  abbrev pub gets : {A : Type 0} → (S → A) → Action S E A
  gets f s = (ok (f s), s)

  abbrev pub modify : (S → S) → Action S E (Unit {0})
  modify f s = (ok tt, f s)

-- A call that reads and writes one part of the state, beside a source of random bytes.
abbrev pub on_first : {S R E A : Type 0} → Action S E A → Action (S × R) E A
on_first m (s, r) = let (a, s') = m s in (a, (s', r))

abbrev pub on_second : {S R E A : Type 0} → Action R E A → Action (S × R) E A
on_second m (s, r) = let (a, r') = m r in (a, (s, r'))

-- A call that only draws random bytes, and cannot fail.
abbrev pub draw : {S R E A : Type 0} → (R → A × R) → Action (S × R) E A
draw m (s, r) = let (a, r') = m r in (ok a, (s, r'))
