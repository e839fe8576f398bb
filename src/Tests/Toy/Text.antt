-- ===== src/Tests/Toy/Text.antt =====
-- A text for JSON values, and a parser that gives them back: the parts come before what they are
-- part of, and the parser keeps those that it has read on a stack.
use trino_core.Prelude.{
  ℕ, ◌+◌, ◌-◌, ◌*◌, ◌/◌, ◌%◌, ◌≡◌, ◌∙◌, refl, if◌then◌else◌, ◌==◌, Option, none, some, List, [],
  ◌∷◌, Bytes, arith,
}
use trino_core.Serde.{
  Value, Values, Fields, null, other, string, number, array, object, nil, cons, end, field,
}

data Item : Type 0 where
  value : Value → Item
  values : Values → Item
  fields : Fields → Item

spell : Bytes → Bytes → Bytes
spell [] rest = 1 ∷ rest
spell (c ∷ cs) rest = spell cs ((2 * c + 16) ∷ rest)

mutual
  unfolding spell

  onto : Value → Bytes → Bytes
  onto null rest = 0 ∷ rest
  onto (other t) rest = spell t (8 ∷ rest)
  onto (string t) rest = spell t rest
  onto (number n) rest = (2 * n + 17) ∷ rest
  onto (array vs) rest = values_onto vs (5 ∷ rest)
  onto (object fs) rest = fields_onto fs (7 ∷ rest)

  values_onto : Values → Bytes → Bytes
  values_onto nil rest = 2 ∷ rest
  values_onto (cons v vs) rest = values_onto vs (onto v (4 ∷ rest))

  fields_onto : Fields → Bytes → Bytes
  fields_onto end rest = 3 ∷ rest
  fields_onto (field k v fs) rest = fields_onto fs (spell k (onto v (6 ∷ rest)))

abbrev Step : Type 0
Step = List Item → Option (List Item)

abbrev push_char : ℕ → Step
push_char c (value (string s) ∷ st) = some (value (string (c ∷ s)) ∷ st)
push_char c st = none

abbrev push_other : Step
push_other (value (string s) ∷ st) = some (value (other s) ∷ st)
push_other st = none

abbrev push_cons : Step
push_cons (value v ∷ values vs ∷ st) = some (values (cons v vs) ∷ st)
push_cons st = none

abbrev push_array : Step
push_array (values vs ∷ st) = some (value (array vs) ∷ st)
push_array st = none

abbrev push_field : Step
push_field (value v ∷ value (string k) ∷ fields fs ∷ st) = some (fields (field k v fs) ∷ st)
push_field st = none

abbrev push_object : Step
push_object (fields fs ∷ st) = some (value (object fs) ∷ st)
push_object st = none

step : ℕ → Step
step t st =
    if t == 0
    then some (value null ∷ st)
    else if t == 1
    then some (value (string []) ∷ st)
    else if t == 2
    then some (values nil ∷ st)
    else if t == 3
    then some (fields end ∷ st)
    else if t == 4
    then push_cons st
    else if t == 5
    then push_array st
    else if t == 6
    then push_field st
    else if t == 7
    then push_object st
    else if t == 8
    then push_other st
    else if t % 2 == 0
    then push_char ((t - 16) / 2) st
    else some (value (number ((t - 17) / 2)) ∷ st)

abbrev run : Bytes → Step
run [] st = some st
run (t ∷ ts) st = elim (step t st) [ none ↦ none | some st' ↦ run ts st' ]

abbrev whole : Option (List Item) → Option Value
whole (some (value v ∷ [])) = some v
whole st = none

pub parse : Bytes → Option Value
parse b = whole (run b [])

pub print : Value → Bytes
unfolding onto
print v = onto v []

step_char :
    (c : ℕ) (s : Bytes) (st : List Item)
    → step (2 * c + 16) (value (string s) ∷ st) ≡ some (value (string (c ∷ s)) ∷ st)
unfolding step
step_char c s st = ground arith

step_number : (n : ℕ) (st : List Item) → step (2 * n + 17) st ≡ some (value (number n) ∷ st)
unfolding step
step_number n st = ground arith

run-spell :
    (t rest : Bytes) (st : List Item) → run (spell t rest) st ≡ run rest (value (string t) ∷ st)
unfolding spell step
run-spell [] rest st = refl
run-spell (c ∷ cs) rest st =
    run-spell cs ((2 * c + 16) ∷ rest) st ∙ rw (step_char c cs st, run) refl

mutual
  unfolding onto values_onto fields_onto step

  run-onto :
      (v : Value) (rest : Bytes) (st : List Item) → run (onto v rest) st ≡ run rest (value v ∷ st)
  run-onto null rest st = refl
  run-onto (other t) rest st = run-spell t (8 ∷ rest) st
  run-onto (string t) rest st = run-spell t rest st
  run-onto (number n) rest st = rw (step_number n st, run) refl
  run-onto (array vs) rest st = run-values_onto vs (5 ∷ rest) st
  run-onto (object fs) rest st = run-fields_onto fs (7 ∷ rest) st

  run-values_onto :
      (vs : Values) (rest : Bytes) (st : List Item)
      → run (values_onto vs rest) st ≡ run rest (values vs ∷ st)
  run-values_onto nil rest st = refl
  run-values_onto (cons v vs) rest st =
      run-values_onto vs (onto v (4 ∷ rest)) st ∙ run-onto v (4 ∷ rest) (values vs ∷ st)

  run-fields_onto :
      (fs : Fields) (rest : Bytes) (st : List Item)
      → run (fields_onto fs rest) st ≡ run rest (fields fs ∷ st)
  run-fields_onto end rest st = refl
  run-fields_onto (field k v fs) rest st =
      run-fields_onto fs (spell k (onto v (6 ∷ rest))) st
      ∙ run-spell k (onto v (6 ∷ rest)) (fields fs ∷ st)
      ∙ run-onto v (6 ∷ rest) (value (string k) ∷ fields fs ∷ st)

pub parse-print : (v : Value) → parse (print v) ≡ some v
unfolding parse print
parse-print v = rw (run-onto v [] []) refl
