-- ===== src/Tests/Toy/Printer.antt =====
-- A printer of JSON values that different values never share.
use trino_core.Prelude.{◌≡◌, refl, ap, [], ◌∷◌, ◌++◌, Bytes, length, arith}
use trino_core.Group.Roster.{Json, JsonItems, null, text, number, array, nil, cons}

mutual
  onto : Json → Bytes → Bytes
  onto null rest = 0 ∷ rest
  onto (text t) rest = 1 ∷ length t ∷ (t ++ rest)
  onto (number n) rest = 2 ∷ n ∷ rest
  onto (array vs) rest = 3 ∷ items_onto vs rest

  items_onto : JsonItems → Bytes → Bytes
  items_onto nil rest = 4 ∷ rest
  items_onto (cons v vs) rest = 5 ∷ onto v (items_onto vs rest)

pub wire : Json → Bytes
unfolding onto
wire v = onto v []

append_parts : (s t a b : Bytes) → length s ≡ length t → s ++ a ≡ t ++ b → (s ≡ t) × (a ≡ b)
append_parts [] [] a b len e = (refl, e)
append_parts [] (y ∷ t) a b len e = absurd (omega arith)
append_parts (x ∷ s) [] a b len e = absurd (omega arith)
append_parts (x ∷ s) (y ∷ t) a b len e =
    let (same, rest) = append_parts s t a b (omega arith) (ground arith) in
    ground (arith, same, rest)

mutual
  unfolding onto items_onto

  onto_parts : (v w : Json) (a b : Bytes) → onto v a ≡ onto w b → (v ≡ w) × (a ≡ b)
  onto_parts null null a b e = ground arith
  onto_parts null (text t) a b e = absurd (ground arith)
  onto_parts null (number n) a b e = absurd (ground arith)
  onto_parts null (array vs) a b e = absurd (ground arith)
  onto_parts (text s) null a b e = absurd (ground arith)
  onto_parts (text s) (text t) a b e =
      let (same, rest) = append_parts s t a b (ground arith) (ground arith) in (ap text same, rest)
  onto_parts (text s) (number n) a b e = absurd (ground arith)
  onto_parts (text s) (array vs) a b e = absurd (ground arith)
  onto_parts (number n) null a b e = absurd (ground arith)
  onto_parts (number n) (text t) a b e = absurd (ground arith)
  onto_parts (number n) (number m) a b e = ground arith
  onto_parts (number n) (array vs) a b e = absurd (ground arith)
  onto_parts (array vs) null a b e = absurd (ground arith)
  onto_parts (array vs) (text t) a b e = absurd (ground arith)
  onto_parts (array vs) (number n) a b e = absurd (ground arith)
  onto_parts (array vs) (array ws) a b e =
      let (same, rest) = items_onto_parts vs ws a b (ground arith) in (ap array same, rest)

  items_onto_parts :
      (vs ws : JsonItems) (a b : Bytes) → items_onto vs a ≡ items_onto ws b → (vs ≡ ws) × (a ≡ b)
  items_onto_parts nil nil a b e = ground arith
  items_onto_parts nil (cons w ws) a b e = absurd (ground arith)
  items_onto_parts (cons v vs) nil a b e = absurd (ground arith)
  items_onto_parts (cons v vs) (cons w ws) a b e =
      let (same, rest) = onto_parts v w (items_onto vs a) (items_onto ws b) (ground arith) in
      let (others, end) = items_onto_parts vs ws a b rest in (cc (same, others), end)

pub wire_injective : (v w : Json) → wire v ≡ wire w → v ≡ w
unfolding wire
wire_injective v w e = (onto_parts v w [] [] e).0
