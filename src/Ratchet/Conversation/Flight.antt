-- ===== src/Ratchet/Conversation/Flight.antt =====
-- The messages on their way: what holds of all of them, and of those that stay.
use trino_core.Prelude.{
  suc, ◌≡◌, ◌<◌, refl, sym, ap, ◌∙◌, Bytes, List, [], ◌∷◌, length, All, bytes_eq, bytes_eq_iff,
  arith, false, lookup,
}
use trino_core.Primitives.{Primitives, HexLaws}
use trino_core.Ratchet.State.{RatchetState, skipped_key_id}
use trino_core.Ratchet.State.Laws.{IsKey}
use trino_core.Ratchet.Session.Chain.{id_eq}
use trino_core.Ratchet.Conversation.{Sent, Takes, here, there}
use trino_core.Ratchet.Conversation.Frame.{skipped_key_id-differ}
use trino_core.Ratchet.Conversation.View.{IsOld, Differ}
use trino_core.Ratchet.Conversation.Lead.{AreApart, IsUnseen}

pub All-map :
    (P Q : Sent → Type 0) (es : List Sent) → ((x : Sent) → P x → Q x) → All P es → All Q es
All-map P Q [] f h = tt
All-map P Q (e ∷ es) f h = (f e h.0, All-map P Q es f h.1)

pub All-map-both :
    (P Q R : Sent → Type 0) (es : List Sent)
    → ((x : Sent) → P x → Q x → R x)
    → All P es
    → All Q es
    → All R es
All-map-both P Q R [] f h k = tt
All-map-both P Q R (e ∷ es) f h k = (f e h.0 k.0, All-map-both P Q R es f h.1 k.1)

pub Takes-length :
    {e : Sent} {es rest : List Sent} → Takes e es rest → length es ≡ suc (length rest)
Takes-length here = refl
Takes-length (there x t) = ap suc (Takes-length t)

pub Takes-All :
    (P : Sent → Type 0) {e : Sent} {es rest : List Sent}
    → Takes e es rest
    → All P es
    → P e × All P rest
Takes-All P here h = h
Takes-All P (there x t) h = let k = Takes-All P t h.1 in (k.0, (h.0, k.1))

module _ (p : Primitives) (ad : Bytes) where
  Differ-sym : (e x : Sent) → Differ p ad e x → Differ p ad x e
  Differ-sym e x h =
      let i = skipped_key_id p e.peer e.message.header.n in
      let j = skipped_key_id p x.peer x.message.header.n in
      ground (arith, bytes_eq_iff i j, bytes_eq_iff j i, h)

  pub Takes-AreApart :
      {e : Sent} {es rest : List Sent}
      → Takes e es rest
      → AreApart p ad es
      → All (Differ p ad e) rest × AreApart p ad rest
  Takes-AreApart here h = h
  Takes-AreApart {e} (there x t) h =
      let k = Takes-AreApart t h.1 in
      let differ = Takes-All (Differ p ad x) t h.0 in
      ((Differ-sym x e differ.0, k.0), (differ.1, k.1))

  -- On one chain the ids of different numbers differ.
  pub Differ-below :
      (hex : HexLaws p) (e x : Sent)
      → IsKey e.peer
      → e.peer ≡ x.peer
      → x.message.header.n < e.message.header.n
      → Differ p ad e x
  Differ-below hex e x dk same below =
      rw (sym same) (id_eq p hex e.peer dk e.message.header.n x.message.header.n ∙ ground arith)

  -- A message under a key that was never had differs from those whose key is banked.
  pub Differ-old :
      (hex : HexLaws p) (peer : Bytes) (t : RatchetState) (e x : Sent)
      → IsKey e.peer
      → IsUnseen p e.peer t
      → IsOld p ad peer t x
      → Differ p ad e x
  Differ-old hex peer t e x dk new o =
      let differ : bytes_eq e.peer x.peer ≡ false = ground (
        arith,
        bytes_eq_iff e.peer x.peer,
        new.unbanked x.message.header.n,
        o.banked,
        λ (q : e.peer ≡ x.peer).
            ap (λ k. lookup (skipped_key_id p k x.message.header.n) t.skipped_keys) q,
      ) in
      skipped_key_id-differ p hex e.peer x.peer e.message.header.n x.message.header.n dk o.sender
        differ
