-- ===== src/Marker/Correct.antt =====
-- The colours at the end of `mark` (src/marker.rs).
use samsara.Prelude.{
  ℕ, ◌≤◌, ◌≡◌, ◌≢◌, ◌↔◌, ◌⊎◌, none, some, List, [], ◌∷◌, length, contains_iff, lookup,
  lookup-insert, ◌∈◌, arith, subst,
}
use samsara.Marker.{Color, white, grey, black, ObjectGraph, Marking, all_white, start, mark}
use samsara.Marker.Loop.{
  Reach, root, edge, IsWithin, Reach-within, Inv, Inv-start, Inv-drain, balance-start,
}

lookup-all_white :
    {Obj : Type 0} (eq : Discrete Obj) (ids : List Obj) (v : Obj)
    → ((v ∈ ids) × (lookup eq v (all_white eq ids) ≡ some white))
      ⊎ (¬ (v ∈ ids) × (lookup eq v (all_white eq ids) ≡ none))
lookup-all_white eq [] v = ground arith
lookup-all_white eq (id ∷ ids) v =
    ground
      (arith, lookup-insert eq id v white (all_white eq ids), lookup-all_white eq ids v, eq v id)

-- What a marking says of each object.
pub record IsColoring {Obj : Type 0} (eq : Discrete Obj) (g : ObjectGraph Obj)
    (color : List (Obj × Color)) : Type 0 where
  pub black_iff : (v : Obj) → (lookup eq v color ≡ some black) ↔ Reach g v
  pub white_iff : (v : Obj) → (lookup eq v color ≡ some white) ↔ ((v ∈ g.all_ids) × ¬ Reach g v)
  pub no_grey : (v : Obj) → lookup eq v color ≢ some grey
  pub tri_color :
      (u v : Obj)
      → lookup eq u color ≡ some black
      → v ∈ g.refs_of u
      → lookup eq v color ≢ some white

module _ {Obj : Type 0} (eq : Discrete Obj) (g : ObjectGraph Obj) where
  module _ {t : Marking Obj} (inv : Inv eq g t) (empty : t.grey_queue ≡ []) where
    not_queued : (v : Obj) → ¬ (v ∈ t.grey_queue)
    not_queued v q = subst (λ l. v ∈ l) empty q

    black_of_seen : (v : Obj) → v ∈ t.seen → lookup eq v t.color ≡ some black
    black_of_seen v s = ground (arith, inv.found v s, not_queued v)

    -- An unseen object has the colour that it started with.
    white_of_unseen :
        (v : Obj)
        → ¬ (v ∈ t.seen)
        → (v ∈ g.all_ids) × (lookup eq v t.color ≡ some white)
          ⊎ ¬ (v ∈ g.all_ids) × (lookup eq v t.color ≡ none)
    white_of_unseen v s = ground (arith, inv.unseen v s, lookup-all_white eq g.all_ids v)

    seen_cases : (v : Obj) → (v ∈ t.seen) ⊎ ¬ (v ∈ t.seen)
    seen_cases v = ground (arith, contains_iff eq t.seen v)

    closed : (u v : Obj) → u ∈ t.seen → v ∈ g.refs_of u → v ∈ t.seen
    closed u v s e = ground (arith, inv.closed u v s e, not_queued u)

    complete : (v : Obj) → Reach g v → v ∈ t.seen
    complete v (root r) = inv.roots v r
    complete v (edge {u} p e) = closed u v (complete u p) e

    -- The three ways that an object can stand at the end.
    settled :
        (v : Obj)
        → (v ∈ t.seen) × (lookup eq v t.color ≡ some black)
          ⊎ ¬ (v ∈ t.seen) × (v ∈ g.all_ids) × (lookup eq v t.color ≡ some white)
          ⊎ ¬ (v ∈ t.seen) × ¬ (v ∈ g.all_ids) × (lookup eq v t.color ≡ none)
    settled v = ground (arith, seen_cases v, black_of_seen v, white_of_unseen v)

    Inv-IsColoring : IsColoring eq g t.color
    Inv-IsColoring = record {
      black_iff = λ v. ground (arith, settled v, complete v, inv.sound v);
      white_iff = λ v. ground (arith, settled v, complete v, inv.sound v);
      no_grey = λ v. ground (arith, settled v);
      tri_color = λ u v b e. ground (arith, settled u, settled v, closed u v);
    }

  -- On a finite graph, with as much fuel as there are objects, marking ends. Then an object is black
  -- exactly if it is reachable, and white exactly if it is one of `all_ids` and not reachable; none
  -- is grey, and no black object refers to a white one.
  pub mark_correct :
      (ids : List Obj) (fuel : ℕ)
      → IsWithin g ids
      → length ids ≤ fuel
      → (color : List (Obj × Color)) × (mark eq g fuel ≡ some color) × IsColoring eq g color
  unfolding mark
  mark_correct ids fuel within enough =
      let (t, done, inv, empty) =
        Inv-drain eq g ids (Reach-within within) fuel (start eq g) (Inv-start eq g)
          (omega (arith, balance-start eq g)) in
      (t.color, done, Inv-IsColoring inv empty)
