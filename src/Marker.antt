-- ===== src/Marker.antt =====
-- The tri-color marker (src/marker.rs): `Color`, `ObjectGraph` and `mark`. A `HashMap` is an
-- association list, a `HashSet` a list of its items, a `VecDeque` a list with its front first. The
-- `while` loop takes fuel, and `none` means that the fuel ran out.
mod Examples
pub mod Invariant
pub mod Correct
pub mod Loop
use samsara.Prelude.{
  ℕ, zero, suc, Option, none, some, List, [], ◌∷◌, ◌++◌, map, length, contains, insert,
  if◌then◌else◌, true, false,
}

pub data Color : Type 0 where
  white grey black : Color

-- The trait, with `Obj` a type whose equality is decidable (`Copy + Eq + Hash`).
pub record ObjectGraph (Obj : Type 0) : Type 0 where
  pub roots : List Obj
  pub refs_of : Obj → List Obj
  pub all_ids : List Obj

-- The variables of `mark`.
pub record Marking (Obj : Type 0) : Type 0 where
  pub color : List (Obj × Color)
  pub grey_queue : List Obj
  pub seen : List Obj

module _ {Obj : Type 0} (eq : Discrete Obj) where
  -- The body of both `for` loops: an id that was not seen is coloured grey and queued.
  unfoldable pub discover : Marking Obj → Obj → Marking Obj
  discover m id = if contains eq m.seen id then m else record {
    color = insert eq id grey m.color;
    grey_queue = m.grey_queue ++ id ∷ [];
    seen = id ∷ m.seen;
  }

  unfoldable pub discover_all : Marking Obj → List Obj → Marking Obj
  discover_all m [] = m
  discover_all m (id ∷ ids) = discover_all (discover m id) ids

  -- One round of the `while` loop, after `id` left the front of the queue.
  unfoldable pub scan : ObjectGraph Obj → Marking Obj → Obj → List Obj → Marking Obj
  unfolding discover_all
  scan graph m id rest =
      let m' = discover_all (record m { grey_queue = rest }) (graph.refs_of id) in
      record m' { color = insert eq id black m'.color }

  unfoldable pub drain : ObjectGraph Obj → ℕ → Marking Obj → Option (List (Obj × Color))
  drain graph zero m = elim m.grey_queue [ [] ↦ some m.color | _ ∷ _ ↦ none ]
  drain graph (suc fuel) m = elim m.grey_queue [
    | [] ↦ some m.color
    | id ∷ rest ↦ drain graph fuel (scan graph m id rest)
  ]

  abbrev pub all_white : List Obj → List (Obj × Color)
  all_white [] = []
  all_white (id ∷ ids) = insert eq id white (all_white ids)

  unfoldable pub start : ObjectGraph Obj → Marking Obj
  unfolding discover_all
  start graph =
      discover_all (record { color = all_white graph.all_ids; grey_queue = []; seen = [] })
        graph.roots

  unfoldable pub mark : ObjectGraph Obj → ℕ → Option (List (Obj × Color))
  mark graph fuel = drain graph fuel (start graph)
