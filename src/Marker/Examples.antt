-- ===== src/Marker/Examples.antt =====
-- The unit tests of src/marker.rs as evaluations, and its theorem at a concrete graph.
use samsara.Prelude.{
  ℕ, ◌≡◌, refl, Bool, true, false, any, Option, none, some, List, [], ◌∷◌, map, ◌==◌, if◌then◌else◌,
  length, lookup, ℕ_discrete, arith, Bool,
}
use samsara.Marker.{
  Color, white, grey, black, ObjectGraph, discover, discover_all, scan, drain, start, mark,
}
use samsara.Marker.Loop.{IsWithin}
use samsara.Marker.Correct.{IsColoring, mark_correct}

-- struct G
abbrev g_refs : ℕ → List ℕ
g_refs id =
    if id == 0
    then 2 ∷ []
    else if id == 1
    then 3 ∷ []
    else if id == 2
    then 3 ∷ []
    else if id == 5
    then 6 ∷ []
    else []

abbrev g_ids : List ℕ
g_ids = 0 ∷ 1 ∷ 2 ∷ 3 ∷ 4 ∷ 5 ∷ 6 ∷ []

abbrev g : ObjectGraph ℕ
g = record { roots = 0 ∷ 1 ∷ []; refs_of = g_refs; all_ids = g_ids }

-- The colours of `ids` at the end, in their order.
colors : ObjectGraph ℕ → List ℕ → Option (List (Option Color))
unfolding mark start drain scan discover_all discover ℕ_discrete
colors graph ids = elim (mark ℕ_discrete graph (length graph.all_ids)) [
  | none ↦ none
  | some color ↦ some (map (λ id. lookup ℕ_discrete id color) ids)
]

-- fn reachable_objects_end_up_black
reachable_objects_end_up_black : Option (List (Option Color))
unfolding colors
reachable_objects_end_up_black = colors g (0 ∷ 1 ∷ 2 ∷ 3 ∷ [])

end_up_black :
    reachable_objects_end_up_black ≡ some (some black ∷ some black ∷ some black ∷ some black ∷ [])
unfolding reachable_objects_end_up_black
end_up_black = refl

-- fn unreachable_objects_stay_white
unreachable_objects_stay_white : Option (List (Option Color))
unfolding colors
unreachable_objects_stay_white = colors g (4 ∷ 5 ∷ 6 ∷ [])

stay_white : unreachable_objects_stay_white ≡ some (some white ∷ some white ∷ some white ∷ [])
unfolding unreachable_objects_stay_white
stay_white = refl

is_grey : ℕ × Color → Bool
is_grey (id, grey) = true
is_grey _ = false

-- fn no_grey_objects_remain_after_marking: whether one is grey.
no_grey_objects_remain_after_marking : Option Bool
unfolding mark start drain scan discover_all discover ℕ_discrete is_grey
no_grey_objects_remain_after_marking = elim (mark ℕ_discrete g 7) [
  | none ↦ none
  | some color ↦ some (any is_grey color)
]

no_grey : no_grey_objects_remain_after_marking ≡ some false
unfolding no_grey_objects_remain_after_marking
no_grey = refl

-- A black object references a white one.
breaks : List (ℕ × Color) → ℕ × Color → Bool
unfolding ℕ_discrete
breaks color (id, black) =
    any (λ child. elim (lookup ℕ_discrete child color) [ some white ↦ true | _ ↦ false ])
      (g_refs id)
breaks color _ = false

-- fn tri_color_invariant_holds: whether an object breaks it.
tri_color_invariant_holds : Option Bool
unfolding mark start drain scan discover_all discover ℕ_discrete breaks
tri_color_invariant_holds = elim (mark ℕ_discrete g 7) [
  | none ↦ none
  | some color ↦ some (any (breaks color) color)
]

tri_color : tri_color_invariant_holds ≡ some false
unfolding tri_color_invariant_holds
tri_color = refl

-- struct Cycle
abbrev cycle_refs : ℕ → List ℕ
cycle_refs id =
    if id == 0 then 1 ∷ [] else if id == 1 then 2 ∷ [] else if id == 2 then 0 ∷ [] else []

abbrev cycle : ObjectGraph ℕ
cycle = record { roots = 0 ∷ []; refs_of = cycle_refs; all_ids = 0 ∷ 1 ∷ 2 ∷ [] }

-- fn cycles_terminate
cycles_terminate : Option (List (Option Color))
unfolding colors
cycles_terminate = colors cycle (0 ∷ 1 ∷ 2 ∷ [])

cycle_black : cycles_terminate ≡ some (some black ∷ some black ∷ some black ∷ [])
unfolding cycles_terminate
cycle_black = refl

cycle-IsWithin : IsWithin cycle (0 ∷ 1 ∷ 2 ∷ [])
cycle-IsWithin = record { roots = λ v m. ground arith; refs = λ u m v e. ground arith }

mark_correct_example :
    (color : List (ℕ × Color)) × (mark ℕ_discrete cycle 3 ≡ some color)
    × IsColoring ℕ_discrete cycle color
mark_correct_example = mark_correct ℕ_discrete cycle (0 ∷ 1 ∷ 2 ∷ []) 3 cycle-IsWithin (omega arith)
