-- ===== src/Barrier/Examples.antt =====
-- The unit tests of src/barrier.rs as evaluations, and its theorems at concrete graphs.
use samsara.Prelude.{
  ℕ, ◌+◌, ◌<◌, ◌≡◌, refl, ◌↔◌, Option, none, some, Bool, true, List, [], ◌∷◌, ◌++◌, ◌∈◌, Subset,
  length, ℕ_discrete, Outcome, ok, panic, ◌>>=◌, arith,
}
use samsara.Marker.Loop.{Reach}
use samsara.Barrier.{
  MarkStack, empty_stack, push, pop, len, is_empty, has, Phase, idle, marking, sweeping,
  WriteBarrier, pre_write, MutableGraph, refs_of, add_root, add_node, add_edge, replace_first,
  replace_edge, push_white, drain_marker, drain_loop,
}
use samsara.Barrier.Drain.{unscanned}
use samsara.Barrier.Overwrite.{
  Cycle, snapshot, scans, overwrites, pushes, Reaches, begin, later, satb_preserves,
  drain_marker_lem,
}

abbrev barrier_in : Phase → WriteBarrier
barrier_in p = record { phase = p; stack = empty_stack }

-- fn idle_barrier_does_not_capture
idle_barrier_does_not_capture : Bool
unfolding pre_write is_empty
idle_barrier_does_not_capture = is_empty (pre_write (barrier_in idle) 42).stack

idle_captures_none : idle_barrier_does_not_capture ≡ true
unfolding idle_barrier_does_not_capture
idle_captures_none = refl

-- fn marking_barrier_captures_overwritten_target
marking_barrier_captures_overwritten_target : ℕ × Bool
unfolding pre_write push len has ℕ_discrete
marking_barrier_captures_overwritten_target =
    let b = pre_write (barrier_in marking) 42 in (len b.stack, has b.stack 42)

marking_captures : marking_barrier_captures_overwritten_target ≡ (1, true)
unfolding marking_barrier_captures_overwritten_target
marking_captures = refl

-- fn sweeping_barrier_does_not_capture
sweeping_barrier_does_not_capture : Bool
unfolding pre_write is_empty
sweeping_barrier_does_not_capture = is_empty (pre_write (barrier_in sweeping) 42).stack

sweeping_captures_none : sweeping_barrier_does_not_capture ≡ true
unfolding sweeping_barrier_does_not_capture
sweeping_captures_none = refl

-- The graph of the last two tests: 1 → 2 → 3, with the root 1, and 4 apart.
abbrev empty_graph : MutableGraph
empty_graph = record { roots = []; edges = [] }

test_graph : MutableGraph
unfolding add_node add_root add_edge refs_of ℕ_discrete
test_graph =
    let nodes = add_node (add_node (add_node (add_node empty_graph 1) 2) 3) 4 in
    add_edge (add_edge (add_root nodes 1) 1 2) 2 3

-- `for child in graph.refs_of(id) { stack.push(child); }`
push_each : MarkStack → List ℕ → MarkStack
unfolding push
push_each s [] = s
push_each s (child ∷ children) = push_each (push s child) children

-- fn satb_preserves_object_reachable_at_start_of_marking: `final_black`.
satb_preserves_object_reachable_at_start_of_marking : Outcome (List ℕ)
unfolding test_graph pre_write push_each push pop refs_of replace_edge replace_first drain_marker
    drain_loop push_white ℕ_discrete
satb_preserves_object_reachable_at_start_of_marking =
    let (_, popped) = pop (push empty_stack 1) in
    let exposed = push_each popped (refs_of test_graph 1) in
    let captured = (pre_write (record { phase = marking; stack = exposed }) 2).stack in
    replace_edge test_graph 1 2 4 >>= λ graph. elim (drain_marker graph 10 (push captured 4)) [
      | none ↦ panic
      | some new_black ↦ ok (new_black ++ 1 ∷ [])
    ]

preserves : satb_preserves_object_reachable_at_start_of_marking ≡ ok (3 ∷ 2 ∷ 4 ∷ 1 ∷ [])
unfolding satb_preserves_object_reachable_at_start_of_marking
preserves = refl

-- fn without_satb_orphaned_object_is_lost: `stack` at its end, and `black`.
without_satb_orphaned_object_is_lost : Outcome (List ℕ × Option (List ℕ))
unfolding test_graph push pop push_each pre_write refs_of replace_edge replace_first drain_marker
    drain_loop push_white ℕ_discrete
without_satb_orphaned_object_is_lost =
    let (_, popped) = pop (push empty_stack 1) in
    let stack = push_each popped (refs_of test_graph 1) in
    let stack' = (pre_write (record { phase = idle; stack = stack }) 2).stack in
    replace_edge test_graph 1 2 4 >>= λ graph.
    let (_, popped2) = pop (push empty_stack 1) in
    let stack2 = push_each popped2 (refs_of graph 1) in
    ok (stack'.objects, drain_marker graph 10 stack2)

loses : without_satb_orphaned_object_is_lost ≡ ok (2 ∷ [], some (4 ∷ []))
unfolding without_satb_orphaned_object_is_lost
loses = refl

cut_graph : MutableGraph
unfolding test_graph replace_edge replace_first refs_of ℕ_discrete
cut_graph = elim (replace_edge test_graph 1 2 4) [ panic ↦ empty_graph | ok graph ↦ graph ]

cut_ok : replace_edge test_graph 1 2 4 ≡ ok cut_graph
unfolding cut_graph test_graph replace_edge replace_first refs_of ℕ_discrete
cut_ok = refl

test_roots : test_graph.roots ≡ 1 ∷ []
unfolding test_graph
test_roots = refl

-- The steps of that test: 1 is scanned, then its reference to 2 is replaced by one to 4, which is
-- pushed.
run_of_test : (c : Cycle) × Reaches test_graph c × (c.graph ≡ cut_graph)
run_of_test = (
  _,
  later (later (later begin (scans 1 [] test_roots)) (overwrites 1 2 4 cut_ok)) (pushes 4),
  refl,
)

abbrev test_ids : List ℕ
test_ids = 1 ∷ 2 ∷ 3 ∷ 4 ∷ []

test_stack : Subset run_of_test.0.stack.objects test_ids
unfolding run_of_test test_graph push pre_write push_white refs_of ℕ_discrete
test_stack v m = ground arith

test_finite : (u : ℕ) → u ∈ test_ids → Subset (refs_of run_of_test.0.graph u) test_ids
unfolding run_of_test cut_graph test_graph replace_edge replace_first refs_of ℕ_discrete
test_finite u m v e = ground arith

test_fuel :
    unscanned (refs_of run_of_test.0.graph) test_ids [] + length run_of_test.0.stack.objects < 10
unfolding run_of_test cut_graph test_graph replace_edge replace_first refs_of ℕ_discrete push
    pre_write push_white
test_fuel = omega arith

satb_preserves_example :
    (result : List ℕ) × (drain_marker run_of_test.0.graph 10 run_of_test.0.stack ≡ some result)
    × ((v : ℕ) → Reach (snapshot test_graph) v → v ∈ (result ++ run_of_test.0.black))
satb_preserves_example = satb_preserves test_ids 10 run_of_test.1 test_finite test_stack test_fuel

graph_finite : (u : ℕ) → u ∈ test_ids → Subset (refs_of test_graph u) test_ids
unfolding test_graph refs_of ℕ_discrete
graph_finite u m v e = ground arith

graph_roots : Subset test_graph.roots test_ids
unfolding test_graph
graph_roots v m = ground arith

graph_fuel : unscanned (refs_of test_graph) test_ids [] + length test_graph.roots < 10
unfolding test_graph refs_of ℕ_discrete
graph_fuel = omega arith

drain_marker_lem_example :
    (result : List ℕ) × (drain_marker test_graph 10 (record { objects = test_graph.roots })
      ≡ some result)
    × ((v : ℕ) → (v ∈ result) ↔ Reach (snapshot test_graph) v)
drain_marker_lem_example =
    drain_marker_lem test_graph test_ids 10 graph_finite graph_roots graph_fuel
