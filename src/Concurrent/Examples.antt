-- ===== src/Concurrent/Examples.antt =====
-- The unit tests of src/concurrent.rs as evaluations: the worker runs some steps, the thread of the test
-- does what it does, and the worker runs on till it returns. Then a run on a graph that does not change.
use samsara.Prelude.{
  ◌↔◌, ◌∈◌, panic, ℕ_discrete, ℕ, zero, suc, ◌≡◌, refl, Option, none, some, List, [], ◌∷◌, Outcome,
  ok, ◌>>=◌, ◌==◌, if◌then◌else◌,
}
use samsara.Marker.{ObjectGraph}
use samsara.Barrier.{idle, marking, empty_stack}
use samsara.RememberedSet.{empty_set}
use samsara.Atomic.{new_phase, load, store, pre_write, encode}
use samsara.Concurrent.{World, work, Shared, Worker, draining, finished, push_all}
use samsara.Concurrent.Return.Runs.{work_for}
use samsara.Concurrent.Exact.{Alone, starts, steps, stops, alone_exact}
use samsara.Marker.Loop.{Reach}

-- struct StaticGraph
abbrev static_refs : ℕ → List ℕ
static_refs id =
    if id == 1 then 2 ∷ [] else if id == 2 then 3 ∷ [] else if id == 4 then 5 ∷ [] else []

abbrev static_graph : ObjectGraph ℕ
static_graph = record { roots = 1 ∷ []; refs_of = static_refs; all_ids = 1 ∷ 2 ∷ 3 ∷ 4 ∷ 5 ∷ [] }

abbrev fresh_state : Shared
fresh_state = record {
  stack = empty_stack;
  remembered = empty_set;
  phase = new_phase;
  refs = static_graph.refs_of;
}

-- `phase.store(Phase::Marking)`, and the pushes of these ids.
started : List ℕ → Shared
unfolding store encode push_all
started ids = record fresh_state {
  phase = store fresh_state.phase marking;
  stack = push_all fresh_state.stack ids;
}

-- `barrier.pre_write(id)`, `n` times.
captures : ℕ → ℕ → Shared → Outcome Shared
unfolding pre_write
captures zero id s = ok s
captures (suc n) id s = pre_write (record { phase = s.phase; set = s.remembered }) id >>= λ b.
    captures n id (record s { remembered = b.set })

-- `phase.store(Phase::Idle)` and `handle.join()`, with at most `fuel` steps of the worker.
joined : ℕ → Shared → Worker → Outcome (Option (List ℕ))
unfolding store encode work_for
joined fuel s k =
    work_for fuel (record s { phase = store s.phase idle }) k >>= λ (s', k'). ok (black_of k')
  where
    black_of : Worker → Option (List ℕ)
    black_of (finished black) = some black
    black_of _ = none

-- fn concurrent_marker_drains_reachable_set
concurrent_marker_drains_reachable_set : Outcome (Option (List ℕ))
unfolding started joined work_for
concurrent_marker_drains_reachable_set =
    work_for 12 (started static_graph.roots) (draining []) >>= λ (s, k). joined 40 s k

drains_reachable_set : concurrent_marker_drains_reachable_set ≡ ok (some (3 ∷ 2 ∷ 1 ∷ []))
unfolding concurrent_marker_drains_reachable_set work ℕ_discrete
drains_reachable_set = refl

-- fn concurrent_marker_picks_up_satb_captures_during_marking
concurrent_marker_picks_up_satb_captures_during_marking : Outcome (Option (List ℕ))
unfolding started captures joined work_for
concurrent_marker_picks_up_satb_captures_during_marking =
    work_for 12 (started static_graph.roots) (draining []) >>= λ (s, k).
    captures 1 4 s >>= λ s'. work_for 5 s' k >>= λ (s'', k'). joined 60 s'' k'

picks_up_captures :
    concurrent_marker_picks_up_satb_captures_during_marking ≡ ok (some (3 ∷ 5 ∷ 4 ∷ 2 ∷ 1 ∷ []))
unfolding concurrent_marker_picks_up_satb_captures_during_marking work ℕ_discrete
picks_up_captures = refl

-- fn concurrent_marker_terminates_quickly_with_no_work
concurrent_marker_terminates_quickly_with_no_work : Outcome (Option (List ℕ))
unfolding started joined work_for
concurrent_marker_terminates_quickly_with_no_work = joined 6 (started []) (draining [])

terminates_with_no_work : concurrent_marker_terminates_quickly_with_no_work ≡ ok (some [])
unfolding concurrent_marker_terminates_quickly_with_no_work work
terminates_with_no_work = refl

-- fn concurrent_marker_handles_many_captures_from_busy_mutator, with 5 captures.
concurrent_marker_handles_many_captures_from_busy_mutator : Outcome (Option (List ℕ))
unfolding started captures joined work_for
concurrent_marker_handles_many_captures_from_busy_mutator =
    work_for 3 (started (1 ∷ [])) (draining []) >>= λ (s, k). captures 3 4 s >>= λ s'.
    work_for 9 s' k >>= λ (s'', k'). captures 2 4 s'' >>= λ s3. joined 90 s3 k'

handles_many_captures :
    concurrent_marker_handles_many_captures_from_busy_mutator ≡ ok (some (3 ∷ 2 ∷ 5 ∷ 4 ∷ 1 ∷ []))
unfolding concurrent_marker_handles_many_captures_from_busy_mutator work ℕ_discrete
handles_many_captures = refl

record Run (g : ObjectGraph ℕ) : Type 0 where
  last : World
  alone : Alone g last

stepped :
    {g : ObjectGraph ℕ} (r : Run g) (o : Outcome (Shared × Worker))
    → work r.last.shared r.last.worker ≡ o
    → Run g
stepped r panic e = r
stepped r (ok (s, k)) e = record {
  last = record r.last { shared = s; worker = k };
  alone = steps r.alone e;
}

worked : {g : ObjectGraph ℕ} → ℕ → Run g → Run g
unfolding stepped
worked zero r = r
worked (suc n) r = worked n (stepped r (work r.last.shared r.last.worker) refl)

-- The phase leaves `Marking` while the worker is in the middle of its work.
stopped : Run static_graph
unfolding worked work ℕ_discrete
stopped =
    let r = worked 12 (record { last = _; alone = starts }) in
    record { last = _; alone = stops idle r.alone (λ e. cc) }

returned : Run static_graph
unfolding stopped worked work ℕ_discrete load store
returned = worked 40 stopped

returned_black : returned.last.worker ≡ finished (3 ∷ 2 ∷ 1 ∷ [])
unfolding returned
returned_black = refl

alone_exact_example : (◌∈◌ {A = ℕ} 3 (3 ∷ 2 ∷ 1 ∷ [])) ↔ Reach static_graph 3
alone_exact_example = alone_exact returned.alone returned_black 3
