-- ===== src/Concurrent/Schedule.antt =====
-- A run of the worker of src/concurrent.rs beside a mutator that cuts a path of the snapshot, by
-- evaluation, and the theorems at its end.
use samsara.Prelude.{
  ℕ, zero, suc, ◌≡◌, refl, ◌≢◌, inl, List, [], ◌∷◌, ◌∈◌, Subset, Outcome, ok, panic, ℕ_discrete,
  if◌then◌else◌, ◌==◌, arith,
}
use samsara.Marker.{ObjectGraph}
use samsara.Marker.Loop.{Reach, root, edge}
use samsara.Barrier.{idle, marking, sweeping}
use samsara.Atomic.{load, store}
use samsara.Concurrent.{
  Shared, Worker, finished, Mutator, resting, checking, World, work, mutate, update_mutator, works,
  begins, mutates, flips, begin_marking, Reaches, begin, later,
}
use samsara.Concurrent.Invariant.{greys}
use samsara.Concurrent.Return.{marking_returns}
use samsara.Concurrent.Return.Runs.{work_for}
use samsara.Concurrent.Exit.{
  snapshot_preserved, Unruly, starts, write_begins, mutator_steps, phase_changes, never_panics,
}

record Run (g : ObjectGraph ℕ) : Type 0 where
  last : World
  reach : Reaches g last

worked :
    {g : ObjectGraph ℕ} (r : Run g) (o : Outcome (Shared × Worker))
    → work r.last.shared r.last.worker ≡ o
    → Run g
worked r panic e = r
worked r (ok (s, k)) e = record {
  last = record r.last { shared = s; worker = k };
  reach = later r.reach (works e);
}

mutated :
    {g : ObjectGraph ℕ} (r : Run g) (i : ℕ) (o : Outcome (Shared × Mutator))
    → mutate r.last.shared (r.last.mutators i) ≡ o
    → Run g
mutated r i panic e = r
mutated r i (ok (s, m)) e = record {
  last = record r.last { shared = s; mutators = update_mutator r.last.mutators i m };
  reach = later r.reach (mutates i e);
}

run_worker : {g : ObjectGraph ℕ} → ℕ → Run g → Run g
unfolding worked
run_worker zero r = r
run_worker (suc n) r = run_worker n (worked r (work r.last.shared r.last.worker) refl)

mutate_once : {g : ObjectGraph ℕ} → ℕ → Run g → Run g
unfolding mutated
mutate_once i r = mutated r i (mutate r.last.shared (r.last.mutators i)) refl

-- 1 → 2 → 3, with 1 the only root.
abbrev chain_refs : ℕ → List ℕ
chain_refs id = if id == 1 then 2 ∷ [] else if id == 2 then 3 ∷ [] else []

abbrev chain : ObjectGraph ℕ
chain = record { roots = 1 ∷ []; refs_of = chain_refs; all_ids = 1 ∷ 2 ∷ 3 ∷ [] }

-- Mutator 0 is about to replace the reference of 1 to 2 by one to 4.
abbrev cutting : Run chain
cutting = record {
  last = record (begin_marking chain) {
    mutators = update_mutator (λ _. resting) 0 (checking 1 0 2 4);
  };
  reach = later begin (begins 0 1 0 2 4 refl (unfold load in refl) refl);
}

-- It does, and the worker goes on till all is scanned.
drained : Run chain
unfolding run_worker mutate_once work mutate ℕ_discrete
drained = run_worker 40 (mutate_once 0 (mutate_once 0 (mutate_once 0 (run_worker 1 cutting))))

drained_quiet : (i : ℕ) → drained.last.mutators i ≡ resting
unfolding drained
drained_quiet zero = refl
drained_quiet (suc i) = ground arith

-- The phase leaves `Marking`, and the worker returns.
flipped : Run chain
flipped = record { last = _; reach = later drained.reach (flips idle drained_quiet (λ e. cc)) }

returned : Run chain
unfolding run_worker work drained flipped
returned = run_worker 4 flipped

returned_black : returned.last.worker ≡ finished (4 ∷ 3 ∷ 2 ∷ 1 ∷ [])
unfolding returned store
returned_black = refl

-- 3 was reachable at the start, over the reference that was cut.
snapshot_preserved_example : ◌∈◌ {A = ℕ} 3 (4 ∷ 3 ∷ 2 ∷ 1 ∷ [])
snapshot_preserved_example =
    snapshot_preserved returned.reach returned_black 3
      (edge (edge (root {v = 1} (inl refl)) (inl refl)) (inl refl))

-- The phase changes while mutator 0 is between its load and its record; then a write begins.
outside_protocol : (w : World) × Unruly chain w
unfolding mutate load
outside_protocol = (
  _,
  write_begins 1 2 0 3 5
      (phase_changes sweeping (mutator_steps 0 (write_begins 0 1 0 2 4 starts refl) refl)) refl,
)

never_panics_example :
    (work outside_protocol.0.shared outside_protocol.0.worker ≢ panic)
    × ((i : ℕ) → mutate outside_protocol.0.shared (outside_protocol.0.mutators i) ≢ panic)
never_panics_example = never_panics outside_protocol.1

abbrev chain_ids : List ℕ
chain_ids = 1 ∷ 2 ∷ 3 ∷ 4 ∷ []

flipped_phase : load flipped.last.shared.phase ≢ ok marking
unfolding flipped load store
flipped_phase e = cc

flipped_closed : (u : ℕ) → u ∈ chain_ids → Subset (flipped.last.shared.refs u) chain_ids
unfolding flipped drained
flipped_closed u m v e = ground arith

flipped_greys : Subset (greys flipped.last.shared flipped.last.worker) chain_ids
unfolding flipped drained
flipped_greys v m = ground arith

marking_returns_example :
    (n : ℕ) × (s : Shared) × (black : List ℕ) × (work_for n flipped.last.shared flipped.last.worker
      ≡ ok (s, finished black))
    × ((v : ℕ) → Reach chain v → v ∈ black)
marking_returns_example =
    marking_returns chain_ids flipped.reach flipped_phase flipped_closed flipped_greys
