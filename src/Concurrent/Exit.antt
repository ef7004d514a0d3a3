-- ===== src/Concurrent/Exit.antt =====
-- The worker of src/concurrent.rs when it returns, and panics in its threads.
use mathlib.Core.Path.{ap₂}
use samsara.Prelude.{
  ◌<◌, ◌≢◌, panic, arith, inl, inr, List-cases, Outcome, ok, ◌>>=◌, if◌then◌else◌, sym, refl, ℕ,
  ◌≡◌, List, [], ◌∷◌, ◌++◌, ◌∈◌, subst,
}
use samsara.Marker.{ObjectGraph}
use samsara.Marker.Loop.{Reach}
use samsara.Snapshot.{Safe, black_of_Safe}
use samsara.Atomic.{AtomicPhase, load, store, encode}
use samsara.Barrier.{Phase, idle, marking, sweeping, is_marking}
use samsara.Concurrent.{
  Shared, Worker, draining, refilling, popping, scanning, pushing, deciding, finishing, confirming,
  Mutator, resting, checking, recording, storing, work, mutate, update_mutator, begin_marking,
  World, finished, Reaches,
}
use samsara.Concurrent.Invariant.{black_of, greys, Ends, Inv}
use samsara.Concurrent.Invariant.Steps.{Reaches-Inv}

-- At its end the worker has nothing in hand, and both shared queues are empty.
no_greys :
    {g : ObjectGraph ℕ} {w : World} (black : List ℕ)
    → Inv g w
    → w.worker ≡ finished black
    → Safe g w.shared.refs black []
no_greys {g} {w} black inv e =
    let (_, remembered, stack) = subst (Ends w.shared) e inv.ends in
    subst (Safe g w.shared.refs black) (ap₂ ◌++◌ stack remembered)
      (subst (λ k. Safe g w.shared.refs (black_of k) (greys w.shared k)) e inv.safe)

-- The deletion barrier's promise, for one worker and any number of mutators: every object that was
-- reachable from the roots when marking began is in the set that the worker returns, whatever
-- references the mutators have overwritten or added meanwhile, in any interleaving in which the phase
-- leaves `Marking` only while no mutator is in the middle of a write and none writes after that.
pub snapshot_preserved :
    {g : ObjectGraph ℕ} {w : World} {black : List ℕ}
    → Reaches g w
    → w.worker ≡ finished black
    → (v : ℕ) → Reach g v
    → v ∈ black
snapshot_preserved {black} r e = black_of_Safe (no_greys black (Reaches-Inv r) e)

loads : (s : Shared) → s.phase.byte < 3 → load s.phase ≢ panic
unfolding load
loads s small = ground arith

works : (s : Shared) (k : Worker) → s.phase.byte < 3 → work s k ≢ panic
unfolding work
works s (draining b) small = ground arith
works s (refilling b ids) small = ground arith
works s (popping b) small = elim (List-cases s.stack.objects) [
  | inl e ↦ ground arith
  | inr (id, rest, e) ↦ ground arith
]
works s (scanning b id) small = ground arith
works s (pushing b []) small = ground arith
works s (pushing b (c ∷ cs)) small = ground arith
works s (deciding b) small = ground (arith, loads s small)
works s (finishing b) small = ground arith
works s (confirming b []) small = ground arith
works s (confirming b (id ∷ ids)) small = ground arith
works s (finished b) small = ground arith

mutates : (s : Shared) (m : Mutator) → s.phase.byte < 3 → mutate s m ≢ panic
unfolding mutate
mutates s resting small = ground arith
mutates s (checking src slot old new) small = ground (arith, loads s small)
mutates s (recording src slot old new) small = ground arith
mutates s (storing src slot new) small = ground arith

-- Any interleaving, without a protocol: a mutator may begin a write in any phase, and any thread may
-- store any phase at any time.
pub data Unruly (g : ObjectGraph ℕ) : World → Type 0 where
  starts : Unruly g (begin_marking g)
  worker_steps :
      {w : World} {s : Shared} {k : Worker}
      → Unruly g w
      → work w.shared w.worker ≡ ok (s, k)
      → Unruly g (record w { shared = s; worker = k })
  write_begins :
      {w : World} (i src slot old new : ℕ)
      → Unruly g w
      → w.mutators i ≡ resting
      → Unruly g (record w { mutators = update_mutator w.mutators i (checking src slot old new) })
  mutator_steps :
      {w : World} (i : ℕ) {s : Shared} {m : Mutator}
      → Unruly g w
      → mutate w.shared (w.mutators i) ≡ ok (s, m)
      → Unruly g (record w { shared = s; mutators = update_mutator w.mutators i m })
  references_change :
      {w : World} (refs : ℕ → List ℕ)
      → Unruly g w
      → Unruly g (record w { shared = record w.shared { refs = refs } })
  phase_changes :
      {w : World} (p : Phase)
      → Unruly g w
      → Unruly g (record w { shared = record w.shared { phase = store w.shared.phase p } })

abbrev SamePhase : {A : Type 0} → Shared → Outcome (Shared × A) → Type 0
SamePhase s (ok (s', a)) = s'.phase ≡ s.phase
SamePhase s panic = Unit

work-SamePhase : (s : Shared) (k : Worker) → SamePhase s (work s k)
unfolding work
work-SamePhase s (draining b) = refl
work-SamePhase s (refilling b ids) = refl
work-SamePhase s (popping b) = elim (List-cases s.stack.objects) [
  | inl e ↦ ground arith
  | inr (id, rest, e) ↦ ground arith
]
work-SamePhase s (scanning b id) = ground arith
work-SamePhase s (pushing b []) = refl
work-SamePhase s (pushing b (c ∷ cs)) = ground arith
work-SamePhase s (deciding b) =
    elim (load s.phase)
      as (λ o.
        SamePhase s (o >>= λ phase. ok (s, if is_marking phase then draining b else finishing b))) [
          | ok phase ↦ refl
          | panic ↦ tt
        ]
work-SamePhase s (finishing b) = refl
work-SamePhase s (confirming b []) = refl
work-SamePhase s (confirming b (id ∷ ids)) = refl
work-SamePhase s (finished b) = refl

mutate-SamePhase : (s : Shared) (m : Mutator) → SamePhase s (mutate s m)
unfolding mutate
mutate-SamePhase s resting = refl
mutate-SamePhase s (checking src slot old new) =
    elim (load s.phase)
      as (λ o. SamePhase s (
        o >>= λ phase.
        ok (s, if is_marking phase then recording src slot old new else storing src slot new))) [
          | ok phase ↦ refl
          | panic ↦ tt
        ]
mutate-SamePhase s (recording src slot old new) = refl
mutate-SamePhase s (storing src slot new) = refl

encode_small : (p : Phase) → encode p < 3
unfolding encode
encode_small idle = omega arith
encode_small marking = omega arith
encode_small sweeping = omega arith

phase_small : {g : ObjectGraph ℕ} {w : World} → Unruly g w → w.shared.phase.byte < 3
unfolding store
phase_small starts = omega arith
phase_small (worker_steps {w} u e) =
    let same = subst (SamePhase w.shared) e (work-SamePhase w.shared w.worker) in
    subst (λ (p : AtomicPhase). p.byte < 3) (sym same) (phase_small u)
phase_small (write_begins i src slot old new u at_rest) = phase_small u
phase_small (mutator_steps {w} i u e) =
    let same = subst (SamePhase w.shared) e (mutate-SamePhase w.shared (w.mutators i)) in
    subst (λ (p : AtomicPhase). p.byte < 3) (sym same) (phase_small u)
phase_small (references_change refs u) = phase_small u
phase_small (phase_changes p u) = encode_small p

-- In any interleaving of the worker, of mutators that write in any phase, of changes of the references
-- and of stores of the phase through `AtomicPhase::store`, none of which has to follow the termination
-- protocol, no thread meets an invalid phase byte: neither the worker nor a mutator panics.
pub never_panics :
    {g : ObjectGraph ℕ} {w : World}
    → Unruly g w
    → (work w.shared w.worker ≢ panic) × ((i : ℕ) → mutate w.shared (w.mutators i) ≢ panic)
never_panics {w} u =
    let small = phase_small u in
    (works w.shared w.worker small, λ i. mutates w.shared (w.mutators i) small)
