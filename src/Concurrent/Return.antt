-- ===== src/Concurrent/Return.antt =====
-- The worker of src/concurrent.rs alone, once the phase has left `Marking`.
pub mod Alone
pub mod Runs
use samsara.Prelude.{
  ℕ, zero, suc, ◌+◌, ◌≤◌, ◌<◌, ◌≡◌, refl, ◌≢◌, ◌⊎◌, inl, inr, ⊎_elim, true, false, List, [], ◌∷◌,
  ◌++◌, length, ◌∈◌, Subset, contains, contains_iff, arith, Bool-cases, List-cases, Outcome, ok,
  ok-injective, Outcome-cases, panic, ◌>>=◌, ap, sym, ◌∙◌, subst, ℕ_discrete,
}
use samsara.Marker.{ObjectGraph}
use samsara.Marker.Loop.{Reach}
use samsara.Barrier.{Phase, idle, marking, sweeping, is_marking, is_empty, MarkStack, push}
use samsara.Barrier.Drain.{unscanned, unscanned-scan}
use samsara.Atomic.{AtomicPhase, load}
use samsara.Concurrent.{
  Shared, Worker, draining, refilling, popping, scanning, pushing, deciding, finishing, confirming,
  finished, work, push_all, World, Reaches, later, works,
}
use samsara.Concurrent.Invariant.{in_hand, greys}
use samsara.Concurrent.Invariant.Moves.{mem-push_all, mem-greys}
use samsara.Concurrent.Invariant.Steps.{Reaches-Inv}
use samsara.Concurrent.Exit.{snapshot_preserved}
use samsara.Concurrent.Return.Runs.{work_for}
use samsara.Concurrent.Return.Alone.{Quiet, any_worker}

-- Steps of the worker alone are steps of the system.
work_for-Reaches :
    {g : ObjectGraph ℕ} (n : ℕ) (w : World) {s : Shared} {k : Worker}
    → Reaches g w
    → work_for n w.shared w.worker ≡ ok (s, k)
    → Reaches g (record w { shared = s; worker = k })
unfolding work_for
work_for-Reaches {g} zero w {s} {k} r e =
    subst (λ (a : Shared × Worker). Reaches g (record w { shared = a.0; worker = a.1 }))
      (ok-injective e) r
work_for-Reaches {g} (suc n) w r e = elim (Outcome-cases (work w.shared w.worker)) [
  | inl fails ↦ cc
  | inr ((s', k'), e') ↦
      work_for-Reaches n (record w { shared = s'; worker = k' }) (later r (works e'))
        (sym (ap (λ o. o >>= λ (a, b). work_for n a b) e') ∙ e)
]

not_marking : (p : Phase) → p ≢ marking → is_marking p ≡ false
not_marking idle ne = refl
not_marking marking ne = absurd (ne refl)
not_marking sweeping ne = refl

loads : (a : AtomicPhase) → a.byte < 3 → (p : Phase) × (load a ≡ ok p)
unfolding load
loads a small = elim (Outcome-cases (load a)) [
  | inl fails ↦ absurd (ground (arith, fails))
  | inr loaded ↦ loaded
]

-- Once the phase has left `Marking`, if the objects at hand are finitely many, the worker returns when
-- it runs on from there alone, with no step of a mutator between its own. Every object that was
-- reachable from the roots when marking began is then in the set that it returns: whatever references
-- any number of mutators have overwritten or added before, in any interleaving in which the phase
-- leaves `Marking` only while no mutator is in the middle of a write and none overwrites one after
-- that.
pub marking_returns :
    {g : ObjectGraph ℕ} {w : World} (ids : List ℕ)
    → Reaches g w
    → load w.shared.phase ≢ ok marking
    → ((u : ℕ) → u ∈ ids → Subset (w.shared.refs u) ids)
    → Subset (greys w.shared w.worker) ids
    → (n : ℕ) × (s : Shared) × (black : List ℕ) × (work_for n w.shared w.worker
        ≡ ok (s, finished black))
      × ((v : ℕ) → Reach g v → v ∈ black)
marking_returns {g} {w} ids r over closed within =
    let (p, loaded) = loads w.shared.phase (Reaches-Inv r).phase in
    let off = not_marking p (λ e. over (loaded ∙ ap ok e)) in
    let split = λ (v : ℕ). mem-greys w.shared w.worker v in
    let quiet : Quiet w.shared.refs ids p off closed w.shared = record {
      graph = refl;
      phase = loaded;
      stack = λ v m. within v ((split v).1 (inr (inl m)));
      remembered = λ v m. within v ((split v).1 (inr (inr m)));
    } in
    let (n, s, black, done) =
      any_worker w.shared.refs ids p off closed w.shared w.worker quiet
        (λ v m. within v ((split v).1 (inl m))) in
    (n, s, black, done, snapshot_preserved (work_for-Reaches n w r done) refl)
