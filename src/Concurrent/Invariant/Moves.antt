-- ===== src/Concurrent/Invariant/Moves.antt =====
-- The invariant under the steps of the worker of src/concurrent.rs (`work`).
use samsara.Prelude.{
  List-cases, sym, Outcome-cases, ℕ, ◌≡◌, refl, ◌↔◌, ◌⊎◌, inl, inr, ⊎_elim, List, [], ◌∷◌, ◌++◌,
  ◌∈◌, ok, mem-append, contains, contains_iff, ℕ_discrete, arith, panic, Bool-cases, Outcome, subst,
}
use samsara.Marker.{ObjectGraph}
use samsara.Barrier.{is_marking, MarkStack, push, is_empty}
use samsara.Atomic.{load}
use samsara.Snapshot.{Marked, Safe, Safe-mono, Safe-scan}
use samsara.Concurrent.{
  Shared, Worker, draining, refilling, popping, scanning, pushing, deciding, finishing, confirming,
  finished, work, push_all,
}
use samsara.Concurrent.Invariant.{black_of, in_hand, greys, MarkedIn}

pub mem-push_all :
    (s : MarkStack) (ids : List ℕ) (v : ℕ)
    → (v ∈ (push_all s ids).objects) ↔ ((v ∈ s.objects) ⊎ (v ∈ ids))
unfolding push_all
mem-push_all s [] v = ground arith
mem-push_all s (id ∷ ids) v = ground (arith, mem-push_all (push s id) ids v)

-- The parts of `greys`.
pub mem-greys :
    (s : Shared) (k : Worker) (v : ℕ)
    → (v ∈ greys s k) ↔ ((v ∈ in_hand k) ⊎ (v ∈ s.stack.objects) ⊎ (v ∈ s.remembered.inner))
mem-greys s k v = ground (
  arith,
  mem-append v (in_hand k) (s.stack.objects ++ s.remembered.inner),
  mem-append v s.stack.objects s.remembered.inner,
)

-- A step of the worker changes neither the graph nor the phase, and nothing marked is lost.
pub record Works (g : ObjectGraph ℕ) (s : Shared) (k : Worker) (s' : Shared) (k' : Worker)
    : Type 0 where
  pub same_refs : s'.refs ≡ s.refs
  pub same_phase : s'.phase ≡ s.phase
  pub keeps : (v : ℕ) → MarkedIn s k v → MarkedIn s' k' v
  pub safe : Safe g s'.refs (black_of k') (greys s' k')

abbrev pub WorksTo : ObjectGraph ℕ → Shared → Worker → Outcome (Shared × Worker) → Type 0
WorksTo g s k panic = Unit
WorksTo g s k (ok (s', k')) = Works g s k s' k'

module _ {g : ObjectGraph ℕ} (s : Shared) where
  -- A step that scans no object: what was marked stays marked.
  passes :
      (k k' : Worker) (s' : Shared)
      → s'.refs ≡ s.refs
      → s'.phase ≡ s.phase
      → black_of k' ≡ black_of k
      → ((v : ℕ) → v ∈ greys s k → MarkedIn s' k' v)
      → Safe g s.refs (black_of k) (greys s k)
      → Works g s k s' k'
  passes k k' s' refs phase black keep safe =
      let all = λ (v : ℕ). ⊎_elim (λ m. inl (subst (λ b. v ∈ b) (sym black) m)) (keep v) in
      record {
        same_refs = refs;
        same_phase = phase;
        keeps = all;
        safe =
            subst (λ r. Safe g r (black_of k') (greys s' k')) (sym refs)
              (subst (λ b. Safe g s.refs b (greys s' k')) (sym black)
                (Safe-mono safe (greys s' k')
                  λ v m. subst (λ b. Marked b (greys s' k') v) black (all v m)));
      }

  work-draining :
      (b : List ℕ)
      → Safe g s.refs b (greys s (draining b))
      → WorksTo g s (draining b) (work s (draining b))
  unfolding work
  work-draining b =
      let s' = record s { remembered = record { inner = [] } } in
      let k' = refilling b s.remembered.inner in
      passes (draining b) k' s' refl refl refl
        λ v. ground (arith, mem-greys s (draining b) v, mem-greys s' k' v)

  work-refilling :
      (b ids : List ℕ)
      → Safe g s.refs b (greys s (refilling b ids))
      → WorksTo g s (refilling b ids) (work s (refilling b ids))
  unfolding work
  work-refilling b ids =
      let s' = record s { stack = push_all s.stack ids } in
      passes (refilling b ids) (popping b) s' refl refl refl λ v. ground (
        arith,
        mem-greys s (refilling b ids) v,
        mem-greys s' (popping b) v,
        mem-push_all s.stack ids v,
      )

  work-popping :
      (b : List ℕ)
      → Safe g s.refs b (greys s (popping b))
      → WorksTo g s (popping b) (work s (popping b))
  unfolding work
  work-popping b safe = elim (List-cases s.stack.objects) [
    | inl none_left ↦
        subst (WorksTo g s (popping b))
          (let q : ok (s, deciding b) ≡ work s (popping b) = ground arith in q)
          (passes (popping b) (deciding b) s refl refl refl
            (λ v. ground (arith, mem-greys s (popping b) v, mem-greys s (deciding b) v)) safe)
    | inr (id, rest, e) ↦
        let s' = record s { stack = record { objects = rest } } in
        subst (WorksTo g s (popping b))
          (let q : ok (s', scanning b id) ≡ work s (popping b) = ground arith in q)
          (passes (popping b) (scanning b id) s' refl refl refl
            (λ v. ground (arith, mem-greys s (popping b) v, mem-greys s' (scanning b id) v, e))
            safe)
  ]

  work-scanning :
      (b : List ℕ) (id : ℕ)
      → Safe g s.refs b (greys s (scanning b id))
      → WorksTo g s (scanning b id) (work s (scanning b id))
  unfolding work
  work-scanning b id safe = elim (Bool-cases (contains ℕ_discrete b id)) [
    | inl old ↦ rw old (
        passes (scanning b id) (draining b) s refl refl refl
          (λ v. ground (
            arith,
            mem-greys s (scanning b id) v,
            mem-greys s (draining b) v,
            (contains_iff ℕ_discrete b id).0 old,
          ))
          safe)
    | inr new ↦
        let k' = pushing (id ∷ b) (s.refs id) in
        let keep = λ (v : ℕ).
          let m : MarkedIn s (scanning b id) v → MarkedIn s k' v =
            ground (arith, mem-greys s (scanning b id) v, mem-greys s k' v) in
          m in
        rw new (record {
          same_refs = refl;
          same_phase = refl;
          keeps = keep;
          safe = Safe-scan safe id (greys s k') keep λ v m. inr ((mem-greys s k' v).1 (inl m));
        })
  ]

  work-pushing :
      (b cs : List ℕ)
      → Safe g s.refs b (greys s (pushing b cs))
      → WorksTo g s (pushing b cs) (work s (pushing b cs))
  unfolding work
  work-pushing b [] safe =
      passes (pushing b []) (draining b) s refl refl refl
        (λ v. ground (arith, mem-greys s (pushing b []) v, mem-greys s (draining b) v)) safe
  work-pushing b (c ∷ cs) safe = elim (Bool-cases (contains ℕ_discrete b c)) [
    | inl old ↦ rw old (
        passes (pushing b (c ∷ cs)) (pushing b cs) s refl refl refl
          (λ v. ground (
            arith,
            mem-greys s (pushing b (c ∷ cs)) v,
            mem-greys s (pushing b cs) v,
            (contains_iff ℕ_discrete b c).0 old,
          ))
          safe)
    | inr new ↦
        let s' = record s { stack = push s.stack c } in
        rw new (
          passes (pushing b (c ∷ cs)) (pushing b cs) s' refl refl refl
            (λ v. ground (arith, mem-greys s (pushing b (c ∷ cs)) v, mem-greys s' (pushing b cs) v))
            safe)
  ]

  work-deciding :
      (b : List ℕ)
      → Safe g s.refs b (greys s (deciding b))
      → WorksTo g s (deciding b) (work s (deciding b))
  unfolding work
  work-deciding b safe = elim (Outcome-cases (load s.phase)) [
    | inl fails ↦ rw fails tt
    | inr (p, e) ↦ elim (Bool-cases (is_marking p)) [
      | inl yes_marking ↦
          rw (e, yes_marking) (passes (deciding b) (draining b) s refl refl refl (λ v. inr) safe)
      | inr over ↦ rw (e, over) (passes (deciding b) (finishing b) s refl refl refl (λ v. inr) safe)
    ]
  ]

  work-finishing :
      (b : List ℕ)
      → Safe g s.refs b (greys s (finishing b))
      → WorksTo g s (finishing b) (work s (finishing b))
  unfolding work
  work-finishing b =
      let s' = record s { remembered = record { inner = [] } } in
      let k' = confirming b s.remembered.inner in
      passes (finishing b) k' s' refl refl refl
        λ v. ground (arith, mem-greys s (finishing b) v, mem-greys s' k' v)

  work-confirming :
      (b ids : List ℕ)
      → Safe g s.refs b (greys s (confirming b ids))
      → WorksTo g s (confirming b ids) (work s (confirming b ids))
  unfolding work
  work-confirming b [] safe = elim (Bool-cases (is_empty s.stack)) [
    | inl over ↦ rw over (passes (confirming b []) (finished b) s refl refl refl (λ v. inr) safe)
    | inr more ↦ rw more (passes (confirming b []) (draining b) s refl refl refl (λ v. inr) safe)
  ]
  work-confirming b (id ∷ ids) safe =
      let s' = record s { stack = push_all s.stack (id ∷ ids) } in
      passes (confirming b (id ∷ ids)) (draining b) s' refl refl refl
        (λ v. ground (
          arith,
          mem-greys s (confirming b (id ∷ ids)) v,
          mem-greys s' (draining b) v,
          mem-push_all s.stack (id ∷ ids) v,
        ))
        safe

  work-finished :
      (b : List ℕ)
      → Safe g s.refs b (greys s (finished b))
      → WorksTo g s (finished b) (work s (finished b))
  unfolding work
  work-finished b = passes (finished b) (finished b) s refl refl refl (λ v. inr)

  -- Whatever the worker does next, nothing marked is lost.
  pub work-Works : (k : Worker) → Safe g s.refs (black_of k) (greys s k) → WorksTo g s k (work s k)
  work-Works (draining b) = work-draining b
  work-Works (refilling b ids) = work-refilling b ids
  work-Works (popping b) = work-popping b
  work-Works (scanning b id) = work-scanning b id
  work-Works (pushing b cs) = work-pushing b cs
  work-Works (deciding b) = work-deciding b
  work-Works (finishing b) = work-finishing b
  work-Works (confirming b ids) = work-confirming b ids
  work-Works (finished b) = work-finished b
