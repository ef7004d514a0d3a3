-- ===== src/Concurrent/Return/Alone.antt =====
-- The worker of src/concurrent.rs alone, from any program point to its end.
use samsara.Prelude.{
  ℕ, zero, suc, ◌+◌, ◌≤◌, ◌<◌, ◌≡◌, refl, inl, inr, ⊎_elim, false, List, [], ◌∷◌, length, ◌∈◌,
  Subset, contains, contains_iff, arith, Bool-cases, List-cases, ok, ap, sym, subst, ℕ_discrete,
}
use samsara.Barrier.{Phase, is_marking, is_empty, push}
use samsara.Barrier.Drain.{unscanned, unscanned-scan}
use samsara.Atomic.{load}
use samsara.Concurrent.{
  Shared, Worker, draining, refilling, popping, scanning, pushing, deciding, finishing, confirming,
  finished, work, push_all,
}
use samsara.Concurrent.Invariant.{in_hand}
use samsara.Concurrent.Invariant.Moves.{mem-push_all}
use samsara.Concurrent.Return.Runs.{work_for, Returns, after, length-push_all}

module _ (refs : ℕ → List ℕ) (ids : List ℕ) (p : Phase) (off : is_marking p ≡ false)
    (closed : (u : ℕ) → u ∈ ids → Subset (refs u) ids) where
  -- The graph is `refs`, the phase is `p`, and what waits in the queues is among `ids`.
  pub record Quiet (s : Shared) : Type 0 where
    pub graph : s.refs ≡ refs
    pub phase : load s.phase ≡ ok p
    pub stack : Subset s.stack.objects ids
    pub remembered : Subset s.remembered.inner ids

  Quiet-push_all :
      (s : Shared) (drained : List ℕ)
      → Quiet s
      → Subset drained ids
      → Quiet (record s { stack = push_all s.stack drained })
  Quiet-push_all s drained q sub = record {
    graph = q.graph;
    phase = q.phase;
    stack = λ v m. ⊎_elim (q.stack v) (sub v) ((mem-push_all s.stack drained v).0 m);
    remembered = q.remembered;
  }

  Quiet-drain : (s : Shared) → Quiet s → Quiet (record s { remembered = record { inner = [] } })
  Quiet-drain s q = record {
    graph = q.graph;
    phase = q.phase;
    stack = q.stack;
    remembered = λ v m. absurd m;
  }

  Quiet-pop :
      (s : Shared) {id : ℕ} {rest : List ℕ}
      → s.stack.objects ≡ id ∷ rest
      → Quiet s
      → (id ∈ ids) × Quiet (record s { stack = record { objects = rest } })
  Quiet-pop s {id} e q = (
    q.stack id (subst (λ l. id ∈ l) (sym e) (inl refl)),
    record {
      graph = q.graph;
      phase = q.phase;
      stack = λ v m. q.stack v (subst (λ l. v ∈ l) (sym e) (inr m));
      remembered = q.remembered;
    },
  )

  -- What is still to do: the references that are not yet seen, and the ids that wait.
  abbrev left : Shared → List ℕ → ℕ
  left s black = unscanned refs ids black + length s.stack.objects + length s.remembered.inner

  abbrev SmallerReturn : ℕ → Type 0
  SmallerReturn bound =
      (s : Shared) (b : List ℕ) → Quiet s → left s b < bound → Returns s (draining b)

  from_finishing :
      (s : Shared) (b : List ℕ)
      → s.stack.objects ≡ []
      → s.remembered.inner ≡ []
      → Returns s (finishing b)
  unfolding work work_for
  from_finishing s b e r =
      let s1 = record s { remembered = record { inner = [] } } in
      let drained : work s (finishing b) ≡ ok (s1, confirming b []) =
        ap (λ l. ok (s1, confirming b l)) r in
      let checked : work s1 (confirming b []) ≡ ok (s1, finished b) = ground (arith, e) in
      after s (finishing b) drained (after s1 (confirming b []) checked (0, s1, b, refl))

  from_pushing :
      (bound : ℕ)
      → SmallerReturn bound
      → (s : Shared) (b cs : List ℕ) → Quiet s
      → Subset cs ids
      → left s b + length cs < bound
      → Returns s (pushing b cs)
  unfolding work push
  from_pushing bound ih s b [] q sub lt = after s (pushing b []) refl (ih s b q (omega arith))
  from_pushing bound ih s b (c ∷ cs) q sub lt = elim (Bool-cases (contains ℕ_discrete b c)) [
    | inl old ↦
        after s (pushing b (c ∷ cs)) (rw old refl)
          (from_pushing bound ih s b cs q (λ v m. sub v (inr m)) (omega arith))
    | inr new ↦
        let s' = record s { stack = push s.stack c } in
        let q' : Quiet s' = record {
          graph = q.graph;
          phase = q.phase;
          stack = λ v m. ⊎_elim (λ e. sub v (inl e)) (q.stack v) m;
          remembered = q.remembered;
        } in
        after s (pushing b (c ∷ cs)) (rw new refl)
          (from_pushing bound ih s' b cs q' (λ v m. sub v (inr m)) (omega arith))
  ]

  from_scanning :
      (bound : ℕ)
      → SmallerReturn bound
      → (s : Shared) (b : List ℕ) (id : ℕ) → Quiet s
      → id ∈ ids
      → left s b < bound
      → Returns s (scanning b id)
  unfolding work
  from_scanning bound ih s b id q m lt = elim (Bool-cases (contains ℕ_discrete b id)) [
    | inl old ↦ after s (scanning b id) (rw old refl) (ih s b q lt)
    | inr new ↦
        let white : ¬ (id ∈ b) = ground (arith, contains_iff ℕ_discrete b id) in
        let less = unscanned-scan refs ids b id m white in
        let scanned : work s (scanning b id) ≡ ok (s, pushing (id ∷ b) (refs id)) =
          rw new (ap (λ f. ok (s, pushing (id ∷ b) (f id))) q.graph) in
        after s (scanning b id) scanned
          (from_pushing bound ih s (id ∷ b) (refs id) q (closed id m) (omega (arith, less)))
  ]

  from_popping :
      (bound : ℕ)
      → SmallerReturn bound
      → (s : Shared) (b : List ℕ) → Quiet s
      → s.remembered.inner ≡ []
      → left s b ≤ bound
      → Returns s (popping b)
  unfolding work
  from_popping bound ih s b q r le = elim (List-cases s.stack.objects) [
    | inl e ↦
        let popped : work s (popping b) ≡ ok (s, deciding b) = ground arith in
        let decided : work s (deciding b) ≡ ok (s, finishing b) = rw (q.phase, off) refl in
        after s (popping b) popped (after s (deciding b) decided (from_finishing s b e r))
    | inr (id, rest, e) ↦
        let s' = record s { stack = record { objects = rest } } in
        let popped : work s (popping b) ≡ ok (s', scanning b id) = ground arith in
        let (head, q') = Quiet-pop s e q in
        after s (popping b) popped
          (from_scanning bound ih s' b id q' head (omega (arith, ap length e)))
  ]

  from_refilling :
      (bound : ℕ)
      → SmallerReturn bound
      → (s : Shared) (b drained : List ℕ) → Quiet s
      → Subset drained ids
      → s.remembered.inner ≡ []
      → left s b + length drained ≤ bound
      → Returns s (refilling b drained)
  unfolding work
  from_refilling bound ih s b drained q sub r le =
      let s' = record s { stack = push_all s.stack drained } in
      let q' = Quiet-push_all s drained q sub in
      after s (refilling b drained) refl
        (from_popping bound ih s' b q' r (omega (arith, length-push_all s.stack drained)))

  from_draining : (bound : ℕ) → SmallerReturn bound
  unfolding work
  from_draining zero s b q lt = absurd (omega arith)
  from_draining (suc bound) s b q lt = after s (draining b) refl (
      from_refilling bound (from_draining bound) (record s { remembered = record { inner = [] } }) b
        s.remembered.inner (Quiet-drain s q) q.remembered refl (omega arith))

  any_draining : (s : Shared) (b : List ℕ) → Quiet s → Returns s (draining b)
  any_draining s b q = from_draining (suc (left s b)) s b q (omega arith)

  any_confirming :
      (s : Shared) (b drained : List ℕ)
      → Quiet s
      → Subset drained ids
      → Returns s (confirming b drained)
  unfolding work work_for
  any_confirming s b [] q sub = elim (Bool-cases (is_empty s.stack)) [
    | inl over ↦ after s (confirming b []) (rw over refl) (0, s, b, refl)
    | inr more ↦ after s (confirming b []) (rw more refl) (any_draining s b q)
  ]
  any_confirming s b (id ∷ drained) q sub =
      after s (confirming b (id ∷ drained)) refl
        (any_draining _ b (Quiet-push_all s (id ∷ drained) q sub))

  any_finishing : (s : Shared) (b : List ℕ) → Quiet s → Returns s (finishing b)
  unfolding work
  any_finishing s b q =
      after s (finishing b) refl
        (any_confirming _ b s.remembered.inner (Quiet-drain s q) q.remembered)

  any_deciding : (s : Shared) (b : List ℕ) → Quiet s → Returns s (deciding b)
  unfolding work
  any_deciding s b q = after s (deciding b) (rw (q.phase, off) refl) (any_finishing s b q)

  any_scanning : (s : Shared) (b : List ℕ) (id : ℕ) → Quiet s → id ∈ ids → Returns s (scanning b id)
  any_scanning s b id q m =
      from_scanning (suc (left s b)) (from_draining (suc (left s b))) s b id q m (omega arith)

  any_popping : (s : Shared) (b : List ℕ) → Quiet s → Returns s (popping b)
  unfolding work
  any_popping s b q = elim (List-cases s.stack.objects) [
    | inl e ↦
        let popped : work s (popping b) ≡ ok (s, deciding b) = ground arith in
        after s (popping b) popped (any_deciding s b q)
    | inr (id, rest, e) ↦
        let s' = record s { stack = record { objects = rest } } in
        let popped : work s (popping b) ≡ ok (s', scanning b id) = ground arith in
        let (head, q') = Quiet-pop s e q in
        after s (popping b) popped (any_scanning s' b id q' head)
  ]

  pub any_worker : (s : Shared) (k : Worker) → Quiet s → Subset (in_hand k) ids → Returns s k
  unfolding work work_for
  any_worker s (draining b) q sub = any_draining s b q
  any_worker s (refilling b drained) q sub =
      after s (refilling b drained) refl (any_popping _ b (Quiet-push_all s drained q sub))
  any_worker s (popping b) q sub = any_popping s b q
  any_worker s (scanning b id) q sub = any_scanning s b id q (sub id (inl refl))
  any_worker s (pushing b cs) q sub =
      let bound = suc (left s b + length cs) in
      from_pushing bound (from_draining bound) s b cs q sub (omega arith)
  any_worker s (deciding b) q sub = any_deciding s b q
  any_worker s (finishing b) q sub = any_finishing s b q
  any_worker s (confirming b drained) q sub = any_confirming s b drained q sub
  any_worker s (finished b) q sub = (0, s, b, refl)
