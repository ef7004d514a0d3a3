-- ===== src/Concurrent/Invariant/Returns.antt =====
-- Where the worker of src/concurrent.rs returns.
use samsara.Prelude.{
  ◌≢◌, List-cases, false, Outcome-cases, ◌≡◌, refl, inl, inr, [], ◌∷◌, ok, contains, ℕ_discrete,
  arith, panic, Bool-cases, Outcome, subst,
}
use samsara.Barrier.{Phase, is_marking}
use samsara.Atomic.{AtomicPhase, load}
use samsara.Concurrent.{
  Shared, Worker, draining, refilling, popping, scanning, pushing, deciding, finishing, confirming,
  finished, work,
}
use samsara.Concurrent.Invariant.{Ends}

abbrev pub EndsTo : Outcome (Shared × Worker) → Type 0
EndsTo panic = Unit
EndsTo (ok (s', k')) = Ends s' k'

left_marking : (ph : AtomicPhase) (p : Phase) → load ph ≡ ok p → is_marking p ≡ false → ph.byte ≢ 1
unfolding load
left_marking ph p e off b = ground arith

-- The worker ends only after the phase has left `Marking` and the queues are empty.
pub work-Ends : (s : Shared) (k : Worker) → Ends s k → EndsTo (work s k)
unfolding work
work-Ends s (draining b) h = tt
work-Ends s (refilling b ids) h = tt
work-Ends s (popping b) h = elim (List-cases s.stack.objects) [
  | inl e ↦ rw e tt
  | inr (id, rest, e) ↦ rw e tt
]
work-Ends s (scanning b id) h = elim (Bool-cases (contains ℕ_discrete b id)) [
  | inl e ↦ rw e tt
  | inr e ↦ rw e tt
]
work-Ends s (pushing b []) h = tt
work-Ends s (pushing b (c ∷ cs)) h = tt
work-Ends s (deciding b) h = elim (Outcome-cases (load s.phase)) [
  | inl fails ↦ rw fails tt
  | inr (p, e) ↦ elim (Bool-cases (is_marking p)) [
    | inl on ↦ rw (e, on) tt
    | inr off ↦ rw (e, off) (left_marking s.phase p e off)
  ]
]
work-Ends s (finishing b) h = (h, refl)
work-Ends s (confirming b []) h = elim (List-cases s.stack.objects) [
  | inl e ↦
      subst EndsTo (let q : ok (s, finished b) ≡ work s (confirming b []) = ground arith in q)
        (h.0, h.1, e)
  | inr (id, rest, e) ↦
      subst EndsTo (let q : ok (s, draining b) ≡ work s (confirming b []) = ground arith in q) tt
]
work-Ends s (confirming b (id ∷ ids)) h = tt
work-Ends s (finished b) h = h
