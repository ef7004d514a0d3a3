-- ===== src/SafeTreiber/Returns/Runs.antt =====
-- Runs of one thread of src/safe_treiber.rs, one after the other.
use samsara.Prelude.{ℕ, zero, suc, ◌≡◌, refl, some, Bool, true, false, arith, subst, ap, ◌∙◌}
use samsara.Memory.{Effect, done, panics, undefined, ◌>>=◌}
use samsara.SafeTreiber.{Shared, Thread, reclaim, advance, pop_reclaim, pop_done}
use samsara.SafeTreiber.Alone.{run_alone}
use samsara.SafeTreiber.Reclaim.{reclaim_for}

-- Some steps of the thread lead from the one point to the other.
abbrev pub Comes : Shared → Thread → Shared → Thread → Type 0
Comes s t s' t' = (n : ℕ) × (run_alone n s t ≡ done (s', t'))

pub stays : (s : Shared) (t : Thread) → Comes s t s t
unfolding run_alone
stays s t = (0, refl)

pub steps_on :
    (s : Shared) (t : Thread) (s1 : Shared) (t1 : Thread) {s' : Shared} {t' : Thread}
    → advance s t ≡ done (s1, t1)
    → Comes s1 t1 s' t'
    → Comes s t s' t'
unfolding run_alone
steps_on s t s1 t1 e (n, comes) = (suc n, ap (λ o. o >>= λ (s', t'). run_alone n s' t') e ∙ comes)

-- One run after the other.
pub joins :
    (n : ℕ) (s : Shared) (t : Thread) (s1 : Shared) (t1 : Thread) {s' : Shared} {t' : Thread}
    → run_alone n s t ≡ done (s1, t1)
    → Comes s1 t1 s' t'
    → Comes s t s' t'
unfolding run_alone
joins zero s t s1 t1 {s'} {t'} e comes =
    let (same_s, same_t) = let q : (s1 ≡ s) × (t1 ≡ t) = ground (arith, e) in q in
    subst (λ x. Comes x t s' t') same_s (subst (λ y. Comes s1 y s' t') same_t comes)
joins (suc n) s t s1 t1 {s'} {t'} e comes =
    go (λ a b e. joins n a b s1 t1 e comes) (advance s t) refl e
  where
    go :
        ((a : Shared) (b : Thread) → run_alone n a b ≡ done (s1, t1) → Comes a b s' t')
        → (o : Effect (Shared × Thread)) → advance s t ≡ o
        → (o >>= λ (a, b). run_alone n a b) ≡ done (s1, t1)
        → Comes s t s' t'
    go rest (done (a, b)) at_o e = steps_on s t a b at_o (rest a b e)
    go rest panics at_o e = cc
    go rest undefined at_o e = cc

-- The pass that `retire` has started.
pub passes_over :
    (n : ℕ) (s : Shared) (value : ℕ) {s' : Shared}
    → reclaim_for n s ≡ done (s', true)
    → Comes s (pop_reclaim value) s' (pop_done (some value))
unfolding reclaim_for advance
passes_over zero s value e = cc
passes_over (suc n) s value {s'} e = go (λ a e. passes_over n a value e) (reclaim s) refl e
  where
    go :
        ((a : Shared)
          → reclaim_for n a ≡ done (s', true)
          → Comes a (pop_reclaim value) s' (pop_done (some value)))
        → (o : Effect (Shared × Bool)) → reclaim s ≡ o
        → (o >>= λ (a, over). elim over [ true ↦ done (a, true) | false ↦ reclaim_for n a ])
          ≡ done (s', true)
        → Comes s (pop_reclaim value) s' (pop_done (some value))
    go rest (done (a, true)) at_o e =
        let same : a ≡ s' = ground (arith, e) in
        subst (λ x. Comes s (pop_reclaim value) x (pop_done (some value))) same
          (steps_on s (pop_reclaim value) a (pop_done (some value)) (rw at_o refl)
            (stays a (pop_done (some value))))
    go rest (done (a, false)) at_o e =
        steps_on s (pop_reclaim value) a (pop_reclaim value) (rw at_o refl) (rest a e)
    go rest panics at_o e = cc
    go rest undefined at_o e = cc
