-- ===== src/SafeTreiber/Returns.antt =====
-- The end of a `pop` of src/safe_treiber.rs that runs while the other threads stand still.
mod Runs
use samsara.Prelude.{
  ℕ, zero, suc, ◌+◌, ◌≡◌, ◌≢◌, refl, none, some, Bool, true, false, List, [], ◌∷◌, ◌++◌, ◌∈◌,
  mem-append, IsDistinct, length, leb, get_elem?, get_elem?_of_lt_length, lt_length_of_get_elem?,
  set, inl, inr, Bool-cases, List-cases, arith, subst, sym, ap, ◌∙◌,
}
use samsara.Memory.{null, Effect, done, panics, undefined, ◌>>=◌}
use samsara.Memory.Chain.{Chain, addresses}
use samsara.Hazard.{Slot, HazardRegistry, protect, clear, vacate, published}
use samsara.Lifo.{Event}
use samsara.Lifo.Machine.{World}
use samsara.Lifo.Machine
use samsara.Lifo.Simulation.{Reaches-Linked}
use samsara.SafeTreiber.{
  Shared, Thread, unlocked, reading_use, retire, retire_threshold, reclaim, advance, acquiring,
  pop_load, pop_protect, pop_verify, pop_next, pop_cas, pop_value, pop_clear, pop_drop, pop_vacate,
  pop_retire, pop_reclaim, pop_done, safe_treiber,
}
use samsara.SafeTreiber.Alone.{run_alone}
use samsara.SafeTreiber.Reclaim.{reclaim_for, scans, retains}
use samsara.SafeTreiber.Invariant.{stacked, Ghost, Sound, invariant}
use samsara.SafeTreiber.Queue.{IsDistinct-snoc}
use samsara.SafeTreiber.Correct.{laws}
use samsara.SafeTreiber.Returns.Runs.{Comes, stays, steps_on, joins, passes_over}

-- `retire`, with the lock free.
retires :
    (s : Shared) (head value : ℕ)
    → s.pass ≡ unlocked
    → IsDistinct s.retired
    → ((a : ℕ) → a ∈ s.retired → s.heap a ≢ none)
    → ¬ (head ∈ s.retired)
    → s.heap head ≢ none
    → (s' : Shared) × Comes s (pop_retire head value) s' (pop_done (some value))
      × (s'.pass ≡ unlocked)
      × (s'.head ≡ s.head)
unfolding advance retire
retires s head value free distinct live new here =
    let queue = s.retired ++ head ∷ [] in
    elim (Bool-cases (leb retire_threshold (length queue))) [
      | inl long ↦
          let s1 : Shared = record s { retired = queue; pass = reading_use 0 [] } in
          let (n, over) =
            scans s.hazards.slots 0 [] s1 (λ j. ap (get_elem? s.hazards.slots) (omega arith))
              (retains (published s.hazards.slots) queue s.kept s1
                (IsDistinct-snoc s.retired head distinct new)
                (λ a m. ground (arith, m, mem-append a s.retired (head ∷ []), live a, here))) in
          (
            _,
            steps_on s (pop_retire head value) s1 (pop_reclaim value) (ground (arith, free, long))
                (passes_over n s1 value over),
            refl,
            refl,
          )
      | inr short ↦
          let s1 : Shared = record s { retired = queue } in
          (
            s1,
            steps_on s (pop_retire head value) s1 (pop_done (some value))
                (ground (arith, free, short)) (stays s1 (pop_done (some value))),
            free,
            refl,
          )
    ]

-- From the loop of `pop` to `retire`.
pops :
    (s : Shared) (idx value next : ℕ)
    → s.head ≢ null
    → s.heap s.head ≡ some (record { value = value; next = next })
    → (r : HazardRegistry) × Comes s
        (pop_load idx)
        (record s { head = next; hazards = r })
        (pop_retire s.head value)
unfolding advance
pops s idx value next some_head here =
    let h1 = protect s.hazards idx s.head in
    let h2 = clear h1 idx in
    let h3 = clear h2 idx in
    let a : Shared = record s { hazards = h1 } in
    let b : Shared = record a { head = next } in
    let c : Shared = record b { hazards = h2 } in
    let d : Shared = record b { hazards = h3 } in
    let e : Shared = record b { hazards = vacate h3 idx } in
    (
      vacate h3 idx,
      steps_on s (pop_load idx) s (pop_protect idx s.head) (ground (arith, some_head)) (
          steps_on s (pop_protect idx s.head) a (pop_verify idx s.head) refl (
            steps_on a (pop_verify idx s.head) a (pop_next idx s.head) (ground arith) (
              steps_on a (pop_next idx s.head) a (pop_cas idx s.head next) (ground (arith, here)) (
                steps_on a (pop_cas idx s.head next) b (pop_value idx s.head) (ground arith) (
                  steps_on b (pop_value idx s.head) b (pop_clear idx s.head value)
                    (ground (arith, here))
                    (steps_on b (pop_clear idx s.head value) c (pop_drop idx s.head value) refl (
                      steps_on c (pop_drop idx s.head value) d (pop_vacate idx s.head value) refl (
                        steps_on d (pop_vacate idx s.head value) e (pop_retire s.head value) refl
                          (stays e (pop_retire s.head value)))))))))),
    )

-- The loop of `acquire` from slot `j` on, with a free slot `m` places after it.
acquires :
    (m j : ℕ) (s : Shared) (slot : Slot)
    → get_elem? s.hazards.slots (j + m) ≡ some slot
    → slot.in_use ≡ false
    → (idx : ℕ) × (r : HazardRegistry) × Comes s
        (acquiring j)
        (record s { hazards = r })
        (pop_load idx)
unfolding advance
acquires zero j s slot at_m free =
    let r : HazardRegistry = record {
      slots = set s.hazards.slots j (record slot { in_use = true });
    } in
    let here : get_elem? s.hazards.slots j ≡ some slot =
      subst (λ k. get_elem? s.hazards.slots k ≡ some slot) (omega arith) at_m in
    (
      j,
      r,
      steps_on s (acquiring j) (record s { hazards = r }) (pop_load j)
          (rw (here, free, advance) refl) (stays (record s { hazards = r }) (pop_load j)),
    )
acquires (suc m) j s slot at_m free =
    let (first, here) = get_elem?_of_lt_length s.hazards.slots j (
      let inside = lt_length_of_get_elem? s.hazards.slots (j + suc m) at_m in
      omega (arith, inside)) in
    elim (Bool-cases first.in_use) [
      | inr unused ↦
          let r : HazardRegistry = record {
            slots = set s.hazards.slots j (record first { in_use = true });
          } in
          (
            j,
            r,
            steps_on s (acquiring j) (record s { hazards = r }) (pop_load j)
                (rw (here, unused, advance) refl) (stays (record s { hazards = r }) (pop_load j)),
          )
      | inl used ↦
          let at_next : get_elem? s.hazards.slots (j + 1 + m) ≡ some slot =
            subst (λ k. get_elem? s.hazards.slots k ≡ some slot) (omega arith) at_m in
          let (idx, r, comes) = acquires m (j + 1) s slot at_next free in
          (
            idx,
            r,
            steps_on s (acquiring j) s (acquiring (j + 1)) (rw (here, used, advance) refl) comes,
          )
    ]

IsDistinct-suffix : (xs ys : List ℕ) → IsDistinct (xs ++ ys) → IsDistinct ys
IsDistinct-suffix [] ys d = d
IsDistinct-suffix (x ∷ xs) ys (_, d) = IsDistinct-suffix xs ys d

-- The first node, with its value and its link.
first_node :
    (s : Shared) (g : Ghost) (xs : List ℕ)
    → Sound s g xs
    → s.head ≢ null
    → (value next : ℕ) × (s.heap s.head ≡ some (record { value = value; next = next }))
      × (g.owner s.head ≡ stacked)
first_node s g xs sound some_head = elim (List-cases g.cells) [
  | inl e ↦ absurd (some_head (subst (Chain s.heap s.head) e sound.chain))
  | inr ((a, v), rest, e) ↦
      let (at_a, _, next, here, _) = subst (Chain s.heap s.head) e sound.chain in
      let owned : g.owner a ≡ stacked =
        sound.in_stack a (subst (λ l. a ∈ addresses l) (sym e) (inl refl)) in
      (v, next, ap s.heap at_a ∙ here, ap g.owner at_a ∙ owned)
]

-- A pop of a non-empty stack returns when it runs while the other threads stand still, wherever they
-- stand in their calls, if the mutex and a hazard slot are free: it takes the first node off the stack,
-- returns its value, and gives the lock back if it has started a pass.
pub pop_returns :
    {history : List Event} {w : World safe_treiber}
    → Machine.Reaches safe_treiber history w
    → w.shared.pass ≡ unlocked
    → w.shared.head ≢ null
    → (idx : ℕ) (slot : Slot) → get_elem? w.shared.hazards.slots idx ≡ some slot
    → slot.in_use ≡ false
    → (value next : ℕ) × (w.shared.heap w.shared.head
        ≡ some (record { value = value; next = next }))
      × (n : ℕ) × (s' : Shared) × (run_alone n w.shared (acquiring 0)
          ≡ done (s', pop_done (some value)))
      × (s'.head ≡ next)
      × (s'.pass ≡ unlocked)
pop_returns {w = w} r unlocked_now some_head idx slot at_idx free =
    let l = Reaches-Linked invariant laws r in
    let s = w.shared in
    let sound = l.sound in
    let in_queue =
      λ (a : ℕ) (m : a ∈ s.retired). sound.in_queue a ((mem-append a s.kept s.retired).1 (inr m)) in
    let (value, next, here, owned) = first_node s l.ghost l.lifo.contents sound some_head in
    let (k, slots1, acquired) =
      acquires idx 0 s slot
        (subst (λ j. get_elem? s.hazards.slots j ≡ some slot) (omega arith) at_idx) free in
    let s1 : Shared = record s { hazards = slots1 } in
    let (slots2, popped) = pops s1 k value next some_head here in
    let s2 : Shared = record s1 { head = next; hazards = slots2 } in
    let (s', retired, open_lock, same_head) =
      retires s2 s.head value unlocked_now (IsDistinct-suffix s.kept s.retired sound.once)
        (λ a m gone. let q = in_queue a m in let q' = sound.unowned a gone in cc)
        (λ m. let q = in_queue s.head m in cc) (λ gone. cc) in
    let (n, runs) =
      joins acquired.0 s (acquiring 0) s1 (pop_load k) acquired.1
        (joins popped.0 s1 (pop_load k) s2 (pop_retire s.head value) popped.1 retired) in
    (value, next, here, n, s', runs, same_head, open_lock)
