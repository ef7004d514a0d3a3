-- ===== src/Treiber/Threads.antt =====
-- The unit tests of src/treiber.rs that spawn threads, each as one order of the steps of two threads with
-- fewer calls.
use samsara.Prelude.{ℕ, zero, suc, ◌≡◌, refl, some, Bool, true, List, [], ◌∷◌, ◌++◌, length, arith}
use samsara.Memory.{Effect, done, ◌>>=◌}
use samsara.Lifo.{Event, returned_pop}
use samsara.Lifo.Machine.{calls_push, calls_pop, returns_push, returns_pop}
use samsara.Lifo.Schedule.{Run, new_run, then_step, steps}
use samsara.Treiber.{Shared, pop_done, advance, is_empty, treiber}
use samsara.Treiber.Alone.{run_alone, pop}

abbrev AnyPops : ℕ → Type 0
AnyPops i = Unit

-- What the calls of `pop` have returned, the newest first.
popped : List Event → List ℕ
popped [] = []
popped (returned_pop i (some v) ∷ history) = v ∷ popped history
popped (_ ∷ history) = popped history

-- `while let Some(v) = s.pop()`, at most `n` times.
drained : ℕ → Shared → Effect (List ℕ)
unfolding pop run_alone advance
drained zero s = done []
drained (suc n) s = pop s >>= λ (s', t). elim t [
  | pop_done (some v) ↦ drained n s' >>= λ values. done (v ∷ values)
  | _ ↦ done []
]

-- Thread 1 pushes between the load and the compare-and-swap of thread 0, which starts again.
push_starts : Run (treiber AnyPops)
push_starts = then_step new_run (calls_push 0 0 refl (16, omega arith, refl, refl, refl))

pushes_overlap : Run (treiber AnyPops)
unfolding steps advance push_starts
pushes_overlap =
    then_step (steps 0 1 push_starts) (calls_push 1 1000 refl (32, omega arith, refl, refl, refl))

pushed : Run (treiber AnyPops)
unfolding steps advance pushes_overlap push_starts
pushed =
    then_step (then_step (steps 0 5 (steps 1 3 pushes_overlap)) (returns_push 0 refl))
      (returns_push 1 refl)

-- fn many_writers_one_reader_no_loss
many_writers_one_reader_no_loss : Effect (List ℕ)
unfolding pushed pushes_overlap push_starts steps drained pop run_alone advance
many_writers_one_reader_no_loss = drained 3 pushed.last.shared

no_loss : many_writers_one_reader_no_loss ≡ done (0 ∷ 1000 ∷ [])
unfolding many_writers_one_reader_no_loss
no_loss = refl

-- Thread 1 pops while thread 0, which pops too, is before its compare-and-swap.
both_popped : Run (treiber AnyPops)
unfolding pushed pushes_overlap push_starts steps advance
both_popped =
    let start =
      then_step (then_step pushed (calls_pop 0 refl (tt, refl))) (calls_pop 1 refl (tt, refl)) in
    then_step
      (then_step (steps 0 20 (steps 1 20 (steps 0 2 start))) (returns_pop 0 (some 1000) refl))
      (returns_pop 1 (some 0) refl)

-- fn concurrent_push_and_pop_drain_to_empty: how many were popped, and whether the stack is empty.
concurrent_push_and_pop_drain_to_empty : ℕ × Bool
unfolding both_popped pushed pushes_overlap push_starts steps popped advance
concurrent_push_and_pop_drain_to_empty =
    (length (popped both_popped.history), is_empty both_popped.last.shared)

drains_to_empty : concurrent_push_and_pop_drain_to_empty ≡ (2, true)
unfolding concurrent_push_and_pop_drain_to_empty
drains_to_empty = refl

-- Thread 0 pops while thread 1 pushes.
mixed_start : Run (treiber AnyPops)
unfolding pushed pushes_overlap push_starts steps advance
mixed_start =
    then_step (steps 0 1 (then_step pushed (calls_pop 0 refl (tt, refl))))
      (calls_push 1 1001 refl (48, omega arith, refl, refl, refl))

mixed : Run (treiber AnyPops)
unfolding mixed_start pushed pushes_overlap push_starts steps advance
mixed =
    then_step (steps 0 20 (steps 1 2 (steps 0 2 (steps 1 1 mixed_start))))
      (returns_pop 0 (some 0) refl)

-- fn interleaved_push_pop_under_contention: what was popped, and what is left.
interleaved_push_pop_under_contention : Effect (List ℕ)
unfolding mixed mixed_start pushed pushes_overlap push_starts steps popped drained pop run_alone
    advance
interleaved_push_pop_under_contention =
    drained 4 (steps 1 5 mixed).last.shared >>= λ values. done (popped mixed.history ++ values)

no_duplicates : interleaved_push_pop_under_contention ≡ done (0 ∷ 1001 ∷ 1000 ∷ [])
unfolding interleaved_push_pop_under_contention
no_duplicates = refl
