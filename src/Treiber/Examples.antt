-- ===== src/Treiber/Examples.antt =====
-- The unit tests of src/treiber.rs as evaluations, and its theorems at a concrete run.
use samsara.Prelude.{
  ℕ, zero, suc, ◌*◌, ◌≡◌, ◌≢◌, refl, Option, none, some, Bool, true, false, List, [], ◌∷◌, ◌∈◌,
  arith,
}
use samsara.Memory.{null, Node, assign, Effect, done, panics, undefined, ◌>>=◌}
use samsara.Memory.Chain.{Chain, addresses, values}
use samsara.Lifo.{Lifo, Event}
use samsara.Lifo
use samsara.Lifo.Machine.{calls_push, calls_pop}
use samsara.Lifo.Schedule.{Run, new_run, then_step, steps}
use samsara.Treiber.{
  Shared, Thread, new_stack, pop_load, pop_next, pop_done, advance, is_empty, treiber,
}
use samsara.Treiber.Alone.{run_alone, push, pop, drop, pop_races, drop_lem}
use samsara.Treiber.Single.{one_popper_linearizable, one_popper_defined}

-- `push(value)` alone, with its node at `new`.
push_at : Shared → ℕ → ℕ → Effect Shared
unfolding push run_alone advance
push_at s new value =
    push (record s { heap = assign s.heap new (some (record { value = value; next = null })) }) new
    >>= λ (s', t). done s'

-- What a `pop` returned.
returned : Thread → Option ℕ
returned (pop_done r) = r
returned _ = none

-- fn single_thread_lifo_order, with the nodes at 16, 32 and 48.
single_thread_lifo_order : Effect (List (Option ℕ))
unfolding push_at push pop run_alone advance returned
single_thread_lifo_order = push_at new_stack 16 1 >>= λ s1. push_at s1 32 2 >>= λ s2.
    push_at s2 48 3 >>= λ s3. pop s3 >>= λ (s4, a). pop s4 >>= λ (s5, b). pop s5 >>= λ (s6, c).
    pop s6 >>= λ (s7, d). done (returned a ∷ returned b ∷ returned c ∷ returned d ∷ [])

lifo_order : single_thread_lifo_order ≡ done (some 3 ∷ some 2 ∷ some 1 ∷ none ∷ [])
unfolding single_thread_lifo_order
lifo_order = refl

-- fn pop_on_empty_returns_none
pop_on_empty_returns_none : Bool × Effect (Option ℕ)
unfolding pop run_alone advance returned
pop_on_empty_returns_none = (is_empty new_stack, pop new_stack >>= λ (s, t). done (returned t))

pops_none : pop_on_empty_returns_none ≡ (true, done none)
unfolding pop_on_empty_returns_none
pops_none = refl

-- The stack after the pushes of `n`, …, 1, each node at 16 times its value.
pushes : ℕ → Shared → Effect Shared
unfolding push_at push run_alone advance
pushes zero s = done s
pushes (suc n) s = push_at s (16 * suc n) (suc n) >>= pushes n

is_live : Option Node → Bool
is_live none = false
is_live (some n) = true

-- fn drop_drains_remaining_nodes: whether the first, the middle and the last node are left.
drop_drains_remaining_nodes : Effect (List Bool)
unfolding is_live pushes push_at push pop drop run_alone advance
drop_drains_remaining_nodes = pushes 1000 new_stack >>= λ s. elim (drop 1001 s) [
  | none ↦ panics
  | some dropped ↦ dropped >>= λ s'. done (
      is_live (s'.heap 16)
      ∷ is_live (s'.heap 8000)
      ∷ is_live (s'.heap 16000)
      ∷ is_live (s.heap 16000)
      ∷ [])
]

drains : drop_drains_remaining_nodes ≡ done (false ∷ false ∷ false ∷ true ∷ [])
unfolding drop_drains_remaining_nodes
drains = refl

-- Only thread 1 pops.
abbrev OnlyOne : ℕ → Type 0
OnlyOne i = i ≡ 1

two_at_most : (i j : ℕ) → OnlyOne i → OnlyOne j → i ≡ j
two_at_most i j p q = omega arith

-- Threads 0 and 2 push 7 and 9; thread 1 pops between.
before_push : Run (treiber OnlyOne)
before_push = then_step new_run (calls_push 0 7 refl (16, omega arith, refl, refl, refl))

second_push : Run (treiber OnlyOne)
unfolding steps advance before_push
second_push =
    then_step (steps 0 2 before_push) (calls_push 2 9 refl (32, omega arith, refl, refl, refl))

popping_run : Run (treiber OnlyOne)
unfolding steps advance second_push before_push
popping_run = then_step (steps 0 1 (steps 2 1 second_push)) (calls_pop 1 refl (refl, refl))

-- Thread 1 has loaded `head` when thread 2 pushes: its compare-and-swap fails, and it starts again.
contended : Run (treiber OnlyOne)
unfolding steps advance popping_run second_push before_push
contended = steps 1 6 (steps 2 6 (steps 1 2 popping_run))

contended_returns : contended.last.threads 1 ≡ pop_done (some 9)
unfolding contended
contended_returns = refl

one_popper_linearizable_example :
    (l : Lifo) × Lifo.Reaches contended.history l
    × ((cells : List (ℕ × ℕ)) × Chain contended.last.shared.heap contended.last.shared.head cells
        × (l.contents ≡ values cells))
one_popper_linearizable_example = one_popper_linearizable OnlyOne two_at_most contended.reach

one_popper_defined_example : advance contended.last.shared (contended.last.threads 1) ≢ undefined
one_popper_defined_example = one_popper_defined OnlyOne two_at_most contended.reach 1

-- One node, 5 at address 16.
abbrev single : Shared
single = record {
  head = 16;
  heap = assign (λ _. none) 16 (some (record { value = 5; next = null }));
}

pop_races_example :
    (advance single pop_load ≡ done (single, pop_next 16))
    × (s' : Shared) × (pop single ≡ done (s', pop_done (some 5)))
    × (advance s' (pop_next 16) ≡ undefined)
pop_races_example = pop_races single 5 null (omega arith) refl

abbrev one_cell : List (ℕ × ℕ)
one_cell = (16, 5) ∷ []

drop_lem_example :
    (s' : Shared) × (drop 2 single ≡ some (done s'))
    × (s'.head ≡ null)
    × ((a : ℕ) → a ∈ addresses one_cell → s'.heap a ≡ none)
    × ((a : ℕ) → ¬ (a ∈ addresses one_cell) → s'.heap a ≡ single.heap a)
drop_lem_example =
    drop_lem one_cell 2 single (refl, omega arith, null, refl, refl) (λ m. m, tt) (omega arith)
