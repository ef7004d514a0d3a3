-- ===== src/SafeTreiber/Examples.antt =====
-- The unit tests of src/safe_treiber.rs as evaluations, and its theorems at a concrete run.
use samsara.Prelude.{
  ℕ, zero, suc, ◌*◌, if◌then◌else◌, ◌≡◌, ◌≢◌, refl, Option, none, some, Bool, true, false, List, [],
  ◌∷◌, ◌++◌, ◌∈◌, IsDistinct, length, ℕ_discrete, arith,
}
use samsara.Memory.{null, Node, assign, Effect, done, undefined, ◌>>=◌}
use samsara.Memory.Chain.{Chain, addresses, values}
use samsara.Lifo.{Lifo, Event}
use samsara.Lifo
use samsara.Lifo.Machine.{calls_push, calls_pop, calls_other}
use samsara.Lifo.Schedule.{Run, new_run, then_step, steps}
use samsara.Hazard.{new_registry, published, snapshot}
use samsara.SafeTreiber.{
  Shared, Thread, acquiring, new_stack, unlocked, reading_use, pop_done, retire, reclaim,
  lock_for_force, advance, safe_treiber,
}
use samsara.SafeTreiber.Alone.{run_alone, push, pop, force, is_some, free_all, drop}
use samsara.SafeTreiber.Reclaim.{Ends, reclaim_lem}
use samsara.SafeTreiber.Correct.{safe_linearizable, safe_defined}
use samsara.SafeTreiber.Returns.{pop_returns}
use samsara.SafeTreiber.Exclusive.{slot_of, slot_exclusive, retired_lem}

-- `push(value)` alone, with its node at `new`.
push_at : Shared → ℕ → ℕ → Effect Shared
unfolding push run_alone advance
push_at s new value =
    push (record s { heap = assign s.heap new (some (record { value = value; next = null })) }) new
    >>= λ (s', t). done s'

-- What a `pop` returned.
returned : Thread → Option ℕ
returned (pop_done r) = r
returned _ = none

-- fn single_thread_lifo_order, with the nodes at 16, 32 and 48.
single_thread_lifo_order : Effect (List (Option ℕ))
unfolding new_stack push_at push pop run_alone advance returned
single_thread_lifo_order = push_at new_stack 16 1 >>= λ s1. push_at s1 32 2 >>= λ s2.
    push_at s2 48 3 >>= λ s3. pop 12 s3 >>= λ (s4, a). pop 12 s4 >>= λ (s5, b).
    pop 12 s5 >>= λ (s6, c).
    pop 12 s6 >>= λ (s7, d). done (returned a ∷ returned b ∷ returned c ∷ returned d ∷ [])

lifo_order : single_thread_lifo_order ≡ done (some 3 ∷ some 2 ∷ some 1 ∷ none ∷ [])
unfolding single_thread_lifo_order new_registry retire
lifo_order = refl

-- The stack after the pushes of `n`, …, 1, each node at 16 times its value.
pushes : ℕ → Shared → Effect Shared
unfolding push_at push run_alone advance
pushes zero s = done s
pushes (suc n) s = push_at s (16 * suc n) (suc n) >>= pushes n

pops : ℕ → Shared → Effect Shared
unfolding pop run_alone advance
pops zero s = done s
pops (suc n) s = pop 160 s >>= λ (s', t). pops n s'

is_live : Option Node → Bool
is_live none = false
is_live (some n) = true

-- fn force_reclaim_frees_unhazarded: the queue before and after the pass, and whether a
-- node is live before and after it.
force_reclaim_frees_unhazarded : Effect (ℕ × ℕ × Bool × Bool)
unfolding new_stack is_live pushes push_at push pops pop run_alone force advance
force_reclaim_frees_unhazarded = pushes 32 new_stack >>= λ s1. pops 32 s1 >>= λ s2.
    force 110 s2 >>= λ (s3, t).
    done (length s2.retired, length s3.retired, is_live (s2.heap 32), is_live (s3.heap 32))

frees_unhazarded : force_reclaim_frees_unhazarded ≡ done (32, 0, true, false)
unfolding force_reclaim_frees_unhazarded new_registry retire lock_for_force reclaim
frees_unhazarded = refl

-- How many of the nodes 16 * n, …, 16 are live.
live_nodes : ℕ → Shared → ℕ
unfolding is_live
live_nodes zero s = 0
live_nodes (suc n) s =
    let rest = live_nodes n s in if is_live (s.heap (16 * suc n)) then suc rest else rest

-- The stack after `n` pushes, `n` calls of `pop` and `force_reclaim`, and after its drop: the nodes that
-- are live.
drained_after : ℕ → Effect (ℕ × Option (Effect ℕ))
unfolding new_stack live_nodes pushes push_at push pops pop run_alone force is_some free_all drop
    advance
drained_after n = pushes n new_stack >>= pops n >>= λ s. force 200 s >>= λ (s', t). done (
  live_nodes n s,
  elim (drop 1 160 s') [
    | none ↦ none
    | some dropped ↦ some (dropped >>= λ s''. done (live_nodes n s''))
  ],
)

-- fn drop_drains_retired_queue
drop_drains_retired_queue : Effect (ℕ × Option (Effect ℕ))
unfolding drained_after
drop_drains_retired_queue = drained_after 200

drains : drop_drains_retired_queue ≡ done (8, some (done 0))
unfolding drop_drains_retired_queue new_registry retire lock_for_force reclaim
drains = refl

-- Threads 0 and 2 push 7 and 9; thread 1 protects the node of 9, and is interrupted before it reads it.
first_push : Run safe_treiber
unfolding new_stack
first_push = then_step new_run (calls_push 0 7 refl (16, omega arith, refl, refl, refl))

second_push : Run safe_treiber
unfolding new_stack new_registry retire reclaim lock_for_force steps advance first_push
second_push =
    then_step (steps 0 3 first_push) (calls_push 2 9 refl (32, omega arith, refl, refl, refl))

protecting : Run safe_treiber
unfolding new_stack new_registry retire reclaim lock_for_force steps advance second_push first_push
protecting = steps 1 4 (then_step (steps 2 3 second_push) (calls_pop 1 refl refl))

-- Thread 3 pops that node and retires it, and thread 4 starts a pass over the queue.
overtaken : Run safe_treiber
unfolding new_stack new_registry retire reclaim lock_for_force steps advance protecting second_push
    first_push
overtaken = steps 3 12 (then_step protecting (calls_pop 3 refl refl))

passing : Run safe_treiber
unfolding new_stack new_registry retire reclaim lock_for_force steps advance overtaken protecting
    second_push first_push
passing = steps 4 70 (then_step overtaken (calls_other 4 refl refl))

-- The pass has kept the node; thread 1 finds another head, starts again and pops 7.
contended : Run safe_treiber
unfolding new_stack new_registry retire reclaim lock_for_force steps advance passing overtaken
    protecting second_push first_push
contended = steps 1 20 passing

contended_returns :
    (overtaken.last.threads 3 ≡ pop_done (some 9))
    × (passing.last.shared.retired ≡ 32 ∷ [])
    × (contended.last.threads 1 ≡ pop_done (some 7))
unfolding contended passing overtaken protecting steps advance retire reclaim lock_for_force
    second_push first_push new_stack new_registry
contended_returns = (refl, refl, refl)

safe_linearizable_example :
    (l : Lifo) × Lifo.Reaches contended.history l
    × ((cells : List (ℕ × ℕ)) × Chain contended.last.shared.heap contended.last.shared.head cells
        × (l.contents ≡ values cells))
safe_linearizable_example = safe_linearizable contended.reach

safe_defined_example : advance passing.last.shared (passing.last.threads 1) ≢ undefined
safe_defined_example = safe_defined passing.reach 1

retired_lem_example :
    IsDistinct (passing.last.shared.kept ++ passing.last.shared.retired)
    × ((a : ℕ)
        → a ∈ (passing.last.shared.kept ++ passing.last.shared.retired)
        → passing.last.shared.heap a ≢ none)
    × ((cells : List (ℕ × ℕ)) × Chain passing.last.shared.heap passing.last.shared.head cells
        × ((a : ℕ)
            → a ∈ (passing.last.shared.kept ++ passing.last.shared.retired)
            → ¬ (a ∈ addresses cells)))
retired_lem_example = retired_lem passing.reach

slot_exclusive_example : ◌≡◌ {A = ℕ} 1 1
unfolding passing overtaken protecting steps advance retire reclaim lock_for_force second_push
    first_push new_stack new_registry slot_of
slot_exclusive_example = slot_exclusive passing.reach 1 1 0 refl refl

-- Slot 0 publishes 16, and the queue has 32 and 16.
abbrev two_retired : Shared
two_retired = record {
  head = null;
  heap = λ a. some (record { value = a; next = null });
  hazards = record { slots = record { in_use = true; ptr = 16 } ∷ [] };
  retired = 32 ∷ 16 ∷ [];
  kept = [];
  pass = reading_use 0 [];
}

reclaim_lem_example :
    (s' : Shared) × Ends two_retired s'
    × (s' ≡ record two_retired { pass = unlocked; retired = 16 ∷ []; heap = s'.heap })
    × ((a : ℕ) → a ∈ (32 ∷ 16 ∷ []) → ¬ (a ∈ (16 ∷ [])) → s'.heap a ≡ none)
    × ((a : ℕ) → (a ∈ (32 ∷ 16 ∷ []) → a ∈ (16 ∷ [])) → s'.heap a ≡ two_retired.heap a)
unfolding snapshot published ℕ_discrete
reclaim_lem_example =
    reclaim_lem two_retired (omega arith, ((λ m. m), tt)) (λ a mem gone. ground (arith, gone))

-- Thread 1 stands still with a hazard on the first node; another pop goes on to its end.
pop_returns_example :
    (value next : ℕ) × (protecting.last.shared.heap protecting.last.shared.head
      ≡ some (record { value = value; next = next }))
    × (n : ℕ) × (s' : Shared) × (run_alone n protecting.last.shared (acquiring 0)
        ≡ done (s', pop_done (some value)))
    × (s'.head ≡ next)
    × (s'.pass ≡ unlocked)
unfolding protecting steps advance second_push first_push new_stack new_registry
pop_returns_example =
    pop_returns protecting.reach refl (omega arith) 1 (record { in_use = false; ptr = null }) refl
      refl
