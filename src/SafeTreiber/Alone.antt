-- ===== src/SafeTreiber/Alone.antt =====
-- Calls of src/safe_treiber.rs that no other thread interrupts, and the drop of the stack.
use samsara.Prelude.{ℕ, zero, suc, Option, none, some, Bool, true, false, List, [], ◌∷◌}
use samsara.Memory.{Heap, assign, Effect, done, panics, undefined, ◌>>=◌}
use samsara.SafeTreiber.{
  Shared, Thread, unlocked, advance, acquiring, push_load, pop_done, force_lock,
}

-- `n` steps of one thread.
unfoldable pub run_alone : ℕ → Shared → Thread → Effect (Shared × Thread)
run_alone zero s t = done (s, t)
run_alone (suc n) s t = advance s t >>= λ (s', t'). run_alone n s' t'

-- `push` from its first load on.
unfoldable pub push : Shared → ℕ → Effect (Shared × Thread)
unfolding run_alone
push s new = run_alone 3 s (push_load new)

-- `pop` and `force_reclaim`, in `fuel` steps; they change nothing when they are over before.
unfoldable pub pop : ℕ → Shared → Effect (Shared × Thread)
unfolding run_alone
pop fuel s = run_alone fuel s (acquiring 0)

unfoldable pub force : ℕ → Shared → Effect (Shared × Thread)
unfolding run_alone
force fuel s = run_alone fuel s force_lock

-- `.is_some()` of what `pop` returns.
unfoldable pub is_some : Thread → Bool
is_some (pop_done (some v)) = true
is_some _ = false

-- `for ptr in retired.drain(..)`: `Box::from_raw` of each entry is dropped.
unfoldable pub free_all : List ℕ → Heap → Effect Heap
free_all [] h = done h
free_all (a ∷ rest) h = elim (h a) [ none ↦ undefined | some _ ↦ free_all rest (assign h a none) ]

-- `Drop`: `while self.pop().is_some() {}`, with fuel for the loop and for each `pop`, then the queue.
-- `none` means that the fuel ran out, or that the mutex is locked.
unfoldable pub drop : ℕ → ℕ → Shared → Option (Effect Shared)
unfolding pop is_some free_all
drop zero fuel s = none
drop (suc n) fuel s = elim (pop fuel s) [
  | done (s', t) ↦ elim (is_some t) [
    | true ↦ drop n fuel s'
    | false ↦ elim s'.pass [
      | unlocked ↦
          some (free_all s'.retired s'.heap >>= λ h. done (record s' { heap = h; retired = [] }))
      | _ ↦ none
    ]
  ]
  | panics ↦ some panics
  | undefined ↦ some undefined
]
