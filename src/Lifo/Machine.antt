-- ===== src/Lifo/Machine.antt =====
-- Threads that run the code of a lock-free stack (src/treiber.rs, src/safe_treiber.rs), one access of
-- shared memory at a time.
use samsara.Prelude.{ℕ, ◌≡◌, Option, none, some, List, []}
use samsara.Memory.{Effect, done}
use samsara.Lifo.{Event, called_push, returned_push, called_pop, returned_pop, update, logged}

-- The code of a stack: its shared state, the program points of a thread, and one step of a thread.
pub record Algorithm : Type 1 where
  pub Shared : Type 0
  pub Thread : Type 0
  pub new : Shared
  pub resting : Thread
  -- A call of `push` allocates its node; a call of `pop`, or of another method, only starts.
  pub PushStarts : Shared → ℕ → Shared → Thread → Type 0
  pub PopStarts : ℕ → Thread → Type 0
  pub OtherStarts : Thread → Type 0
  pub advance : Shared → Thread → Effect (Shared × Thread)
  pub push_returns : Thread
  pub pop_returns : Option ℕ → Thread

pub record World (A : Algorithm) : Type 0 where
  pub shared : A.Shared
  pub threads : ℕ → A.Thread

pub data Step {A : Algorithm} (w : World A) : Option Event → World A → Type 0 where
  calls_push :
      (i v : ℕ) {s : A.Shared} {t : A.Thread}
      → w.threads i ≡ A.resting
      → A.PushStarts w.shared v s t
      → Step w (some (called_push i v)) (record { shared = s; threads = update w.threads i t })
  calls_pop :
      (i : ℕ) {t : A.Thread}
      → w.threads i ≡ A.resting
      → A.PopStarts i t
      → Step w (some (called_pop i)) (record w { threads = update w.threads i t })
  calls_other :
      (i : ℕ) {t : A.Thread}
      → w.threads i ≡ A.resting
      → A.OtherStarts t
      → Step w none (record w { threads = update w.threads i t })
  advances :
      (i : ℕ) {s : A.Shared} {t : A.Thread}
      → A.advance w.shared (w.threads i) ≡ done (s, t)
      → Step w none (record { shared = s; threads = update w.threads i t })
  returns_push :
      (i : ℕ)
      → w.threads i ≡ A.push_returns
      → Step w (some (returned_push i)) (record w { threads = update w.threads i A.resting })
  returns_pop :
      (i : ℕ) (r : Option ℕ)
      → w.threads i ≡ A.pop_returns r
      → Step w (some (returned_pop i r)) (record w { threads = update w.threads i A.resting })

-- What the threads can come to from a new stack, with the history of calls and returns.
pub data Reaches (A : Algorithm) : List Event → World A → Type 0 where
  begin : Reaches A [] (record { shared = A.new; threads = λ _. A.resting })
  later :
      {history : List Event} {w w' : World A} {e : Option Event}
      → Reaches A history w
      → Step w e w'
      → Reaches A (logged e history) w'
