-- ===== src/Lifo.antt =====
-- The specification of the lock-free stacks (src/treiber.rs, src/safe_treiber.rs): a list, and threads
-- whose calls take effect on it at one moment between call and return.
pub mod Machine
pub mod Schedule
pub mod Simulation
use samsara.Prelude.{ℕ, ◌≡◌, Option, none, some, List, [], ◌∷◌, ◌==◌, if◌then◌else◌}

-- What a client sees: thread `i` calls and returns.
pub data Event : Type 0 where
  called_push : (i v : ℕ) → Event
  returned_push : (i : ℕ) → Event
  called_pop : (i : ℕ) → Event
  returned_pop : (i : ℕ) (r : Option ℕ) → Event

-- Where a thread's call stands.
pub data Call : Type 0 where
  idle : Call
  pushing : (v : ℕ) → Call
  pushed : Call
  popping : Call
  popped : (r : Option ℕ) → Call

-- A call takes effect on the list, or waits.
pub data Takes : List ℕ → Call → List ℕ → Call → Type 0 where
  waits : {xs : List ℕ} {c : Call} → Takes xs c xs c
  takes_push : {xs : List ℕ} {v : ℕ} → Takes xs (pushing v) (v ∷ xs) pushed
  takes_pop : {xs : List ℕ} {v : ℕ} → Takes (v ∷ xs) popping xs (popped (some v))
  finds_empty : Takes [] popping [] (popped none)

pub record Lifo : Type 0 where
  pub contents : List ℕ
  pub calls : ℕ → Call

abbrev pub update : {A : Type 0} → (ℕ → A) → ℕ → A → ℕ → A
update f i a j = if j == i then a else f j

-- The newest event of a history stands first.
abbrev pub logged : Option Event → List Event → List Event
logged none history = history
logged (some e) history = e ∷ history

pub data Step (l : Lifo) : Option Event → Lifo → Type 0 where
  calls_push :
      (i v : ℕ)
      → l.calls i ≡ idle
      → Step l (some (called_push i v)) (record l { calls = update l.calls i (pushing v) })
  calls_pop :
      (i : ℕ)
      → l.calls i ≡ idle
      → Step l (some (called_pop i)) (record l { calls = update l.calls i popping })
  acts :
      (i : ℕ) {xs : List ℕ} {c : Call}
      → Takes l.contents (l.calls i) xs c
      → Step l none (record { contents = xs; calls = update l.calls i c })
  returns_push :
      (i : ℕ)
      → l.calls i ≡ pushed
      → Step l (some (returned_push i)) (record l { calls = update l.calls i idle })
  returns_pop :
      (i : ℕ) (r : Option ℕ)
      → l.calls i ≡ popped r
      → Step l (some (returned_pop i r)) (record l { calls = update l.calls i idle })

-- The histories of the specification, from the empty list on.
pub data Reaches : List Event → Lifo → Type 0 where
  begin : Reaches [] (record { contents = []; calls = λ _. idle })
  later :
      {history : List Event} {l l' : Lifo} {e : Option Event}
      → Reaches history l
      → Step l e l'
      → Reaches (logged e history) l'
