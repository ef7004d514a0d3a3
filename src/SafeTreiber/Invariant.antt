-- ===== src/SafeTreiber/Invariant.antt =====
-- The invariant of src/safe_treiber.rs: who owns each node and each hazard slot, and why a node that a
-- thread is about to read is not freed.
use samsara.Prelude.{
  ℕ, ◌≤◌, ◌≡◌, ◌≢◌, ◌⊎◌, Option, none, some, true, false, List, ◌++◌, ◌∈◌, IsDistinct, get_elem?,
}
use samsara.Memory.{null}
use samsara.Memory.Chain.{Chain, addresses, values}
use samsara.Hazard.{Slot}
use samsara.Lifo.{Call, idle, pushing, pushed, popping, popped}
use samsara.Lifo.Simulation.{Invariant}
use samsara.SafeTreiber.{
  Pass, unlocked, reading_use, reading_ptr, retaining, Shared, Thread, resting, push_load,
  push_link, push_cas, push_done, acquiring, pop_load, pop_protect, pop_verify, pop_next, pop_cas,
  pop_value, pop_clear, pop_drop, pop_vacate, pop_retire, pop_reclaim, empty_drop, empty_vacate,
  pop_done, force_lock, force_reclaim, safe_treiber,
}

-- Who may change a node: nobody when it is not live, the thread that pushes it, the stack, the thread
-- that has popped it, or the retired queue.
pub data Owner : Type 0 where
  nobody : Owner
  fresh : (i : ℕ) → Owner
  stacked : Owner
  taken : (i : ℕ) → Owner
  retired : Owner

-- The node has been in the stack, and is not yet freed.
abbrev pub Seen : Owner → Type 0
Seen nobody = ⊥
Seen (fresh i) = ⊥
Seen stacked = Unit
Seen (taken i) = Unit
Seen retired = Unit

pub record Ghost : Type 0 where
  pub owner : ℕ → Owner
  pub cells : List (ℕ × ℕ)
  pub user : ℕ → Option ℕ  -- the thread that holds a hazard slot

pub record Sound (s : Shared) (g : Ghost) (xs : List ℕ) : Type 0 where
  pub contents : xs ≡ values g.cells
  pub chain : Chain s.heap s.head g.cells
  pub in_stack : (a : ℕ) → a ∈ addresses g.cells → g.owner a ≡ stacked
  pub distinct : IsDistinct (addresses g.cells)
  pub unowned : (a : ℕ) → s.heap a ≡ none → g.owner a ≡ nobody
  pub in_queue : (a : ℕ) → a ∈ (s.kept ++ s.retired) → g.owner a ≡ retired
  pub once : IsDistinct (s.kept ++ s.retired)
  pub vacant :
      (idx : ℕ) (slot : Slot)
      → get_elem? s.hazards.slots idx ≡ some slot
      → slot.in_use ≡ false
      → g.user idx ≡ none

abbrev pub Holds : Shared → Ghost → ℕ → Owner → ℕ → ℕ → Type 0
Holds s g a o value next =
    (a ≢ null) × (g.owner a ≡ o) × (s.heap a ≡ some (record { value = value; next = next }))

-- Thread `i` has slot `idx`, which publishes `ptr`.
abbrev pub Uses : Shared → Ghost → ℕ → ℕ → ℕ → Type 0
Uses s g i idx ptr =
    (g.user idx ≡ some i)
    × (get_elem? s.hazards.slots idx ≡ some (record { in_use = true; ptr = ptr }))

-- The node is not freed by the pass that is on, if slot `idx` publishes it all the time.
abbrev pub IsCovered : List ℕ → Pass → ℕ → ℕ → Type 0
IsCovered queue unlocked idx a = Unit
IsCovered queue (reading_use k found) idx a = ¬ (a ∈ queue) ⊎ (k ≤ idx) ⊎ (a ∈ found)
IsCovered queue (reading_ptr k found) idx a = ¬ (a ∈ queue) ⊎ (k ≤ idx) ⊎ (a ∈ found)
IsCovered queue (retaining hazards) idx a = ¬ (a ∈ queue) ⊎ (a ∈ hazards)

-- Thread `i` may read the node: its slot publishes it, and has done so since the node was in the stack.
pub record Guards (s : Shared) (g : Ghost) (i idx a value next : ℕ) : Type 0 where
  pub uses : Uses s g i idx a
  pub covered : IsCovered s.retired s.pass idx a
  pub some_node : a ≢ null
  pub seen : Seen (g.owner a)
  pub here : s.heap a ≡ some (record { value = value; next = next })

abbrev pub At : ℕ → Shared → Ghost → Thread → Call → Type 0
At i s g resting c = c ≡ idle
At i s g (push_load new) c = (v next : ℕ) × Holds s g new (fresh i) v next × (c ≡ pushing v)
At i s g (push_link new head) c = (v next : ℕ) × Holds s g new (fresh i) v next × (c ≡ pushing v)
At i s g (push_cas new head) c = (v : ℕ) × Holds s g new (fresh i) v head × (c ≡ pushing v)
At i s g push_done c = c ≡ pushed
At i s g (acquiring idx) c = c ≡ popping
At i s g (pop_load idx) c = (ptr : ℕ) × Uses s g i idx ptr × (c ≡ popping)
At i s g (pop_protect idx head) c = (ptr : ℕ) × Uses s g i idx ptr × (head ≢ null) × (c ≡ popping)
At i s g (pop_verify idx head) c = Uses s g i idx head × (head ≢ null) × (c ≡ popping)
At i s g (pop_next idx head) c = (v next : ℕ) × Guards s g i idx head v next × (c ≡ popping)
At i s g (pop_cas idx head next) c = (v : ℕ) × Guards s g i idx head v next × (c ≡ popping)
At i s g (pop_value idx head) c =
    (ptr v next : ℕ) × Uses s g i idx ptr × Holds s g head (taken i) v next × (c ≡ popped (some v))
At i s g (pop_clear idx head value) c =
    (ptr v next : ℕ) × Uses s g i idx ptr
    × Holds s g head (taken i) v next
    × (c ≡ popped (some value))
At i s g (pop_drop idx head value) c =
    (ptr v next : ℕ) × Uses s g i idx ptr
    × Holds s g head (taken i) v next
    × (c ≡ popped (some value))
At i s g (pop_vacate idx head value) c =
    (ptr v next : ℕ) × Uses s g i idx ptr
    × Holds s g head (taken i) v next
    × (c ≡ popped (some value))
At i s g (pop_retire head value) c =
    (v next : ℕ) × Holds s g head (taken i) v next × (c ≡ popped (some value))
At i s g (pop_reclaim value) c = c ≡ popped (some value)
At i s g (empty_drop idx) c = (ptr : ℕ) × Uses s g i idx ptr × (c ≡ popped none)
At i s g (empty_vacate idx) c = (ptr : ℕ) × Uses s g i idx ptr × (c ≡ popped none)
At i s g (pop_done r) c = c ≡ popped r
At i s g force_lock c = c ≡ idle
At i s g force_reclaim c = c ≡ idle

abbrev pub invariant : Invariant safe_treiber
invariant = record { Ghost = Ghost; Sound = Sound; At = At }

-- What a change keeps for thread `j`: its nodes, its slots, and the nodes that it may read.
pub record Frame (j : ℕ) (s : Shared) (g : Ghost) (s' : Shared) (g' : Ghost) : Type 0 where
  pub pushes : (a v n : ℕ) → Holds s g a (fresh j) v n → Holds s' g' a (fresh j) v n
  pub takes : (a v n : ℕ) → Holds s g a (taken j) v n → Holds s' g' a (taken j) v n
  pub slots : (idx ptr : ℕ) → Uses s g j idx ptr → Uses s' g' j idx ptr
  pub reads : (idx a v n : ℕ) → Guards s g j idx a v n → Guards s' g' j idx a v n

pub At-Frame :
    (j : ℕ) (s : Shared) (g : Ghost) (s' : Shared) (g' : Ghost) (t : Thread) (c : Call)
    → Frame j s g s' g'
    → At j s g t c
    → At j s' g' t c
At-Frame j s g s' g' resting c f a = a
At-Frame j s g s' g' (push_load new) c f (v, n, h, e) = (v, n, f.pushes new v n h, e)
At-Frame j s g s' g' (push_link new head) c f (v, n, h, e) = (v, n, f.pushes new v n h, e)
At-Frame j s g s' g' (push_cas new head) c f (v, h, e) = (v, f.pushes new v head h, e)
At-Frame j s g s' g' push_done c f a = a
At-Frame j s g s' g' (acquiring idx) c f a = a
At-Frame j s g s' g' (pop_load idx) c f (p, u, e) = (p, f.slots idx p u, e)
At-Frame j s g s' g' (pop_protect idx head) c f (p, u, ne, e) = (p, f.slots idx p u, ne, e)
At-Frame j s g s' g' (pop_verify idx head) c f (u, ne, e) = (f.slots idx head u, ne, e)
At-Frame j s g s' g' (pop_next idx head) c f (v, n, r, e) = (v, n, f.reads idx head v n r, e)
At-Frame j s g s' g' (pop_cas idx head next) c f (v, r, e) = (v, f.reads idx head v next r, e)
At-Frame j s g s' g' (pop_value idx head) c f (p, v, n, u, h, e) =
    (p, v, n, f.slots idx p u, f.takes head v n h, e)
At-Frame j s g s' g' (pop_clear idx head value) c f (p, v, n, u, h, e) =
    (p, v, n, f.slots idx p u, f.takes head v n h, e)
At-Frame j s g s' g' (pop_drop idx head value) c f (p, v, n, u, h, e) =
    (p, v, n, f.slots idx p u, f.takes head v n h, e)
At-Frame j s g s' g' (pop_vacate idx head value) c f (p, v, n, u, h, e) =
    (p, v, n, f.slots idx p u, f.takes head v n h, e)
At-Frame j s g s' g' (pop_retire head value) c f (v, n, h, e) = (v, n, f.takes head v n h, e)
At-Frame j s g s' g' (pop_reclaim value) c f a = a
At-Frame j s g s' g' (empty_drop idx) c f (p, u, e) = (p, f.slots idx p u, e)
At-Frame j s g s' g' (empty_vacate idx) c f (p, u, e) = (p, f.slots idx p u, e)
At-Frame j s g s' g' (pop_done r) c f a = a
At-Frame j s g s' g' force_lock c f a = a
At-Frame j s g s' g' force_reclaim c f a = a
