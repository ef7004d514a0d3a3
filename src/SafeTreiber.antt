-- ===== src/SafeTreiber.antt =====
-- The lock-free stack with hazard pointers (src/safe_treiber.rs, over src/hazard.rs). Threads
-- interleave at each access of shared memory, those inside `HazardRegistry::acquire`, `snapshot` and
-- the drop of a slot included. The `Vec` under the mutex is a list; while the lock is held, `pass` says
-- how far `reclaim_locked` is.
pub mod Alone
pub mod Correct
mod Examples
pub mod Exclusive
pub mod Invariant
pub mod Nodes
pub mod Queue
pub mod Reclaim
pub mod Retain
pub mod Returns
pub mod Scan
pub mod Slots
mod Threads
use samsara.Prelude.{
  ℕ, ◌+◌, ◌≡◌, ◌≢◌, Bool, true, false, Option, none, some, List, [], ◌∷◌, ◌++◌, length, get_elem?,
  set, contains, leb, if◌then◌else◌, ◌==◌, ℕ_discrete,
}
use samsara.Memory.{null, Heap, assign, Effect, done, panics, undefined, ◌>>=◌}
use samsara.Hazard.{HazardRegistry, new_registry, protect, clear, vacate}
use samsara.Lifo.Machine.{Algorithm}

abbrev pub retire_threshold : ℕ
retire_threshold = 64

-- The mutex, and where its holder stands in `reclaim_locked`.
pub data Pass : Type 0 where
  unlocked : Pass
  reading_use : (k : ℕ) (found : List ℕ) → Pass  -- `snapshot`, before slot k's `in_use.load()`
  reading_ptr : (k : ℕ) (found : List ℕ) → Pass  -- `snapshot`, before slot k's `ptr.load()`
  retaining : (hazards : List ℕ) → Pass  -- in `retain`

-- While `retain` runs, `kept` are the entries that it has kept and `retired` those to come.
pub record Shared : Type 0 where
  pub head : ℕ
  pub heap : Heap
  pub hazards : HazardRegistry
  pub retired : List ℕ
  pub kept : List ℕ
  pub pass : Pass

-- Where a thread stands, with the locals that are live; `idx` is the slot that it holds.
pub data Thread : Type 0 where
  resting : Thread
  push_load : (new : ℕ) → Thread  -- `new` is allocated; before `self.head.load()`
  push_link : (new head : ℕ) → Thread  -- before `(*new).next = head`
  push_cas : (new head : ℕ) → Thread  -- before the compare-and-swap of `head` by `new`
  push_done : Thread
  acquiring : (idx : ℕ) → Thread  -- `acquire`, before the compare-and-swap of slot idx's `in_use`
  pop_load : (idx : ℕ) → Thread  -- before `self.head.load()`
  pop_protect : (idx head : ℕ) → Thread  -- before `slot.protect(head)`
  pop_verify : (idx head : ℕ) → Thread  -- before the second `self.head.load()`
  pop_next : (idx head : ℕ) → Thread  -- before `(*head).next`
  pop_cas : (idx head next : ℕ) → Thread  -- before the compare-and-swap of `head` by `next`
  pop_value : (idx head : ℕ) → Thread  -- before `(*head).value`
  pop_clear : (idx head value : ℕ) → Thread  -- before `slot.clear()`
  pop_drop : (idx head value : ℕ) → Thread  -- `drop(slot)`, before its `clear`
  pop_vacate : (idx head value : ℕ) → Thread  -- `drop(slot)`, before `in_use.store(false)`
  pop_retire : (head value : ℕ) → Thread  -- `retire(head)`, before the lock
  pop_reclaim : (value : ℕ) → Thread  -- in `reclaim_locked`, with the lock
  empty_drop : (idx : ℕ) → Thread  -- `return None`, before the `clear` of the slot's drop
  empty_vacate : (idx : ℕ) → Thread  -- `return None`, before `in_use.store(false)`
  pop_done : (r : Option ℕ) → Thread
  force_lock : Thread  -- `force_reclaim`, before the lock
  force_reclaim : Thread  -- `force_reclaim`, in `reclaim_locked`, with the lock

unfoldable pub new_stack : Shared
new_stack = record {
  head = null;
  heap = λ _. none;
  hazards = new_registry;
  retired = [];
  kept = [];
  pass = unlocked;
}

-- `Box::into_raw(Box::new(Node { value, next: ptr::null_mut() }))`, at the start of `push`.
abbrev pub PushStarts : Shared → ℕ → Shared → Thread → Type 0
PushStarts s value s' t =
    (new : ℕ) × (new ≢ null)
    × (s.heap new ≡ none)
    × (s' ≡ record s { heap = assign s.heap new (some (record { value = value; next = null })) })
    × (t ≡ push_load new)

-- One step of `reclaim_locked`, and whether it was the last: `HazardRegistry::snapshot`, then the
-- `retain`, which frees an entry that is not among the hazards.
unfoldable pub reclaim : Shared → Effect (Shared × Bool)
unfolding ℕ_discrete
reclaim s = elim s.pass [
  | unlocked ↦ done (s, true)
  | reading_use k found ↦ elim (get_elem? s.hazards.slots k) [
    | none ↦ done (record s { pass = retaining found }, false)
    | some slot ↦ done (
      record s { pass = if slot.in_use then reading_ptr k found else reading_use (k + 1) found },
      false,
    )
  ]
  | reading_ptr k found ↦ elim (get_elem? s.hazards.slots k) [
    | none ↦ done (record s { pass = retaining found }, false)
    | some slot ↦ done (
      record s {
        pass = reading_use (k + 1) (if slot.ptr == null then found else found ++ slot.ptr ∷ []);
      },
      false,
    )
  ]
  | retaining hazards ↦ elim s.retired [
    | [] ↦ done (record s { retired = s.kept; kept = []; pass = unlocked }, true)
    | ptr ∷ rest ↦
        if contains ℕ_discrete hazards ptr
        then done (record s { retired = rest; kept = s.kept ++ ptr ∷ [] }, false)
        else elim (s.heap ptr) [
          | none ↦ undefined
          | some _ ↦ done (record s { heap = assign s.heap ptr none; retired = rest }, false)
        ]
  ]
]

-- `retire(head)` in `pop`: one step takes the lock and pushes, and gives the lock back if the queue is
-- short. A thread that finds the mutex locked waits.
unfoldable pub retire : Shared → ℕ → ℕ → Effect (Shared × Thread)
retire s head value = elim s.pass [
  | unlocked ↦
      let s' = record s { retired = s.retired ++ head ∷ [] } in
      if leb retire_threshold (length s'.retired)
      then done (record s' { pass = reading_use 0 [] }, pop_reclaim value)
      else done (s', pop_done (some value))
  | _ ↦ done (s, pop_retire head value)
]

unfoldable pub lock_for_force : Shared → Effect (Shared × Thread)
lock_for_force s = elim s.pass [
  | unlocked ↦ done (record s { pass = reading_use 0 [] }, force_reclaim)
  | _ ↦ done (s, force_lock)
]

-- One step of a thread in `push`, `pop` or `force_reclaim`. `expect("hazard slot exhausted")` panics.
unfoldable pub advance : Shared → Thread → Effect (Shared × Thread)
unfolding protect clear vacate
advance s resting = done (s, resting)
advance s (push_load new) = done (s, push_link new s.head)
advance s (push_link new head) = elim (s.heap new) [
  | none ↦ undefined
  | some n ↦
      done
        (record s { heap = assign s.heap new (some (record n { next = head })) }, push_cas new head)
]
advance s (push_cas new head) =
    if s.head == head then done (record s { head = new }, push_done) else done (s, push_load new)
advance s push_done = done (s, push_done)
advance s (acquiring idx) = elim (get_elem? s.hazards.slots idx) [
  | none ↦ panics
  | some slot ↦
      if slot.in_use
      then done (s, acquiring (idx + 1))
      else done (
        record s {
          hazards = record { slots = set s.hazards.slots idx (record slot { in_use = true }) };
        },
        pop_load idx,
      )
]
advance s (pop_load idx) =
    if s.head == null then done (s, empty_drop idx) else done (s, pop_protect idx s.head)
advance s (pop_protect idx head) =
    done (record s { hazards = protect s.hazards idx head }, pop_verify idx head)
advance s (pop_verify idx head) =
    if s.head == head then done (s, pop_next idx head) else done (s, pop_load idx)
advance s (pop_next idx head) = elim (s.heap head) [
  | none ↦ undefined
  | some n ↦ done (s, pop_cas idx head n.next)
]
advance s (pop_cas idx head next) =
    if s.head == head
    then done (record s { head = next }, pop_value idx head)
    else done (s, pop_load idx)
advance s (pop_value idx head) = elim (s.heap head) [
  | none ↦ undefined
  | some n ↦ done (s, pop_clear idx head n.value)
]
advance s (pop_clear idx head value) =
    done (record s { hazards = clear s.hazards idx }, pop_drop idx head value)
advance s (pop_drop idx head value) =
    done (record s { hazards = clear s.hazards idx }, pop_vacate idx head value)
advance s (pop_vacate idx head value) =
    done (record s { hazards = vacate s.hazards idx }, pop_retire head value)
advance s (pop_retire head value) = retire s head value
advance s (pop_reclaim value) =
    reclaim s >>= λ (s', over). done (s', if over then pop_done (some value) else pop_reclaim value)
advance s (empty_drop idx) = done (record s { hazards = clear s.hazards idx }, empty_vacate idx)
advance s (empty_vacate idx) = done (record s { hazards = vacate s.hazards idx }, pop_done none)
advance s (pop_done r) = done (s, pop_done r)
advance s force_lock = lock_for_force s
advance s force_reclaim =
    reclaim s >>= λ (s', over). done (s', if over then resting else force_reclaim)

abbrev pub is_empty : Shared → Bool
is_empty s = s.head == null

abbrev pub safe_treiber : Algorithm
safe_treiber = record {
  Shared = Shared;
  Thread = Thread;
  new = new_stack;
  resting = resting;
  PushStarts = PushStarts;
  PopStarts = λ i t. t ≡ acquiring 0;
  OtherStarts = λ t. t ≡ force_lock;
  advance = advance;
  push_returns = push_done;
  pop_returns = pop_done;
}
