-- ===== src/Treiber.antt =====
-- The lock-free stack (src/treiber.rs). Threads interleave at each access of shared memory: a load of
-- `head`, a compare-and-swap of it, a read, a write or a free of a node.
pub mod Alone
mod Examples
pub mod Single
mod Threads
use samsara.Prelude.{ℕ, ◌≡◌, ◌≢◌, Bool, Option, none, some, if◌then◌else◌, ◌==◌}
use samsara.Memory.{null, Heap, Node, assign, Effect, done, panics, undefined}
use samsara.Lifo.Machine.{Algorithm}

pub record Shared : Type 0 where
  pub head : ℕ
  pub heap : Heap

-- Where a thread stands, with the locals that are live.
pub data Thread : Type 0 where
  resting : Thread
  push_load : (new : ℕ) → Thread  -- `new` is allocated; before `self.head.load()`
  push_link : (new head : ℕ) → Thread  -- before `(*new).next = head`
  push_cas : (new head : ℕ) → Thread  -- before the compare-and-swap of `head` by `new`
  push_done : Thread
  pop_load : Thread  -- before `self.head.load()`
  pop_next : (head : ℕ) → Thread  -- before `(*head).next`
  pop_cas : (head next : ℕ) → Thread  -- before the compare-and-swap of `head` by `next`
  pop_free : (head : ℕ) → Thread  -- before `Box::from_raw(head)`, which reads the value and frees
  pop_done : (r : Option ℕ) → Thread

abbrev pub new_stack : Shared
new_stack = record { head = null; heap = λ _. none }

-- `Box::into_raw(Box::new(Node { value, next: ptr::null_mut() }))`, at the start of `push`.
abbrev pub PushStarts : Shared → ℕ → Shared → Thread → Type 0
PushStarts s value s' t =
    (new : ℕ) × (new ≢ null)
    × (s.heap new ≡ none)
    × (s' ≡ record s { heap = assign s.heap new (some (record { value = value; next = null })) })
    × (t ≡ push_load new)

-- One step of a thread in `push` or `pop`.
unfoldable pub advance : Shared → Thread → Effect (Shared × Thread)
advance s resting = done (s, resting)
advance s (push_load new) = done (s, push_link new s.head)
advance s (push_link new head) = elim (s.heap new) [
  | none ↦ undefined
  | some n ↦
      done
        (record s { heap = assign s.heap new (some (record n { next = head })) }, push_cas new head)
]
advance s (push_cas new head) =
    if s.head == head then done (record s { head = new }, push_done) else done (s, push_load new)
advance s push_done = done (s, push_done)
advance s pop_load = if s.head == null then done (s, pop_done none) else done (s, pop_next s.head)
advance s (pop_next head) = elim (s.heap head) [
  | none ↦ undefined
  | some n ↦ done (s, pop_cas head n.next)
]
advance s (pop_cas head next) =
    if s.head == head then done (record s { head = next }, pop_free head) else done (s, pop_load)
advance s (pop_free head) = elim (s.heap head) [
  | none ↦ undefined
  | some n ↦ done (record s { heap = assign s.heap head none }, pop_done (some n.value))
]
advance s (pop_done r) = done (s, pop_done r)

abbrev pub is_empty : Shared → Bool
is_empty s = s.head == null

-- The threads `may_pop` are those that call `pop`.
abbrev pub treiber : (ℕ → Type 0) → Algorithm
treiber may_pop = record {
  Shared = Shared;
  Thread = Thread;
  new = new_stack;
  resting = resting;
  PushStarts = PushStarts;
  PopStarts = λ i t. may_pop i × (t ≡ pop_load);
  OtherStarts = λ _. ⊥;
  advance = advance;
  push_returns = push_done;
  pop_returns = pop_done;
}
