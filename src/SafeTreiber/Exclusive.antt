-- ===== src/SafeTreiber/Exclusive.antt =====
-- Who shares what in src/safe_treiber.rs: the hazard slots of the threads, and the nodes of the stack
-- and of the retired queue.
use samsara.Prelude.{ℕ, ◌≡◌, ◌≢◌, Option, none, some, arith, ◌++◌, ◌∈◌, IsDistinct, List}
use samsara.Memory.Chain.{Chain, addresses}
use samsara.Lifo.{Event}
use samsara.Lifo.Machine.{World}
use samsara.Lifo.Machine
use samsara.Lifo.Simulation.{Reaches-Linked}
use samsara.SafeTreiber.Invariant.{Ghost, At, invariant}
use samsara.SafeTreiber.Correct.{laws}
use samsara.SafeTreiber.{
  Shared, Thread, resting, push_load, push_link, push_cas, push_done, acquiring, pop_load,
  pop_protect, pop_verify, pop_next, pop_cas, pop_value, pop_clear, pop_drop, pop_vacate,
  pop_retire, pop_reclaim, empty_drop, empty_vacate, pop_done, force_lock, force_reclaim,
  safe_treiber,
}

-- The slot that a thread holds: `slot.idx` in `pop`.
unfoldable pub slot_of : Thread → Option ℕ
slot_of (pop_load idx) = some idx
slot_of (pop_protect idx head) = some idx
slot_of (pop_verify idx head) = some idx
slot_of (pop_next idx head) = some idx
slot_of (pop_cas idx head next) = some idx
slot_of (pop_value idx head) = some idx
slot_of (pop_clear idx head value) = some idx
slot_of (pop_drop idx head value) = some idx
slot_of (pop_vacate idx head value) = some idx
slot_of (empty_drop idx) = some idx
slot_of (empty_vacate idx) = some idx
slot_of _ = none

user-slot_of :
    (i : ℕ) (s : Shared) (g : Ghost) (t : Thread) (c : _) (idx : ℕ)
    → At i s g t c
    → slot_of t ≡ some idx
    → g.user idx ≡ some i
unfolding slot_of
user-slot_of i s g (pop_load k) c idx (p, u, e) same = ground (arith, u.0, same)
user-slot_of i s g (pop_protect k head) c idx (p, u, ne, e) same = ground (arith, u.0, same)
user-slot_of i s g (pop_verify k head) c idx (u, ne, e) same = ground (arith, u.0, same)
user-slot_of i s g (pop_next k head) c idx (v, n, r, e) same = ground (arith, r.uses.0, same)
user-slot_of i s g (pop_cas k head next) c idx (v, r, e) same = ground (arith, r.uses.0, same)
user-slot_of i s g (pop_value k head) c idx (p, v, n, u, h, e) same = ground (arith, u.0, same)
user-slot_of i s g (pop_clear k head value) c idx (p, v, n, u, h, e) same =
    ground (arith, u.0, same)
user-slot_of i s g (pop_drop k head value) c idx (p, v, n, u, h, e) same = ground (arith, u.0, same)
user-slot_of i s g (pop_vacate k head value) c idx (p, v, n, u, h, e) same =
    ground (arith, u.0, same)
user-slot_of i s g (empty_drop k) c idx (p, u, e) same = ground (arith, u.0, same)
user-slot_of i s g (empty_vacate k) c idx (p, u, e) same = ground (arith, u.0, same)
user-slot_of i s g resting c idx a same = ground (arith, same)
user-slot_of i s g (push_load new) c idx a same = ground (arith, same)
user-slot_of i s g (push_link new head) c idx a same = ground (arith, same)
user-slot_of i s g (push_cas new head) c idx a same = ground (arith, same)
user-slot_of i s g push_done c idx a same = ground (arith, same)
user-slot_of i s g (acquiring k) c idx a same = ground (arith, same)
user-slot_of i s g (pop_retire head value) c idx a same = ground (arith, same)
user-slot_of i s g (pop_reclaim value) c idx a same = ground (arith, same)
user-slot_of i s g (pop_done r) c idx a same = ground (arith, same)
user-slot_of i s g force_lock c idx a same = ground (arith, same)
user-slot_of i s g force_reclaim c idx a same = ground (arith, same)

-- In every state that the threads can come to, two threads never hold the same hazard slot.
pub slot_exclusive :
    {history : List Event} {w : World safe_treiber}
    → Machine.Reaches safe_treiber history w
    → (i j idx : ℕ) → slot_of (w.threads i) ≡ some idx
    → slot_of (w.threads j) ≡ some idx
    → i ≡ j
slot_exclusive {w = w} r i j idx held held' =
    let l = Reaches-Linked invariant laws r in
    let a = user-slot_of i w.shared l.ghost (w.threads i) (l.lifo.calls i) idx (l.all i) held in
    let b = user-slot_of j w.shared l.ghost (w.threads j) (l.lifo.calls j) idx (l.all j) held' in
    ground (arith, a, b)

-- In every state that the threads can come to, a pass over the retired queue included, the queue has no
-- node twice, each of its nodes is still allocated, and none of them is in the stack.
pub retired_lem :
    {history : List Event} {w : World safe_treiber}
    → Machine.Reaches safe_treiber history w
    → IsDistinct (w.shared.kept ++ w.shared.retired)
      × ((a : ℕ) → a ∈ (w.shared.kept ++ w.shared.retired) → w.shared.heap a ≢ none)
      × ((cells : List (ℕ × ℕ)) × Chain w.shared.heap w.shared.head cells
          × ((a : ℕ) → a ∈ (w.shared.kept ++ w.shared.retired) → ¬ (a ∈ addresses cells)))
retired_lem {w = w} r =
    let l = Reaches-Linked invariant laws r in
    (
      l.sound.once,
      (λ a mem gone. ground (arith, l.sound.in_queue a mem, l.sound.unowned a gone)),
      (
        l.ghost.cells,
        l.sound.chain,
        (λ a mem stack. ground (arith, l.sound.in_queue a mem, l.sound.in_stack a stack)),
      ),
    )
