-- ===== src/SafeTreiber/Correct.antt =====
-- The stack of src/safe_treiber.rs under any number of threads.
use samsara.Prelude.{
  ℕ, ◌≡◌, ◌≢◌, refl, none, List, [], ◌∈◌, mem-append, inl, inr, Bool-cases, List-cases, ◌==◌, arith,
  subst, sym, ap, ◌∙◌,
}
use samsara.Memory.{null, done, undefined}
use samsara.Memory.Chain.{Chain, addresses, values}
use samsara.Lifo.{
  Lifo, Event, Call, idle, pushing, pushed, popping, popped, Takes, waits, finds_empty,
}
use samsara.Lifo.Simulation.{GoesTo, Laws, Reaches-Linked, never_undefined}
use samsara.Lifo.Machine.{World}
use samsara.Lifo.Machine
use samsara.Lifo
use samsara.SafeTreiber.{
  Pass, unlocked, reading_use, reading_ptr, retaining, Shared, Thread, resting, push_load,
  push_link, push_cas, push_done, acquiring, pop_load, pop_protect, pop_verify, pop_next, pop_cas,
  pop_value, pop_clear, pop_drop, pop_vacate, pop_retire, pop_reclaim, empty_drop, empty_vacate,
  pop_done, force_lock, force_reclaim, new_stack, advance, safe_treiber,
}
use samsara.SafeTreiber.Invariant.{
  nobody, fresh, stacked, Seen, Ghost, Sound, Holds, Uses, IsCovered, Guards, At, invariant,
}
use samsara.SafeTreiber.Nodes.{starts, go_link, go_push, go_pop}
use samsara.SafeTreiber.Slots.{
  passes, go_acquire, go_protect, go_clear, go_drop, go_vacate, go_empty_drop, go_empty_vacate,
}
use samsara.SafeTreiber.Queue.{go_reclaim, go_force_reclaim, go_force, go_retire}

-- A node that is not in the queue is covered, whatever the pass.
IsCovered-out : (queue : List ℕ) (p : Pass) (idx a : ℕ) → ¬ (a ∈ queue) → IsCovered queue p idx a
IsCovered-out queue unlocked idx a out = tt
IsCovered-out queue (reading_use k found) idx a out = inl out
IsCovered-out queue (reading_ptr k found) idx a out = inl out
IsCovered-out queue (retaining hazards) idx a out = inl out

module _ (i : ℕ) (s : Shared) (g : Ghost) (xs : List ℕ) (sound : Sound s g xs) where
  -- The node that `head` points at.
  head_node : s.head ≢ null → (v next : ℕ) × Holds s g s.head stacked v next
  head_node some_head = elim (List-cases g.cells) [
    | inl e ↦ absurd (some_head (subst (Chain s.heap s.head) e sound.chain))
    | inr ((a, v), cells, e) ↦
        let (at_a, some_a, next, here, _) = subst (Chain s.heap s.head) e sound.chain in
        let owned = sound.in_stack a (subst (λ l. a ∈ addresses l) (sym e) (inl refl)) in
        (v, next, (some_head, ap g.owner at_a ∙ owned, ap s.heap at_a ∙ here))
  ]

  go_load :
      (idx ptr : ℕ)
      → Uses s g i idx ptr
      → GoesTo invariant i s g xs popping (advance s (pop_load idx))
  unfolding advance
  go_load idx ptr u = elim (Bool-cases (s.head == null)) [
    | inl empty ↦
        let at_null : s.head ≡ null = ground (arith, empty) in
        let none_left : [] ≡ xs = elim (List-cases g.cells) [
          | inl e ↦ sym (sound.contents ∙ ap values e)
          | inr ((a, v), cells, e) ↦
              let (at_a, some_a, _, _, _) = subst (Chain s.heap s.head) e sound.chain in
              absurd (some_a (sym at_a ∙ at_null))
        ] in
        let on : done (s, empty_drop idx) ≡ advance s (pop_load idx) = ground (arith, empty) in
        subst (GoesTo invariant i s g xs popping) on (record {
          ghost = g;
          contents = [];
          call = popped none;
          takes = subst (λ l. Takes l popping [] (popped none)) none_left finds_empty;
          sound = subst (Sound s g) (sym none_left) sound;
          here = (ptr, u, refl);
          others = λ j t c ne a. a;
        })
    | inr more ↦
        let some_head : s.head ≢ null = ground (arith, more) in
        let on : done (s, pop_protect idx s.head) ≡ advance s (pop_load idx) =
          ground (arith, more) in
        subst (GoesTo invariant i s g xs popping) on
          (passes i s g xs sound popping (pop_protect idx s.head) (ptr, u, some_head, refl))
  ]

  go_verify :
      (idx head : ℕ)
      → Uses s g i idx head
      → head ≢ null
      → GoesTo invariant i s g xs popping (advance s (pop_verify idx head))
  unfolding advance
  go_verify idx head u some_node = elim (Bool-cases (s.head == head)) [
    | inl still ↦
        let at_head : s.head ≡ head = ground (arith, still) in
        let (v, next, (_, owned, here)) = head_node (λ e. some_node (sym at_head ∙ e)) in
        let stacked_now : g.owner head ≡ stacked = subst (λ a. g.owner a ≡ stacked) at_head owned in
        let out : ¬ (head ∈ s.retired) =
          λ m. let q = sound.in_queue head ((mem-append head s.kept s.retired).1 (inr m)) in cc in
        let guards : Guards s g i idx head v next = record {
          uses = u;
          covered = IsCovered-out s.retired s.pass idx head out;
          some_node = some_node;
          seen = subst Seen (sym stacked_now) tt;
          here = ap s.heap (sym at_head) ∙ here;
        } in
        rw still (passes i s g xs sound popping (pop_next idx head) (v, next, guards, refl))
    | inr moved ↦ rw moved (passes i s g xs sound popping (pop_load idx) (head, u, refl))
  ]

  goes : (t : Thread) (c : Call) → At i s g t c → GoesTo invariant i s g xs c (advance s t)
  unfolding advance
  goes resting c a = passes i s g xs sound c resting a
  goes (push_load new) c a = passes i s g xs sound c (push_link new s.head) a
  goes (push_link new head) c (v, n, h, e) = rw e (go_link i s g xs sound new head v n h)
  goes (push_cas new head) c (v, h, e) = elim (Bool-cases (s.head == head)) [
    | inl won ↦
        let at_head : head ≡ s.head = ground (arith, won) in
        rw (won, e)
          (go_push i s g xs sound new v (subst (λ n. Holds s g new (fresh i) v n) at_head h))
    | inr lost ↦ rw lost (passes i s g xs sound c (push_load new) (v, head, h, e))
  ]
  goes push_done c a = passes i s g xs sound c push_done a
  goes (acquiring idx) c e = rw e (go_acquire i s g xs sound idx)
  goes (pop_load idx) c (ptr, u, e) = rw e (go_load idx ptr u)
  goes (pop_protect idx head) c (ptr, u, ne, e) = rw e (go_protect i s g xs sound idx ptr head u ne)
  goes (pop_verify idx head) c (u, ne, e) = rw e (go_verify idx head u ne)
  goes (pop_next idx head) c (v, n, r, e) =
      let on : done (s, pop_cas idx head n) ≡ advance s (pop_next idx head) =
        ground (arith, r.here) in
      subst (GoesTo invariant i s g xs c) on
        (passes i s g xs sound c (pop_cas idx head n) (v, r, e))
  goes (pop_cas idx head next) c (v, r, e) = elim (Bool-cases (s.head == head)) [
    | inl won ↦
        rw (won, e) (go_pop i s g xs sound idx head next v g.cells refl (ground (arith, won)) r)
    | inr lost ↦ rw lost (passes i s g xs sound c (pop_load idx) (head, r.uses, e))
  ]
  goes (pop_value idx head) c (ptr, v, n, u, h, e) =
      let on : done (s, pop_clear idx head v) ≡ advance s (pop_value idx head) =
        ground (arith, h.2) in
      subst (GoesTo invariant i s g xs c) on
        (passes i s g xs sound c (pop_clear idx head v) (ptr, v, n, u, h, e))
  goes (pop_clear idx head value) c (ptr, v, n, u, h, e) =
      rw e (go_clear i s g xs sound idx ptr head v n value u h)
  goes (pop_drop idx head value) c (ptr, v, n, u, h, e) =
      rw e (go_drop i s g xs sound idx ptr head v n value u h)
  goes (pop_vacate idx head value) c (ptr, v, n, u, h, e) =
      rw e (go_vacate i s g xs sound idx ptr head v n value u h)
  goes (pop_retire head value) c (v, n, h, e) = rw e (go_retire i s g xs sound head v n value h)
  goes (pop_reclaim value) c e = rw e (go_reclaim i s g xs sound value)
  goes (empty_drop idx) c (ptr, u, e) = rw e (go_empty_drop i s g xs sound idx ptr u)
  goes (empty_vacate idx) c (ptr, u, e) = rw e (go_empty_vacate i s g xs sound idx ptr u)
  goes (pop_done r) c a = passes i s g xs sound c (pop_done r) a
  goes force_lock c e = rw e (go_force i s g xs sound)
  goes force_reclaim c e = rw e (go_force_reclaim i s g xs sound)

Sound-new : Sound new_stack (record { owner = λ _. nobody; cells = []; user = λ _. none }) []
unfolding new_stack
Sound-new = record {
  contents = refl;
  chain = refl;
  in_stack = λ a m. absurd m;
  distinct = tt;
  unowned = λ a e. refl;
  in_queue = λ a m. absurd m;
  once = tt;
  vacant = λ idx slot e unused. refl;
}

pub laws : Laws invariant
laws = record {
  begins = (_, Sound-new, λ i. refl);
  push_starts = λ i v s s' t g xs st sound. starts i s g xs sound v s' t st;
  pop_starts = λ i s t g e. subst (λ t. At i s g t popping) (sym e) refl;
  other_starts = λ i s t g e. subst (λ t. At i s g t idle) (sym e) refl;
  goes = λ i s g xs t c sound a. goes i s g xs sound t c a;
  rests = λ i s g. refl;
  is_idle = λ i s g c a. a;
  is_pushed = λ i s g c a. a;
  is_popped = λ i s g c r a. a;
}

-- Any number of threads call `push`, `pop` and `force_reclaim`: every history of the calls and returns
-- of `push` and `pop` is one of the atomic list, whatever addresses the allocator returns, those of
-- freed nodes included; and the nodes from `head` on hold the contents of that list.
pub safe_linearizable :
    {history : List Event} {w : World safe_treiber}
    → Machine.Reaches safe_treiber history w
    → (l : Lifo) × Lifo.Reaches history l
      × ((cells : List (ℕ × ℕ)) × Chain w.shared.heap w.shared.head cells
          × (l.contents ≡ values cells))
safe_linearizable r =
    let l = Reaches-Linked invariant laws r in
    (l.lifo, l.reaches, (l.ghost.cells, l.sound.chain, l.sound.contents))

-- No thread ever reads, writes or frees a node that is not live.
pub safe_defined :
    {history : List Event} {w : World safe_treiber}
    → Machine.Reaches safe_treiber history w
    → (i : ℕ) → advance w.shared (w.threads i) ≢ undefined
safe_defined = never_undefined invariant laws
