-- ===== src/Treiber/Alone.antt =====
-- Calls of src/treiber.rs that no other thread interrupts, and the drop of the stack.
use samsara.Prelude.{
  ℕ, zero, suc, ◌<◌, ◌≡◌, ◌≢◌, refl, Option, none, some, Bool, true, false, List, [], ◌∷◌, ◌∈◌,
  IsDistinct, inr, ⊎_elim, length, ℕ_discrete, arith, subst, sym, ap, ◌∙◌,
}
use samsara.Memory.{null, Node, assign, Effect, done, panics, undefined, ◌>>=◌}
use samsara.Memory.Chain.{Chain, addresses, Chain-same}
use samsara.Treiber.{
  Shared, Thread, push_load, push_done, pop_load, push_link, push_cas, pop_next, pop_cas, pop_free,
  pop_done, advance,
}

-- `n` steps of one thread.
unfoldable pub run_alone : ℕ → Shared → Thread → Effect (Shared × Thread)
run_alone zero s t = done (s, t)
run_alone (suc n) s t = advance s t >>= λ (s', t'). run_alone n s' t'

-- `push` from its first load on, and `pop`: with no other thread the compare-and-swap succeeds at once.
unfoldable pub push : Shared → ℕ → Effect (Shared × Thread)
unfolding run_alone
push s new = run_alone 3 s (push_load new)

unfoldable pub pop : Shared → Effect (Shared × Thread)
unfolding run_alone
pop s = run_alone 4 s pop_load

-- `.is_some()` of what `pop` returns.
abbrev pub is_some : Thread → Bool
is_some (pop_done (some v)) = true
is_some _ = false

-- `Drop`: `while self.pop().is_some() {}`, with fuel; `none` means that the fuel ran out.
unfoldable pub drop : ℕ → Shared → Option (Effect Shared)
drop zero s = none
drop (suc fuel) s = elim (pop s) [
  | done (s', t) ↦ elim (is_some t) [ true ↦ drop fuel s' | false ↦ some (done s') ]
  | panics ↦ some panics
  | undefined ↦ some undefined
]

run_alone-step :
    (n : ℕ) (s : Shared) (t : Thread) {s' : Shared} {t' : Thread}
    → advance s t ≡ done (s', t')
    → run_alone (suc n) s t ≡ run_alone n s' t'
unfolding run_alone
run_alone-step n s t e = ap (λ o. o >>= λ (s', t'). run_alone n s' t') e

advance-pop_load : (s : Shared) → s.head ≢ null → advance s pop_load ≡ done (s, pop_next s.head)
unfolding advance
advance-pop_load s some_head = ground (arith, some_head)

advance-empty : (s : Shared) → s.head ≡ null → advance s pop_load ≡ done (s, pop_done none)
unfolding advance
advance-empty s e = ground (arith, e)

advance-pop_next :
    (s : Shared) (a v next : ℕ)
    → s.heap a ≡ some (record { value = v; next = next })
    → advance s (pop_next a) ≡ done (s, pop_cas a next)
unfolding advance
advance-pop_next s a v next here = ground (arith, here)

advance-pop_cas :
    (s : Shared) (next : ℕ)
    → advance s (pop_cas s.head next) ≡ done (record s { head = next }, pop_free s.head)
unfolding advance
advance-pop_cas s next = ground arith

advance-pop_free :
    (s : Shared) (a v next : ℕ)
    → s.heap a ≡ some (record { value = v; next = next })
    → advance s (pop_free a) ≡ done (record s { heap = assign s.heap a none }, pop_done (some v))
unfolding advance
advance-pop_free s a v next here = ground (arith, here)

-- `pop` alone on a stack with a node frees the node and returns its value.
pub pop-cons :
    (s : Shared) (v next : ℕ)
    → s.head ≢ null
    → s.heap s.head ≡ some (record { value = v; next = next })
    → pop s ≡ done (record { head = next; heap = assign s.heap s.head none }, pop_done (some v))
unfolding pop
pop-cons s v next some_head here =
    run_alone-step 3 s pop_load (advance-pop_load s some_head)
    ∙ run_alone-step 2 s (pop_next s.head) (advance-pop_next s s.head v next here)
    ∙ run_alone-step 1 s (pop_cas s.head next) (advance-pop_cas s next)
    ∙ run_alone-step 0 (record s { head = next }) (pop_free s.head)
        (advance-pop_free (record s { head = next }) s.head v next here)
    ∙ unfold run_alone in refl

pub pop-empty : (s : Shared) → s.head ≡ null → pop s ≡ done (s, pop_done none)
unfolding pop
pop-empty s e = run_alone-step 3 s pop_load (advance-empty s e) ∙ unfold run_alone advance in refl

-- A thread that has loaded `head` of a stack with a node reads a freed node if another thread's whole
-- `pop` comes before its next step: undefined behaviour.
pub pop_races :
    (s : Shared) (v next : ℕ)
    → s.head ≢ null
    → s.heap s.head ≡ some (record { value = v; next = next })
    → (advance s pop_load ≡ done (s, pop_next s.head))
      × (s' : Shared) × (pop s ≡ done (s', pop_done (some v)))
      × (advance s' (pop_next s.head) ≡ undefined)
pop_races s v next some_head here = (
  advance-pop_load s some_head,
  record { head = next; heap = assign s.heap s.head none },
  pop-cons s v next some_head here,
  unfold advance in ground arith,
)

-- Alone, a `pop` undoes a `push` and frees its node, and returns what was pushed.
pub pop-push :
    (s : Shared) (new v n : ℕ)
    → new ≢ null
    → s.heap new ≡ some (record { value = v; next = n })
    → (s' : Shared) × (push s new ≡ done (s', push_done))
      × (pop s'
          ≡ done (record { head = s.head; heap = assign s'.heap new none }, pop_done (some v)))
      × ((a : ℕ) → a ≢ new → s'.heap a ≡ s.heap a)
unfolding push
pop-push s new v n some_new here =
    let x : Node = record { value = v; next = s.head } in
    let linked : Shared = record s { heap = assign s.heap new (some x) } in
    let s' : Shared = record linked { head = new } in
    let load : advance s (push_load new) ≡ done (s, push_link new s.head) =
      unfold advance in refl in
    let link : advance s (push_link new s.head) ≡ done (linked, push_cas new s.head) =
      unfold advance in ground (arith, here) in
    let cas : advance linked (push_cas new s.head) ≡ done (s', push_done) =
      unfold advance in ground arith in
    (
      s',
      run_alone-step 2 s (push_load new) load
          ∙ run_alone-step 1 s (push_link new s.head) link
          ∙ run_alone-step 0 linked (push_cas new s.head) cas
          ∙ unfold run_alone in refl,
      pop-cons s' v s.head some_new (ground arith),
      λ a ne. ground arith,
    )

drop-some :
    (fuel : ℕ) (s : Shared) {s' : Shared} {v : ℕ}
    → pop s ≡ done (s', pop_done (some v))
    → drop (suc fuel) s ≡ drop fuel s'
unfolding drop
drop-some fuel s e = rw (e, drop) refl

drop-none :
    (fuel : ℕ) (s : Shared) {s' : Shared}
    → pop s ≡ done (s', pop_done none)
    → drop (suc fuel) s ≡ some (done s')
unfolding drop
drop-none fuel s e = rw (e, drop) refl

-- If the nodes of the stack from `head` on are an intact chain of different live nodes that ends at
-- null, the drop, which no other thread interrupts, ends with enough fuel. It leaves the stack empty and
-- frees exactly those nodes, each once.
pub drop_lem :
    (cells : List (ℕ × ℕ)) (fuel : ℕ) (s : Shared)
    → Chain s.heap s.head cells
    → IsDistinct (addresses cells)
    → length cells < fuel
    → (s' : Shared) × (drop fuel s ≡ some (done s'))
      × (s'.head ≡ null)
      × ((a : ℕ) → a ∈ addresses cells → s'.heap a ≡ none)
      × ((a : ℕ) → ¬ (a ∈ addresses cells) → s'.heap a ≡ s.heap a)
unfolding drop
drop_lem cells zero s c d enough = absurd (omega arith)
drop_lem [] (suc fuel) s c d enough =
    (s, drop-none fuel s (pop-empty s c), c, λ a m. absurd m, λ a m. refl)
drop_lem ((a, v) ∷ cells) (suc fuel) s (at_a, some_a, next, here, rest) (new_a, d) enough =
    let s1 : Shared = record { head = next; heap = assign s.heap s.head none } in
    let some_head : s.head ≢ null = λ e. some_a (sym at_a ∙ e) in
    let chain =
      Chain-same s.heap s1.heap next cells (λ b m. ground (arith, at_a, new_a, m, ℕ_discrete b a))
        rest in
    let (s', dropped, empty, freed, kept) = drop_lem cells fuel s1 chain d (omega arith) in
    (
      s',
      drop-some fuel s (pop-cons s v next some_head (ap s.heap at_a ∙ here)) ∙ dropped,
      empty,
      λ b m.
          ⊎_elim
            (λ q.
              kept b (λ r. new_a (subst (λ x. x ∈ addresses cells) q r)) ∙ ground (arith, q, at_a))
            (freed b) m,
      λ b m. kept b (λ q. m (inr q)) ∙ ground (arith, at_a, m),
    )
