-- ===== src/Barrier.antt =====
-- The single-threaded barrier (src/barrier.rs): `MarkStack`, `Phase` and `WriteBarrier`, and from its
-- tests the `MutableGraph` and the loop `drain_marker` that empties a mark stack against a graph.
-- The `Vec` of a mark stack is a list with its last item, the one that `pop` takes, first.
mod Examples
pub mod Drain
pub mod Overwrite
use samsara.Prelude.{
  ℕ, zero, suc, ◌+◌, Option, none, some, Bool, true, false, List, [], ◌∷◌, ◌++◌, length, contains,
  insert, lookup, if◌then◌else◌, ◌==◌, ℕ_discrete, Outcome, ok, panic, ◌>>=◌,
}

pub record MarkStack : Type 0 where
  pub objects : List ℕ

abbrev pub empty_stack : MarkStack
empty_stack = record { objects = [] }

unfoldable pub push : MarkStack → ℕ → MarkStack
push s id = record { objects = id ∷ s.objects }

unfoldable pub pop : MarkStack → Option ℕ × MarkStack
pop s = elim s.objects [ [] ↦ (none, s) | id ∷ rest ↦ (some id, record { objects = rest }) ]

unfoldable pub len : MarkStack → ℕ
len s = length s.objects

unfoldable pub is_empty : MarkStack → Bool
is_empty s = elim s.objects [ [] ↦ true | _ ∷ _ ↦ false ]

unfoldable pub has : MarkStack → ℕ → Bool
unfolding ℕ_discrete
has s id = contains ℕ_discrete s.objects id

pub data Phase : Type 0 where
  idle marking sweeping : Phase

-- `*self.phase == Phase::Marking`
abbrev pub is_marking : Phase → Bool
is_marking marking = true
is_marking _ = false

pub record WriteBarrier : Type 0 where
  pub phase : Phase
  pub stack : MarkStack

unfoldable pub pre_write : WriteBarrier → ℕ → WriteBarrier
unfolding push
pre_write b overwritten =
    if is_marking b.phase then record b { stack = push b.stack overwritten } else b

pub record MutableGraph : Type 0 where
  pub roots : List ℕ
  pub edges : List (ℕ × List ℕ)

-- `self.edges.get(&id).cloned().unwrap_or_default()`
unfoldable pub refs_of : MutableGraph → ℕ → List ℕ
unfolding ℕ_discrete
refs_of g id = elim (lookup ℕ_discrete id g.edges) [ none ↦ [] | some refs ↦ refs ]

unfoldable pub add_root : MutableGraph → ℕ → MutableGraph
add_root g id = record g { roots = g.roots ++ id ∷ [] }

unfoldable pub add_node : MutableGraph → ℕ → MutableGraph
unfolding refs_of
add_node g id = record g { edges = insert ℕ_discrete id (refs_of g id) g.edges }

unfoldable pub add_edge : MutableGraph → ℕ → ℕ → MutableGraph
unfolding refs_of
add_edge g src dst = record g { edges = insert ℕ_discrete src (refs_of g src ++ dst ∷ []) g.edges }

-- The `for` loop of `replace_edge`: the first entry that is `old` becomes `new`.
unfoldable pub replace_first : List ℕ → ℕ → ℕ → Outcome (List ℕ)
replace_first [] old new = panic
replace_first (e ∷ es) old new =
    let rest = replace_first es old new >>= λ es'. ok (e ∷ es') in
    if e == old then ok (new ∷ es) else rest

unfoldable pub replace_edge : MutableGraph → ℕ → ℕ → ℕ → Outcome MutableGraph
unfolding refs_of replace_first
replace_edge g src old new = replace_first (refs_of g src) old new >>= λ refs.
    ok (record g { edges = insert ℕ_discrete src refs g.edges })

-- The `for` loop over the children in `drain_marker`.
unfoldable pub push_white : List ℕ → MarkStack → List ℕ → MarkStack
unfolding push ℕ_discrete
push_white black stack [] = stack
push_white black stack (child ∷ children) =
    push_white black (if contains ℕ_discrete black child then stack else push stack child) children

-- The `while let` loop of `drain_marker`, with fuel; `none` means that the fuel ran out. The result
-- is the set of black objects.
unfoldable pub drain_loop : (ℕ → List ℕ) → ℕ → List ℕ → MarkStack → Option (List ℕ)
unfolding push_white ℕ_discrete pop
drain_loop refs zero black stack = none
drain_loop refs (suc fuel) black stack =
    let (next, rest) = pop stack in
    elim next [
      | none ↦ some black
      | some id ↦ elim (contains ℕ_discrete black id) [
        | true ↦ drain_loop refs fuel black rest
        | false ↦ drain_loop refs fuel (id ∷ black) (push_white (id ∷ black) rest (refs id))
      ]
    ]

unfoldable pub drain_marker : MutableGraph → ℕ → MarkStack → Option (List ℕ)
unfolding drain_loop
drain_marker graph fuel stack = drain_loop (refs_of graph) fuel [] stack
