-- ===== src/Barrier/Overwrite.antt =====
-- The deletion barrier of src/barrier.rs on one thread: a collector that scans objects one by one, and
-- between two scans a mutator that calls `pre_write` before each reference that it replaces.
use samsara.Prelude.{
  ℕ, suc, ◌+◌, ◌<◌, ◌≡◌, ◌↔◌, inl, inr, ⊎_elim, Option, some, List, [], ◌∷◌, ◌++◌, length,
  contains_iff, ◌∈◌, mem-append, Subset, ◌==◌, arith, Bool-cases, ℕ_discrete, subst, sym, ap, ◌∙◌,
  get_elem?, set, ok, insert, lookup-insert, Outcome-cases,
}
use mathlib.Core.Path.{fun_ext}
use samsara.Marker.{ObjectGraph}
use samsara.Marker.Loop.{Reach, root, edge}
use samsara.Snapshot.{
  Safe, Safe-mono, Safe-scan, Safe-store, Safe-link, Safe-start, update, black_of_Safe,
}
use samsara.Barrier.{
  MarkStack, push, marking, WriteBarrier, pre_write, MutableGraph, refs_of, add_edge, replace_first,
  replace_edge, push_white, drain_marker,
}
use samsara.Barrier.Drain.{mem-push_white, unscanned, drain_lem}

-- A cycle in progress, with the phase at `Marking`.
pub record Cycle : Type 0 where
  pub graph : MutableGraph
  pub stack : MarkStack
  pub black : List ℕ

abbrev barrier : Cycle → WriteBarrier
barrier c = record { phase = marking; stack = c.stack }

pub data Step (c : Cycle) : Cycle → Type 0 where
  -- The collector takes an id and scans it, or drops it if it is black.
  scans :
      (id : ℕ) (rest : List ℕ)
      → c.stack.objects ≡ id ∷ rest
      → Step c (record c {
        stack = push_white (id ∷ c.black) (record { objects = rest }) (refs_of c.graph id);
        black = id ∷ c.black;
      })
  drops :
      (id : ℕ) (rest : List ℕ)
      → c.stack.objects ≡ id ∷ rest
      → id ∈ c.black
      → Step c (record c { stack = record { objects = rest } })
  -- The mutator: `pre_write(old)`, then `replace_edge`; a new reference; an id that it pushes itself.
  overwrites :
      (src old new : ℕ) {graph : MutableGraph}
      → replace_edge c.graph src old new ≡ ok graph
      → Step c (record c { graph = graph; stack = (pre_write (barrier c) old).stack })
  links : (src new : ℕ) → Step c (record c { graph = add_edge c.graph src new })
  pushes : (id : ℕ) → Step c (record c { stack = push c.stack id })

-- The snapshot that a cycle starts from.
abbrev pub snapshot : MutableGraph → ObjectGraph ℕ
snapshot m = record { roots = m.roots; refs_of = refs_of m; all_ids = [] }

pub data Reaches (m : MutableGraph) : Cycle → Type 0 where
  begin : Reaches m (record { graph = m; stack = record { objects = m.roots }; black = [] })
  later : {c c' : Cycle} → Reaches m c → Step c c' → Reaches m c'

one_item : {o : Option ℕ} {a b : ℕ} → o ≡ some a → o ≡ some b → a ≡ b
one_item p q = cc

-- `replace_first` overwrites one slot that held `old`.
replace_first-ok :
    (es : List ℕ) (old new : ℕ) {es' : List ℕ}
    → replace_first es old new ≡ ok es'
    → (i : ℕ) × (get_elem? es i ≡ some old) × (es' ≡ set es i new)
unfolding replace_first
replace_first-ok [] old new h = cc
replace_first-ok (e ∷ es) old new h = elim (Bool-cases (e == old)) [
  | inl here ↦ (0, ground arith, ground arith)
  | inr other ↦ elim (Outcome-cases (replace_first es old new)) [
    | inl fails ↦ ground arith
    | inr (rest, found) ↦
        let (i, at_i, same) = replace_first-ok es old new found in
        (suc i, at_i, ground (arith, same))
  ]
]

refs_of-insert :
    (m : MutableGraph) (src : ℕ) (items : List ℕ)
    → refs_of (record m { edges = insert ℕ_discrete src items m.edges })
      ≡ update (refs_of m) src items
unfolding refs_of
refs_of-insert m src items =
    fun_ext λ id. ground (arith, lookup-insert ℕ_discrete src id items m.edges)

refs_of-add_edge :
    (m : MutableGraph) (src new : ℕ)
    → refs_of (add_edge m src new) ≡ update (refs_of m) src (refs_of m src ++ new ∷ [])
unfolding add_edge
refs_of-add_edge m src new = refs_of-insert m src _

refs_of-replace_edge :
    (m : MutableGraph) (src old new : ℕ) {m' : MutableGraph}
    → replace_edge m src old new ≡ ok m'
    → (i : ℕ) × (get_elem? (refs_of m src) i ≡ some old)
      × (refs_of m' ≡ update (refs_of m) src (set (refs_of m src) i new))
unfolding replace_edge
refs_of-replace_edge m src old new {m'} e =
    elim (Outcome-cases (replace_first (refs_of m src) old new)) [
      | inl fails ↦ ground arith
      | inr (items, found) ↦
          let (i, at_i, same) = replace_first-ok (refs_of m src) old new found in
          let made : record m { edges = insert ℕ_discrete src items m.edges } ≡ m' = ground arith in
          (
            i,
            at_i,
            ap refs_of (sym made) ∙ refs_of-insert m src items ∙ ap (update (refs_of m) src) same,
          )
    ]

abbrev IsSafe : ObjectGraph ℕ → Cycle → Type 0
IsSafe g c = Safe g (refs_of c.graph) c.black c.stack.objects

module _ {g : ObjectGraph ℕ} (c : Cycle) (safe : IsSafe g c) where
  scan-Safe :
      (id : ℕ) (rest : List ℕ)
      → c.stack.objects ≡ id ∷ rest
      → Safe g
          (refs_of c.graph)
          (id ∷ c.black)
          (push_white (id ∷ c.black) (record { objects = rest }) (refs_of c.graph id)).objects
  scan-Safe id rest e =
      let cs = refs_of c.graph id in
      let pushed = λ (v : ℕ). mem-push_white (id ∷ c.black) (record { objects = rest }) cs v in
      let split = λ (v : ℕ) (m : v ∈ c.stack.objects). subst (λ l. v ∈ l) e m in
      Safe-scan safe id _ (λ v m. ground (arith, m, split v, pushed v))
        (λ v m. ground (arith, m, pushed v, contains_iff ℕ_discrete (id ∷ c.black) v))

  -- The barrier has put the target that is cut off on the stack.
  overwrite-Safe :
      (src old new : ℕ) {graph : MutableGraph}
      → replace_edge c.graph src old new ≡ ok graph
      → Safe g (refs_of graph) c.black (pre_write (barrier c) old).stack.objects
  unfolding pre_write
  overwrite-Safe src old new e =
      let (i, at_i, same) = refs_of-replace_edge c.graph src old new e in
      let captured =
        Safe-mono safe (old ∷ c.stack.objects) (λ v m. ⊎_elim inl (λ q. inr (inr q)) m) in
      subst (λ r. Safe g r c.black (old ∷ c.stack.objects)) (sym same)
        (Safe-store captured src i new λ v was now. inr (inl (one_item now at_i)))

Step-IsSafe : {g : ObjectGraph ℕ} {c c' : Cycle} → Step c c' → IsSafe g c → IsSafe g c'
unfolding push
Step-IsSafe {c} (scans id rest e) safe = scan-Safe c safe id rest e
Step-IsSafe {c} (drops id rest e old) safe = Safe-mono safe rest λ v m.
    ⊎_elim inl
      (λ q.
        ⊎_elim (λ same. inl (subst (λ w. w ∈ c.black) (sym same) old)) inr (subst (λ l. v ∈ l) e q))
      m
Step-IsSafe {c} (overwrites src old new e) safe = overwrite-Safe c safe src old new e
Step-IsSafe {g} {c} (links src new) safe =
    subst (λ r. Safe g r c.black c.stack.objects) (sym (refs_of-add_edge c.graph src new))
      (Safe-link safe src new)
Step-IsSafe (pushes id) safe = Safe-mono safe _ λ v m. ⊎_elim inl (λ q. inr (inr q)) m

Reaches-IsSafe : {m : MutableGraph} {c : Cycle} → Reaches m c → IsSafe (snapshot m) c
Reaches-IsSafe {m} begin = Safe-start (snapshot m)
Reaches-IsSafe (later r st) = Step-IsSafe st (Reaches-IsSafe r)

-- With the phase at `Marking`, a collector takes ids from the stack and scans each, or drops it if it is
-- black; between two scans the mutator replaces references, each after a call of `pre_write` on the one that it overwrites, adds
-- references, and pushes ids. In any state that they come to from the roots, if the objects at hand are
-- finitely many, `drain_marker` ends with enough fuel. Each object that was reachable from the roots
-- when marking began is then in its set, or was black before.
pub satb_preserves :
    {m : MutableGraph} {c : Cycle} (ids : List ℕ) (fuel : ℕ)
    → Reaches m c
    → ((u : ℕ) → u ∈ ids → Subset (refs_of c.graph u) ids)
    → Subset c.stack.objects ids
    → unscanned (refs_of c.graph) ids [] + length c.stack.objects < fuel
    → (result : List ℕ) × (drain_marker c.graph fuel c.stack ≡ some result)
      × ((v : ℕ) → Reach (snapshot m) v → v ∈ (result ++ c.black))
unfolding drain_marker
satb_preserves {m} {c} ids fuel r finite within enough =
    let (result, done, safe, _) =
      drain_lem (refs_of c.graph) (snapshot m) c.black ids (λ _. Unit {0}) finite (λ u v p e. tt)
        fuel [] c.stack (Reaches-IsSafe r) within (λ v p. tt) (λ v p. tt) enough in
    (result, done, λ v p. black_of_Safe safe v p)

-- On a graph that nobody changes, with finitely many objects, `drain_marker` from the roots ends with
-- enough fuel, in exactly the reachable objects.
pub drain_marker_lem :
    (m : MutableGraph) (ids : List ℕ) (fuel : ℕ)
    → ((u : ℕ) → u ∈ ids → Subset (refs_of m u) ids)
    → Subset m.roots ids
    → unscanned (refs_of m) ids [] + length m.roots < fuel
    → (result : List ℕ) × (drain_marker m fuel (record { objects = m.roots }) ≡ some result)
      × ((v : ℕ) → (v ∈ result) ↔ Reach (snapshot m) v)
unfolding drain_marker
drain_marker_lem m ids fuel finite within enough =
    let (result, done, safe, sound) =
      drain_lem (refs_of m) (snapshot m) [] ids (Reach (snapshot m)) finite (λ u v p e. edge p e)
        fuel [] (record { objects = m.roots }) (Safe-start (snapshot m)) within (λ v q. absurd q)
        (λ v q. root q) enough in
    (
      result,
      done,
      λ v. (sound v, λ p. ground (arith, black_of_Safe safe v p, mem-append v result [])),
    )
