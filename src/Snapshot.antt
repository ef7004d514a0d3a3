-- ===== src/Snapshot.antt =====
-- The invariant behind the deletion barrier of src/barrier.rs and src/concurrent.rs: `g` is the graph
-- at the start of marking (the snapshot), `refs` is the graph now, `black` are the scanned objects and
-- `grey` those that wait somewhere to be scanned.
use samsara.Prelude.{
  ℕ, zero, suc, ◌≡◌, ◌⊎◌, inl, inr, ⊎_elim, some, List, [], ◌∷◌, ◌++◌, get_elem?, set,
  get_elem?-set, ◌∈◌, if◌then◌else◌, ◌==◌, arith, ℕ_discrete, subst,
}
use samsara.Marker.{ObjectGraph}
use samsara.Marker.Loop.{Reach, root, edge}

-- The references after those of object `src` became `items`.
abbrev pub update : (ℕ → List ℕ) → ℕ → List ℕ → ℕ → List ℕ
update refs src items id = if id == src then items else refs id

abbrev pub Marked : List ℕ → List ℕ → ℕ → Type 0
Marked black grey v = (v ∈ black) ⊎ (v ∈ grey)

-- The roots of the snapshot are marked. The target of a reference of the snapshot is marked, or the
-- reference is still in its slot of an object that is not yet scanned.
pub record Safe (g : ObjectGraph ℕ) (refs : ℕ → List ℕ) (black grey : List ℕ) : Type 0 where
  pub roots : (v : ℕ) → v ∈ g.roots → Marked black grey v
  pub edges :
      (u i v : ℕ)
      → get_elem? (g.refs_of u) i ≡ some v
      → ¬ (u ∈ black) × (get_elem? (refs u) i ≡ some v) ⊎ Marked black grey v

pub mem_of_get_elem? : (xs : List ℕ) (i v : ℕ) → get_elem? xs i ≡ some v → v ∈ xs
mem_of_get_elem? [] i v e = cc
mem_of_get_elem? (x ∷ xs) zero v e = inl (ground arith)
mem_of_get_elem? (x ∷ xs) (suc i) v e = inr (mem_of_get_elem? xs i v e)

pub get_elem?_of_mem : (xs : List ℕ) (v : ℕ) → v ∈ xs → (i : ℕ) × (get_elem? xs i ≡ some v)
get_elem?_of_mem [] v m = absurd m
get_elem?_of_mem (x ∷ xs) v (inl e) = (0, ground arith)
get_elem?_of_mem (x ∷ xs) v (inr m) = let (i, e) = get_elem?_of_mem xs v m in (suc i, e)

get_elem?-snoc :
    (xs : List ℕ) (i v x : ℕ) → get_elem? xs i ≡ some v → get_elem? (xs ++ x ∷ []) i ≡ some v
get_elem?-snoc [] i v x e = cc
get_elem?-snoc (y ∷ xs) zero v x e = e
get_elem?-snoc (y ∷ xs) (suc i) v x e = get_elem?-snoc xs i v x e

pub Safe-start : (g : ObjectGraph ℕ) → Safe g g.refs_of [] g.roots
Safe-start g = record { roots = λ v r. inr r; edges = λ u i v e. inl (λ m. m, e) }

module _ {g : ObjectGraph ℕ} {refs : ℕ → List ℕ} {black grey : List ℕ}
    (safe : Safe g refs black grey) where
  -- Nothing marked is lost.
  pub Safe-mono :
      (grey' : List ℕ)
      → ((v : ℕ) → Marked black grey v → Marked black grey' v)
      → Safe g refs black grey'
  Safe-mono grey' keep = record {
    roots = λ v r. keep v (safe.roots v r);
    edges = λ u i v e. ⊎_elim inl (λ m. inr (keep v m)) (safe.edges u i v e);
  }

  -- An object is scanned: its references are marked.
  pub Safe-scan :
      (id : ℕ) (grey' : List ℕ)
      → ((v : ℕ) → Marked black grey v → Marked (id ∷ black) grey' v)
      → ((v : ℕ) → v ∈ refs id → Marked (id ∷ black) grey' v)
      → Safe g refs (id ∷ black) grey'
  Safe-scan id grey' keep scanned = record {
    roots = λ v r. keep v (safe.roots v r);
    edges = λ u i v e. elim (ℕ_discrete u id) [
      | yes same ↦
          ⊎_elim
            (λ (_, now). inr (
              scanned v (
                mem_of_get_elem? (refs id) i v
                  (subst (λ w. get_elem? (refs w) i ≡ some v) same now))))
            (λ m. inr (keep v m)) (safe.edges u i v e)
      | no other ↦
          ⊎_elim (λ (white, now). inl (⊎_elim other white, now)) (λ m. inr (keep v m))
            (safe.edges u i v e)
    ];
  }

  -- A reference is overwritten, where the target of the snapshot is marked.
  pub Safe-store :
      (src slot new : ℕ)
      → ((v : ℕ)
          → get_elem? (g.refs_of src) slot ≡ some v
          → get_elem? (refs src) slot ≡ some v
          → Marked black grey v)
      → Safe g (update refs src (set (refs src) slot new)) black grey
  Safe-store src slot new captured = record {
    roots = safe.roots;
    edges = λ u i v e. ⊎_elim (λ (white, now). kept u i v e white now) inr (safe.edges u i v e);
  }
    where
      kept :
          (u i v : ℕ)
          → get_elem? (g.refs_of u) i ≡ some v
          → ¬ (u ∈ black)
          → get_elem? (refs u) i ≡ some v
          → ¬ (u ∈ black) × (get_elem? (update refs src (set (refs src) slot new) u) i ≡ some v)
            ⊎ Marked black grey v
      kept u i v e white now = elim (ℕ_discrete u src) [
        | no other ↦ inl (white, ground arith)
        | yes same ↦
            let e' : get_elem? (g.refs_of src) i ≡ some v =
              subst (λ w. get_elem? (g.refs_of w) i ≡ some v) same e in
            let now' : get_elem? (refs src) i ≡ some v =
              subst (λ w. get_elem? (refs w) i ≡ some v) same now in
            elim (ℕ_discrete i slot) [
              | yes here ↦ inr (
                  captured v (subst (λ k. get_elem? (g.refs_of src) k ≡ some v) here e')
                    (subst (λ k. get_elem? (refs src) k ≡ some v) here now'))
              | no apart ↦ inl (white, ground (arith, get_elem?-set (refs src) slot i new))
            ]
      ]

  -- A reference is added.
  pub Safe-link : (src new : ℕ) → Safe g (update refs src (refs src ++ new ∷ [])) black grey
  Safe-link src new = record {
    roots = safe.roots;
    edges =
        λ u i v e. ⊎_elim (λ (white, now). inl (white, kept u i v now)) inr (safe.edges u i v e);
  }
    where
      kept :
          (u i v : ℕ)
          → get_elem? (refs u) i ≡ some v
          → get_elem? (update refs src (refs src ++ new ∷ []) u) i ≡ some v
      kept u i v now = elim (ℕ_discrete u src) [
        | no other ↦ ground arith
        | yes same ↦
            let now' : get_elem? (refs src) i ≡ some v =
              subst (λ w. get_elem? (refs w) i ≡ some v) same now in
            ground (arith, get_elem?-snoc (refs src) i v new now')
      ]

-- With nothing left to scan, all that was reachable at the start is black.
pub black_of_Safe :
    {g : ObjectGraph ℕ} {refs : ℕ → List ℕ} {black : List ℕ}
    → Safe g refs black []
    → (v : ℕ) → Reach g v
    → v ∈ black
black_of_Safe safe v (root r) = ⊎_elim (λ m. m) (λ m. absurd m) (safe.roots v r)
black_of_Safe {g} safe v (edge {u} p e) =
    let (i, slot) = get_elem?_of_mem (g.refs_of u) v e in
    let scanned = black_of_Safe safe u p in
    ⊎_elim (λ (white, _). absurd (white scanned)) (⊎_elim (λ m. m) (λ m. absurd m))
      (safe.edges u i v slot)
