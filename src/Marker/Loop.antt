-- ===== src/Marker/Loop.antt =====
-- The `while` loop of `mark` (src/marker.rs): its invariant, and its end.
use samsara.Prelude.{
  sym, ℕ, zero, suc, ◌+◌, ◌≤◌, ◌≡◌, refl, ◌⊎◌, inl, inr, ⊎_elim, some, List, [], ◌∷◌, length,
  contains_iff, lookup, lookup-insert, ◌∈◌, Subset, IsDistinct, length-le_of_subset, arith,
  List-cases, ap, subst,
}
use samsara.Marker.{grey, black, ObjectGraph, Marking, discover_all, scan, drain, all_white, start}
use samsara.Marker.Invariant.{
  seen-discover_all, queue-discover_all, color-discover_all, balance-discover_all,
  discover_all-IsDistinct,
}

-- The objects that a path of references leads to from a root.
pub data Reach {Obj : Type 0} (g : ObjectGraph Obj) : Obj → Type 0 where
  root : {v : Obj} → v ∈ g.roots → Reach g v
  edge : {u v : Obj} → Reach g u → v ∈ g.refs_of u → Reach g v

-- The objects are among those of a list: the graph is finite.
pub record IsWithin {Obj : Type 0} (g : ObjectGraph Obj) (ids : List Obj) : Type 0 where
  pub roots : Subset g.roots ids
  pub refs : (u : Obj) → u ∈ ids → Subset (g.refs_of u) ids

pub Reach-within :
    {Obj : Type 0} {g : ObjectGraph Obj} {ids : List Obj}
    → IsWithin g ids
    → (v : Obj) → Reach g v
    → v ∈ ids
Reach-within w v (root r) = w.roots v r
Reach-within w v (edge {u} p e) = w.refs u (Reach-within w u p) v e

module _ {Obj : Type 0} (eq : Discrete Obj) (g : ObjectGraph Obj) where
  -- Between two rounds of the `while` loop. The colours follow the set of seen ids and the queue.
  pub record Inv (m : Marking Obj) : Type 0 where
    pub roots : (v : Obj) → v ∈ g.roots → v ∈ m.seen
    pub queued : (v : Obj) → v ∈ m.grey_queue → v ∈ m.seen
    pub sound : (v : Obj) → v ∈ m.seen → Reach g v
    pub closed : (u v : Obj) → u ∈ m.seen → v ∈ g.refs_of u → (u ∈ m.grey_queue) ⊎ (v ∈ m.seen)
    pub found :
        (v : Obj)
        → v ∈ m.seen
        → (v ∈ m.grey_queue) × (lookup eq v m.color ≡ some grey)
          ⊎ (lookup eq v m.color ≡ some black)
    pub unseen :
        (v : Obj) → ¬ (v ∈ m.seen) → lookup eq v m.color ≡ lookup eq v (all_white eq g.all_ids)
    pub distinct : IsDistinct m.seen

  pub Inv-start : Inv (start eq g)
  unfolding start
  Inv-start =
      let m : Marking Obj = record { color = all_white eq g.all_ids; grey_queue = []; seen = [] } in
      let in_seen = λ (v : Obj). seen-discover_all eq m g.roots v in
      let in_queue = λ (v : Obj). queue-discover_all eq m g.roots v in
      let colors = λ (v : Obj). color-discover_all eq m g.roots v in
      record {
        roots = λ v r. (in_seen v).1 (inr r);
        queued = λ v q. ground (arith, in_seen v, in_queue v);
        sound = λ v s. root (ground (arith, in_seen v));
        closed = λ u v s e. inl (ground (arith, in_seen u, in_queue u));
        found = λ v s. ground (arith, in_seen v, in_queue v, colors v);
        unseen = λ v s. ground (arith, in_seen v, colors v);
        distinct = discover_all-IsDistinct eq m g.roots tt;
      }

  pub balance-start : length (start eq g).seen ≡ length (start eq g).grey_queue
  unfolding start
  balance-start = omega (arith, balance-discover_all eq _ g.roots)

  pub Inv-scan :
      (m : Marking Obj) (id : Obj) (rest : List Obj)
      → m.grey_queue ≡ id ∷ rest
      → Inv m
      → Inv (scan eq g m id rest)
  unfolding scan
  Inv-scan m id rest e inv =
      let m' = record m { grey_queue = rest } in
      let ids = g.refs_of id in
      let in_seen = λ (v : Obj). seen-discover_all eq m' ids v in
      let in_queue = λ (v : Obj). queue-discover_all eq m' ids v in
      let colors = λ (v : Obj). color-discover_all eq m' ids v in
      let paint = λ (v : Obj). lookup-insert eq id v black (discover_all eq m' ids).color in
      let head : id ∈ m.grey_queue = subst (λ q. id ∈ q) (sym e) (inl refl) in
      let split = λ (v : Obj) (q : v ∈ m.grey_queue). subst (λ l. v ∈ l) e q in
      record {
        roots = λ v r. (in_seen v).1 (inl (inv.roots v r));
        queued = λ v q. ground (arith, in_seen v, in_queue v, inv.queued v, e);
        sound = λ v s.
            ⊎_elim (inv.sound v) (λ i. edge (inv.sound id (inv.queued id head)) i)
              ((in_seen v).0 s);
        closed = λ u v s i.
            let moved = λ (p : u ≡ id). subst (λ w. v ∈ g.refs_of w) p i in
            ground (
              arith,
              in_seen u,
              in_seen v,
              in_queue u,
              inv.closed u v,
              split u,
              moved,
              contains_iff eq m.seen u,
            );
        found = λ v s. ground (
          arith,
          in_seen v,
          in_queue v,
          colors v,
          paint v,
          eq v id,
          inv.found v,
          split v,
          contains_iff eq m.seen v,
        );
        unseen = λ v s.
            ground (arith, in_seen v, colors v, paint v, eq v id, inv.unseen v, inv.queued id head);
        distinct = discover_all-IsDistinct eq m' ids inv.distinct;
      }

  -- One more round of fuel for each id of `ids` that has not left the queue.
  pub Inv-drain :
      (ids : List Obj)
      → ((v : Obj) → Reach g v → v ∈ ids)
      → (fuel : ℕ) (m : Marking Obj) → Inv m
      → length ids + length m.grey_queue ≤ fuel + length m.seen
      → (t : Marking Obj) × (drain eq g fuel m ≡ some t.color) × Inv t × (t.grey_queue ≡ [])
  unfolding drain
  Inv-drain ids all zero m inv h = elim (List-cases m.grey_queue) [
    | inl empty ↦ (m, ground (arith, empty), inv, empty)
    | inr (id, rest, e) ↦
        let few = length-le_of_subset eq m.seen ids inv.distinct (λ v s. all v (inv.sound v s)) in
        absurd (omega (arith, few, ap length e))
  ]
  Inv-drain ids all (suc fuel) m inv h = elim (List-cases m.grey_queue) [
    | inl empty ↦ (m, ground (arith, empty), inv, empty)
    | inr (id, rest, e) ↦
        let inv' = Inv-scan m id rest e inv in
        let balance = balance-discover_all eq (record m { grey_queue = rest }) (g.refs_of id) in
        let enough : length ids + length (scan eq g m id rest).grey_queue
            ≤ fuel + length (scan eq g m id rest).seen =
          unfold scan in omega (arith, balance, ap length e) in
        let (t, done, inv_t, empty) = Inv-drain ids all fuel (scan eq g m id rest) inv' enough in
        (t, ground (arith, e, done), inv_t, empty)
  ]
