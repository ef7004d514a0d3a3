-- ===== src/Marker/Invariant.antt =====
-- What the loops of `mark` (src/marker.rs) do to the set of seen ids, the queue and the colours.
use samsara.Prelude.{
  ◌+◌, ◌≡◌, ◌↔◌, ◌⊎◌, some, List, [], ◌∷◌, ◌++◌, length, length-append, contains_iff, lookup,
  lookup-insert, ◌∈◌, IsDistinct, arith,
}
use samsara.Marker.{grey, Marking, discover, discover_all}

module _ {Obj : Type 0} (eq : Discrete Obj) where
  mem-snoc : (x y : Obj) (xs : List Obj) → (x ∈ (xs ++ y ∷ [])) ↔ ((x ∈ xs) ⊎ (x ≡ y))
  mem-snoc x y [] = ground arith
  mem-snoc x y (z ∷ xs) = ground (arith, mem-snoc x y xs)

  pub seen-discover_all :
      (m : Marking Obj) (ids : List Obj) (x : Obj)
      → (x ∈ (discover_all eq m ids).seen) ↔ ((x ∈ m.seen) ⊎ (x ∈ ids))
  unfolding discover_all discover
  seen-discover_all m [] x = ground arith
  seen-discover_all m (id ∷ ids) x =
      ground (arith, seen-discover_all (discover eq m id) ids x, contains_iff eq m.seen id)

  pub queue-discover_all :
      (m : Marking Obj) (ids : List Obj) (x : Obj)
      → (x ∈ (discover_all eq m ids).grey_queue) ↔ ((x ∈ m.grey_queue) ⊎ (x ∈ ids) × ¬ (x ∈ m.seen))
  unfolding discover_all discover
  queue-discover_all m [] x = ground arith
  queue-discover_all m (id ∷ ids) x = ground (
    arith,
    queue-discover_all (discover eq m id) ids x,
    contains_iff eq m.seen id,
    contains_iff eq m.seen x,
    mem-snoc x id m.grey_queue,
    eq x id,
  )

  -- An id that is found gets grey, and no other changes colour.
  pub color-discover_all :
      (m : Marking Obj) (ids : List Obj) (x : Obj)
      → ((x ∈ ids) × ¬ (x ∈ m.seen) × (lookup eq x (discover_all eq m ids).color ≡ some grey))
        ⊎ (((x ∈ m.seen) ⊎ ¬ (x ∈ ids))
            × (lookup eq x (discover_all eq m ids).color ≡ lookup eq x m.color))
  unfolding discover_all discover
  color-discover_all m [] x = ground arith
  color-discover_all m (id ∷ ids) x = ground (
    arith,
    color-discover_all (discover eq m id) ids x,
    contains_iff eq m.seen id,
    contains_iff eq m.seen x,
    lookup-insert eq id x grey m.color,
    eq x id,
  )

  -- As many ids are queued as are found.
  pub balance-discover_all :
      (m : Marking Obj) (ids : List Obj)
      → length (discover_all eq m ids).seen + length m.grey_queue
        ≡ length m.seen + length (discover_all eq m ids).grey_queue
  unfolding discover_all discover
  balance-discover_all m [] = omega arith
  balance-discover_all m (id ∷ ids) =
      ground
        (arith, balance-discover_all (discover eq m id) ids, length-append m.grey_queue (id ∷ []))

  pub discover_all-IsDistinct :
      (m : Marking Obj) (ids : List Obj)
      → IsDistinct m.seen
      → IsDistinct (discover_all eq m ids).seen
  unfolding discover_all discover
  discover_all-IsDistinct m [] d = d
  discover_all-IsDistinct m (id ∷ ids) d =
      discover_all-IsDistinct (discover eq m id) ids (ground (arith, contains_iff eq m.seen id))
