-- ===== src/Hazard/Scan.antt =====
-- What a reclaimer sees of the registry (src/hazard.rs).
use samsara.Prelude.{
  ℕ, zero, suc, ◌≡◌, ◌≢◌, ◌↔◌, inl, inr, some, true, List, [], ◌∷◌, get_elem?, Bool-cases, ◌&&◌,
  ◌==◌, ◌∈◌, arith, refl,
}
use samsara.Memory.{null}
use samsara.Hazard.{Slot, HazardRegistry, any_publishes, is_hazarded, published, snapshot}

-- Some slot in use holds the pointer.
abbrev pub Publishes : List Slot → ℕ → Type 0
Publishes ss ptr =
    (i : ℕ) × (s : Slot) × (get_elem? ss i ≡ some s) × (s.in_use ≡ true) × (s.ptr ≡ ptr)

any_publishes_sound : (ss : List Slot) (ptr : ℕ) → any_publishes ss ptr ≡ true → Publishes ss ptr
unfolding any_publishes
any_publishes_sound [] ptr e = cc
any_publishes_sound (s ∷ ss) ptr e = elim (Bool-cases (s.in_use && s.ptr == ptr)) [
  | inl hit ↦ (0, s, refl, ground arith, ground arith)
  | inr miss ↦
      let (i, t, at_i, used, same) = any_publishes_sound ss ptr (ground (arith, miss, e)) in
      (suc i, t, at_i, used, same)
]

any_publishes_complete :
    (ss : List Slot) (ptr i : ℕ) (s : Slot)
    → get_elem? ss i ≡ some s
    → s.in_use ≡ true
    → s.ptr ≡ ptr
    → any_publishes ss ptr ≡ true
unfolding any_publishes
any_publishes_complete [] ptr i s e u p = cc
any_publishes_complete (t ∷ ss) ptr zero s e u p = ground arith
any_publishes_complete (t ∷ ss) ptr (suc i) s e u p =
    ground (arith, any_publishes_complete ss ptr i s e u p)

-- `is_hazarded` answers whether some slot in use holds the pointer.
pub is_hazarded_iff :
    (r : HazardRegistry) (ptr : ℕ) → (is_hazarded r ptr ≡ true) ↔ Publishes r.slots ptr
unfolding is_hazarded
is_hazarded_iff r ptr = (
  any_publishes_sound r.slots ptr,
  λ (i, s, e, u, p). any_publishes_complete r.slots ptr i s e u p,
)

mem-published :
    (ss : List Slot) (ptr : ℕ)
    → (ptr ∈ published ss) ↔ ((ptr ≢ null) × (any_publishes ss ptr ≡ true))
unfolding published any_publishes
mem-published [] ptr = ground arith
mem-published (s ∷ ss) ptr = ground (arith, mem-published ss ptr)

-- The snapshot lists the pointers that are not null and that `is_hazarded` answers for.
pub mem-snapshot :
    (r : HazardRegistry) (ptr : ℕ)
    → (ptr ∈ snapshot r) ↔ ((ptr ≢ null) × (is_hazarded r ptr ≡ true))
unfolding snapshot is_hazarded
mem-snapshot r ptr = mem-published r.slots ptr
