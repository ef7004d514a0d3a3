-- ===== src/Hazard.antt =====
-- The hazard-pointer registry (src/hazard.rs). A pointer is a number, the null pointer 0. Each method is
-- here a call that no other thread interrupts. A `HazardSlot` is the index that it owns.
pub mod Guards
pub mod Scan
mod Examples
use samsara.Memory.{null}
use samsara.Prelude.{
  ℕ, zero, suc, ◌+◌, Option, none, some, Bool, true, false, not, ◌&&◌, List, [], ◌∷◌, ◌==◌,
  if◌then◌else◌, replicate, get_elem?, set,
}

abbrev pub max_hazards : ℕ
max_hazards = 64

pub record Slot : Type 0 where
  pub in_use : Bool
  pub ptr : ℕ

abbrev pub new_slot : Slot
new_slot = record { in_use = false; ptr = null }

pub record HazardRegistry : Type 0 where
  pub slots : List Slot

unfoldable pub new_registry : HazardRegistry
new_registry = record { slots = replicate max_hazards new_slot }

-- The loop of `acquire` from index `i` on: the slot that it claimed, if any, and the slots.
unfoldable pub claim_from : ℕ → List Slot → Option ℕ × List Slot
claim_from i [] = (none, [])
claim_from i (s ∷ ss) =
    let (found, rest) = claim_from (i + 1) ss in
    if s.in_use then (found, s ∷ rest) else (some i, record s { in_use = true } ∷ ss)

unfoldable pub acquire : HazardRegistry → Option ℕ × HazardRegistry
unfolding claim_from
acquire r = let (found, slots) = claim_from 0 r.slots in (found, record { slots = slots })

unfoldable pub any_publishes : List Slot → ℕ → Bool
any_publishes [] target = false
any_publishes (s ∷ ss) target =
    if s.in_use && s.ptr == target then true else any_publishes ss target

unfoldable pub is_hazarded : HazardRegistry → ℕ → Bool
unfolding any_publishes
is_hazarded r ptr = any_publishes r.slots ptr

unfoldable pub published : List Slot → List ℕ
published [] = []
published (s ∷ ss) =
    if s.in_use
    then (if s.ptr == null then published ss else s.ptr ∷ published ss)
    else published ss

unfoldable pub snapshot : HazardRegistry → List ℕ
unfolding published
snapshot r = published r.slots

-- `self.registry.slots[self.idx].ptr.store(ptr)`
unfoldable pub protect : HazardRegistry → ℕ → ℕ → HazardRegistry
protect r idx ptr = elim (get_elem? r.slots idx) [
  | none ↦ r
  | some s ↦ record { slots = set r.slots idx (record s { ptr = ptr }) }
]

unfoldable pub clear : HazardRegistry → ℕ → HazardRegistry
unfolding protect
clear r idx = protect r idx null

-- `self.registry.slots[self.idx].in_use.store(false)`
unfoldable pub vacate : HazardRegistry → ℕ → HazardRegistry
vacate r idx = elim (get_elem? r.slots idx) [
  | none ↦ r
  | some s ↦ record { slots = set r.slots idx (record s { in_use = false }) }
]

-- `Drop for HazardSlot`: `clear`, then the slot is free.
unfoldable pub release : HazardRegistry → ℕ → HazardRegistry
unfolding clear vacate
release r idx = vacate (clear r idx) idx
