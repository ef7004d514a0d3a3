-- ===== src/Region/Examples.antt =====
-- The unit tests of src/region.rs as evaluations. The heaps of the tests
-- have regions of 32 KiB; their bytes are not written out.
use samsara.Prelude.{
  ℕ, ◌+◌, ◌≡◌, zero, suc, ◌-◌, replicate, map, ◌++◌, slice, overwrite, copy_from_slice, refl,
  Option, none, some, List, [], ◌∷◌, Outcome, ok, panic, ◌>>=◌,
}
use samsara.Region.{
  RegionState, free, allocating, new_region, RegionHandle, RegionHeap, region_size, with_regions,
  n_regions, n_free, reset, try_alloc, alloc, alloc_in_free, alloc_elsewhere, alloc_in_current,
  write, read, pre_mark, mark_live, sweep, sweep_from,
}

abbrev hd : ℕ → ℕ → RegionHandle
hd region offset = record { region = region; offset = offset }

-- Allocations of the sizes in the list, one after the other: what they returned, and the heap.
allocs : RegionHeap → List ℕ → Outcome (List (Option RegionHandle) × RegionHeap)
allocs h [] = ok ([], h)
allocs h (size ∷ sizes) =
    alloc h size >>= λ (o, h'). allocs h' sizes >>= λ (os, h''). ok (o ∷ os, h'')

returned : RegionHeap → List ℕ → Outcome (List (Option RegionHandle))
returned h sizes = allocs h sizes >>= λ (os, _). ok os

-- fn fresh_heap_has_all_regions_free
fresh_heap_has_all_regions_free : ℕ × ℕ
unfolding n_regions n_free with_regions new_region
fresh_heap_has_all_regions_free = (n_regions (with_regions 4), n_free (with_regions 4))

fresh_heap : fresh_heap_has_all_regions_free ≡ (4, 4)
unfolding fresh_heap_has_all_regions_free
fresh_heap = refl

-- fn alloc_lands_in_first_free_region
alloc_lands_in_first_free_region : Outcome (List (Option RegionHandle))
unfolding returned allocs alloc alloc_in_current alloc_elsewhere alloc_in_free try_alloc
    with_regions new_region
alloc_lands_in_first_free_region = returned (with_regions 4) (64 ∷ 64 ∷ [])

lands : alloc_lands_in_first_free_region ≡ ok (some (hd 0 0) ∷ some (hd 0 64) ∷ [])
unfolding alloc_lands_in_first_free_region
lands = refl

-- fn alloc_returns_none_when_heap_is_full
alloc_returns_none_when_heap_is_full : Outcome (List (Option RegionHandle))
unfolding returned allocs alloc alloc_in_current alloc_elsewhere alloc_in_free try_alloc
    with_regions new_region
alloc_returns_none_when_heap_is_full = returned (with_regions 1) (region_size ∷ 8 ∷ [])

full_heap : alloc_returns_none_when_heap_is_full ≡ ok (some (hd 0 0) ∷ none ∷ [])
unfolding alloc_returns_none_when_heap_is_full
full_heap = refl

-- fn alloc_larger_than_region_returns_none
alloc_larger_than_region_returns_none : Outcome (List (Option RegionHandle))
unfolding returned allocs alloc
alloc_larger_than_region_returns_none = returned (with_regions 4) ((region_size + 1) ∷ [])

too_large : alloc_larger_than_region_returns_none ≡ ok (none ∷ [])
unfolding alloc_larger_than_region_returns_none
too_large = refl

-- `n` handles in region 0, 1024 bytes apart.
handles : ℕ → ℕ → List (Option RegionHandle)
handles zero offset = []
handles (suc n) offset = some (hd 0 offset) ∷ handles n (offset + 1024)

-- fn alloc_spills_when_region_fills: 32 blocks of 1024 bytes, and one more.
alloc_spills_when_region_fills : Outcome (List (Option RegionHandle))
unfolding returned allocs alloc alloc_in_current alloc_elsewhere alloc_in_free try_alloc
    with_regions new_region
alloc_spills_when_region_fills = returned (with_regions 2) (replicate 32 1024 ++ 64 ∷ [])

spills : alloc_spills_when_region_fills ≡ ok (handles 32 0 ++ some (hd 1 0) ∷ [])
unfolding alloc_spills_when_region_fills handles
spills = refl

-- fn write_then_read_round_trips
write_then_read_round_trips : Outcome (List ℕ)
unfolding alloc alloc_in_current alloc_elsewhere alloc_in_free try_alloc write read with_regions
    new_region copy_from_slice slice overwrite
write_then_read_round_trips = alloc (with_regions 1) 8 >>= λ (found, h). elim found [
  | none ↦ panic
  | some a ↦ write h a (1 ∷ 2 ∷ 3 ∷ 4 ∷ 5 ∷ 6 ∷ 7 ∷ 8 ∷ []) >>= λ h'. read h' a 8
]

round_trips : write_then_read_round_trips ≡ ok (1 ∷ 2 ∷ 3 ∷ 4 ∷ 5 ∷ 6 ∷ 7 ∷ 8 ∷ [])
unfolding write_then_read_round_trips
round_trips = refl

states : RegionHeap → List RegionState
states h = map (λ r. r.state) h.regions

-- fn sweep_frees_regions_with_no_live_objects
sweep_frees_regions_with_no_live_objects : Outcome (ℕ × List RegionState)
unfolding allocs alloc alloc_in_current alloc_elsewhere alloc_in_free try_alloc with_regions
    new_region pre_mark mark_live sweep sweep_from reset states
sweep_frees_regions_with_no_live_objects =
    allocs (with_regions 3) ((region_size - 8) ∷ 64 ∷ 64 ∷ []) >>= λ (_, h).
    mark_live (pre_mark h) (hd 1 64) >>= λ m. ok ((sweep m).0, states (sweep m).1)

sweep_frees : sweep_frees_regions_with_no_live_objects ≡ ok (1, free ∷ allocating ∷ free ∷ [])
unfolding sweep_frees_regions_with_no_live_objects
sweep_frees = refl

-- fn full_cycle_reclaims_dead_regions_and_continues_allocating
full_cycle_reclaims : Outcome (ℕ × List (Option RegionHandle))
unfolding allocs alloc alloc_in_current alloc_elsewhere alloc_in_free try_alloc with_regions
    new_region pre_mark mark_live sweep sweep_from reset returned
full_cycle_reclaims = allocs (with_regions 2) ((region_size - 8) ∷ 64 ∷ 64 ∷ []) >>= λ (_, h).
    mark_live (pre_mark h) (hd 0 0) >>= λ m.
    returned (sweep m).1 (64 ∷ []) >>= λ os. ok ((sweep m).0, os)

full_cycle : full_cycle_reclaims ≡ ok (1, some (hd 1 0) ∷ [])
unfolding full_cycle_reclaims
full_cycle = refl

-- fn partially_live_region_is_not_compacted
partially_live_region_is_not_compacted : Outcome (ℕ × List (ℕ × RegionState))
unfolding allocs alloc alloc_in_current alloc_elsewhere alloc_in_free try_alloc with_regions
    new_region pre_mark mark_live sweep sweep_from
partially_live_region_is_not_compacted =
    allocs (with_regions 2) (128 ∷ 128 ∷ 128 ∷ []) >>= λ (_, h).
    mark_live (pre_mark h) (hd 0 0) >>= λ m.
    ok ((sweep m).0, map (λ r. (r.offset, r.state)) (sweep m).1.regions)

not_compacted : partially_live_region_is_not_compacted ≡ ok (0, (384, allocating) ∷ (0, free) ∷ [])
unfolding partially_live_region_is_not_compacted
not_compacted = refl
