-- ===== src/Region/Invariant.antt =====
-- The well-formed heaps of src/region.rs, and what `try_alloc` does to a well-formed region.
use samsara.Prelude.{
  refl, get_elem?-replicate, length-replicate, set, get_elem?-set, length-set,
  lt_length_of_get_elem?, ℕ_discrete, ℕ, ◌+◌, ◌%◌, ◌^◌, ◌≤◌, ◌<◌, ◌≡◌, ◌≢◌, ◌⊎◌, none, some, length,
  get_elem?, arith, align_up,
}
use samsara.Region.{
  new_region, with_regions, Region, free, allocating, full, RegionHeap, region_size, try_alloc,
}

-- A region holds `REGION_SIZE` bytes with the bump pointer among them, at zero if it is free.
pub record IsRegion (r : Region) : Type 0 where
  pub size : length r.bytes ≡ region_size
  pub within : r.offset ≤ region_size
  pub unused : r.state ≡ free → r.offset ≡ 0
  pub counted : r.live_count < 2 ^ 32

-- Every region is well-formed, a handle's `u32` can name each of them, only the current region is
-- `Allocating`, and the current region exists and is not `Free`.
pub record IsValid (h : RegionHeap) : Type 0 where
  pub region : (i : ℕ) (r : Region) → get_elem? h.regions i ≡ some r → IsRegion r
  pub few : length h.regions ≤ 2 ^ 32
  pub only_current :
      (i : ℕ) (r : Region)
      → get_elem? h.regions i ≡ some r
      → r.state ≡ allocating
      → h.current ≡ some i
  pub in_use :
      (i : ℕ)
      → h.current ≡ some i
      → (r : Region) × (get_elem? h.regions i ≡ some r) × (r.state ≢ free)

-- The next block of `size` bytes would end in the region.
abbrev pub Fits : Region → ℕ → Type 0
Fits r size = align_up r.offset + size ≤ region_size

-- The region after a block of `size` bytes from `start` on.
abbrev pub bumped : Region → ℕ → ℕ → Region
bumped r start size = record r { offset = start + size; state = allocating }

abbrev pub filled : Region → Region
filled r = record r { state = full }

module _ {r : Region} (v : IsRegion r) (size : ℕ) (small : size ≤ region_size) where
  pub try_alloc_cases :
      (Fits r size
        × (try_alloc r size ≡ (some (align_up r.offset), bumped r (align_up r.offset) size)))
      ⊎ ((region_size < align_up r.offset + size) × (try_alloc r size ≡ (none, filled r)))
  unfolding try_alloc
  try_alloc_cases = ground arith

  pub align_up_bounds :
      (r.offset ≤ align_up r.offset)
      × (align_up r.offset < r.offset + 8)
      × (align_up r.offset % 8 ≡ 0)
      × (align_up r.offset ≤ region_size)
  align_up_bounds = omega arith

  pub bumped-IsRegion : Fits r size → IsRegion (bumped r (align_up r.offset) size)
  bumped-IsRegion fits = ground arith

  pub filled-IsRegion : IsRegion (filled r)
  filled-IsRegion = ground arith

-- A free region has room for any block that a region can hold.
pub free-Fits :
    {r : Region} → IsRegion r → r.state ≡ free → (size : ℕ) → size ≤ region_size → Fits r size
free-Fits v e size small = ground arith

-- A region may be replaced by a well-formed one in the same state.
module _ {h : RegionHeap} (v : IsValid h) (k : ℕ) {r r' : Region}
    (here : get_elem? h.regions k ≡ some r) (w : IsRegion r') (same : r'.state ≡ r.state) where
  replaced : get_elem? (set h.regions k r') k ≡ some r'
  replaced = ground (arith, get_elem?-set h.regions k k r', lt_length_of_get_elem? h.regions k here)

  still_used :
      (i : ℕ)
      → (q : Region) × (get_elem? h.regions i ≡ some q) × (q.state ≢ free)
      → (q : Region) × (get_elem? (set h.regions k r') i ≡ some q) × (q.state ≢ free)
  still_used i (q, e, ne) = elim (ℕ_discrete k i) [
    | yes at_k ↦ (r', rw (← at_k) replaced, ground arith)
    | no other ↦ (q, ground (arith, get_elem?-set h.regions k i r'), ne)
  ]

  pub replace-IsValid : IsValid (record h { regions = set h.regions k r' })
  replace-IsValid = record {
    region = λ i q g. ground (arith, get_elem?-set h.regions k i r', v.region i q);
    few = rw length-set v.few;
    only_current = λ i q g a.
        ground (arith, get_elem?-set h.regions k i r', v.only_current i q, v.only_current k r here);
    in_use = λ i c. still_used i (v.in_use i c);
  }

pub new_region-IsRegion : IsRegion new_region × (new_region.state ≡ free)
unfolding new_region
new_region-IsRegion = (
  record {
    size = length-replicate region_size (let z : ℕ = 0 in z);
    within = omega arith;
    unused = λ e. refl;
    counted = omega arith;
  },
  refl,
)

pub with_regions-IsValid : (n : ℕ) → n ≤ 2 ^ 32 → IsValid (with_regions n)
unfolding with_regions
with_regions-IsValid n few = record {
  region = λ i r e. rw (get_elem?-replicate n new_region i r e) new_region-IsRegion.0;
  few = rw length-replicate few;
  only_current =
      λ i r e a. ground (arith, get_elem?-replicate n new_region i r e, new_region-IsRegion.1);
  in_use = λ i c. cc;
}
