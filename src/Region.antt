-- ===== src/Region.antt =====
-- The mark-region heap (src/region.rs): `Region`, `RegionHeap` and their methods. A method returns
-- its result and the state after it; an index or slice out of range is a panic, an `Outcome`.
pub mod Alloc
pub mod Blocks
pub mod Data
mod Examples
pub mod Invariant
pub mod Sweep
mod Witnesses
use samsara.Prelude.{
  ℕ, ◌+◌, ◌*◌, Option, none, some, Bool, true, false, not, ◌&&◌, List, [], ◌∷◌, map, ltb, ◌==◌,
  if◌then◌else◌, length, replicate, count_if, get_elem?, set, Outcome, ok, panic, u32, checked_add,
  align_up, slice, copy_from_slice, ◌>>=◌,
}

abbrev pub region_size : ℕ
region_size = 32 * 1024

pub data RegionState : Type 0 where
  free allocating full : RegionState

-- `state == RegionState::Free`
abbrev pub is_free : RegionState → Bool
is_free free = true
is_free _ = false

pub record Region : Type 0 where
  pub bytes : List ℕ
  pub offset : ℕ
  pub state : RegionState
  pub live_count : ℕ

unfoldable pub new_region : Region
new_region = record { bytes = replicate region_size 0; offset = 0; state = free; live_count = 0 }

unfoldable pub try_alloc : Region → ℕ → Option ℕ × Region
try_alloc r size =
    let aligned = align_up r.offset in
    elim (checked_add aligned size) [
      | none ↦ (none, r)
      | some end ↦
          if ltb region_size end
          then (none, record r { state = full })
          else (some aligned, record r { offset = end; state = allocating })
    ]

unfoldable pub reset : Region → Region
reset r = record r { offset = 0; state = free; live_count = 0 }

pub record RegionHandle : Type 0 where
  pub region : ℕ
  pub offset : ℕ

-- `RegionHandle { region: i as u32, offset: off as u32 }`
abbrev pub handle : ℕ → ℕ → RegionHandle
handle i off = record { region = u32 i; offset = u32 off }

pub record RegionHeap : Type 0 where
  pub regions : List Region
  pub current : Option ℕ

unfoldable pub with_regions : ℕ → RegionHeap
with_regions n = record { regions = replicate n new_region; current = none }

pub n_regions : RegionHeap → ℕ
n_regions h = length h.regions

unfoldable pub n_free : RegionHeap → ℕ
n_free h = count_if (λ r. is_free r.state) h.regions

-- `&self.regions[idx]`
abbrev pub at : RegionHeap → ℕ → Outcome Region
at h i = elim (get_elem? h.regions i) [ none ↦ panic | some r ↦ ok r ]

-- The `for` loop of `alloc` from index `i` on: where it allocated, if anywhere, and the regions.
unfoldable pub alloc_in_free : ℕ → List Region → ℕ → Option (ℕ × ℕ) × List Region
alloc_in_free i [] size = (none, [])
alloc_in_free i (r ∷ rs) size =
    let (found, rest) = alloc_in_free (i + 1) rs size in
    let (tried, r') = try_alloc r size in
    if is_free r.state
    then elim tried [ some off ↦ (some (i, off), r' ∷ rs) | none ↦ (found, r' ∷ rest) ]
    else (found, r ∷ rest)

-- The part of `alloc` below the attempt in the current region.
unfoldable pub alloc_elsewhere : RegionHeap → ℕ → Option RegionHandle × RegionHeap
alloc_elsewhere h size =
    let (found, regions) = alloc_in_free 0 h.regions size in
    elim found [
      | none ↦ (none, record h { regions = regions })
      | some (i, off) ↦ (some (handle i off), record { regions = regions; current = some i })
    ]

-- The attempt in the current region, `idx`, and what follows it.
unfoldable pub alloc_in_current : RegionHeap → ℕ → ℕ → Outcome (Option RegionHandle × RegionHeap)
alloc_in_current h idx size = at h idx >>= λ r.
    let (tried, r') = try_alloc r size in
    let h' = record h { regions = set h.regions idx r' } in
    elim tried [ some off ↦ ok (some (handle idx off), h') | none ↦ ok (alloc_elsewhere h' size) ]

unfoldable pub alloc : RegionHeap → ℕ → Outcome (Option RegionHandle × RegionHeap)
unfolding alloc_in_current
alloc h size = if ltb region_size size then ok (none, h) else elim h.current [
  | none ↦ ok (alloc_elsewhere h size)
  | some idx ↦ alloc_in_current h idx size
]

pub read : RegionHeap → RegionHandle → ℕ → Outcome (List ℕ)
read h hd len = at h hd.region >>= λ r. slice r.bytes hd.offset len

pub write : RegionHeap → RegionHandle → List ℕ → Outcome RegionHeap
write h hd items = at h hd.region >>= λ r. copy_from_slice r.bytes hd.offset items >>= λ bytes.
    ok (record h { regions = set h.regions hd.region (record r { bytes = bytes }) })

-- `r.live_count = 0`
abbrev pub uncounted : Region → Region
uncounted r = record r { live_count = 0 }

unfoldable pub pre_mark : RegionHeap → RegionHeap
pre_mark h = record h { regions = map uncounted h.regions }

-- The count is a `u32`, and wraps.
unfoldable pub mark_live : RegionHeap → RegionHandle → Outcome RegionHeap
mark_live h hd = at h hd.region >>= λ r. ok (record h {
  regions = set h.regions hd.region (record r { live_count = u32 (r.live_count + 1) });
})

-- `r.state != RegionState::Free && r.live_count == 0`
abbrev pub is_dead : Region → Bool
is_dead r = not (is_free r.state) && r.live_count == 0

-- `if self.current == Some(i) { self.current = None; }`
abbrev pub forget : ℕ → Option ℕ → Option ℕ
forget i none = none
forget i (some c) = if c == i then none else some c

-- The loop of `sweep` from index `i` on: the count of regions freed, the regions and `current`.
unfoldable pub sweep_from : ℕ → List Region → Option ℕ → ℕ × List Region × Option ℕ
sweep_from i [] current = (0, [], current)
sweep_from i (r ∷ rs) current =
    let dead = is_dead r in
    let (freed, rest, current') =
      sweep_from (i + 1) rs (if dead then forget i current else current) in
    if dead then (freed + 1, reset r ∷ rest, current') else (freed, r ∷ rest, current')

unfoldable pub sweep : RegionHeap → ℕ × RegionHeap
sweep h =
    let (freed, regions, current) = sweep_from 0 h.regions h.current in
    (freed, record { regions = regions; current = current })
