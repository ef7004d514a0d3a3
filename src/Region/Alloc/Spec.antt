-- ===== src/Region/Alloc/Spec.antt =====
-- What a call of `RegionHeap::alloc` (src/region.rs) can come to.
use samsara.Prelude.{
  ◌⊎◌, inl, ℕ, ◌+◌, ◌<◌, ◌≤◌, ◌≡◌, refl, ◌≢◌, none, some, get_elem?, length, align_up, Option,
}
use samsara.Region.{full, Region, RegionHandle, RegionHeap, region_size}
use samsara.Region.Invariant.{IsValid, Fits, bumped}
use samsara.Region.Alloc.Free.{NoneFree}

-- The same contents; the state may have become `Full`.
pub record SameData (s s' : Region) : Type 0 where
  pub bytes : s'.bytes ≡ s.bytes
  pub offset : s'.offset ≡ s.offset
  pub live_count : s'.live_count ≡ s.live_count
  pub state : (s'.state ≡ s.state) ⊎ (s'.state ≡ full)

-- `alloc` returned `hd`: the aligned block after the region's bump pointer. That region is now
-- current, and the others hold what they held.
pub record Granted (h : RegionHeap) (size : ℕ) (hd : RegionHandle) (h' : RegionHeap) : Type 0 where
  pub from : Region
  pub here : get_elem? h.regions hd.region ≡ some from
  pub start : hd.offset ≡ align_up from.offset
  pub fits : Fits from size
  pub now : get_elem? h'.regions hd.region ≡ some (bumped from hd.offset size)
  pub current : h'.current ≡ some hd.region
  pub same_length : length h'.regions ≡ length h.regions
  pub others :
      (j : ℕ) (s : Region)
      → j ≢ hd.region
      → get_elem? h.regions j ≡ some s
      → (s' : Region) × (get_elem? h'.regions j ≡ some s') × SameData s s'

-- No region is free, and the current one, if any, has no room.
pub record NoRoom (h : RegionHeap) (size : ℕ) : Type 0 where
  pub none_free : NoneFree h.regions
  pub current_full :
      (i : ℕ) (r : Region)
      → h.current ≡ some i
      → get_elem? h.regions i ≡ some r
      → region_size < align_up r.offset + size

-- `alloc` returned nothing, and only states changed.
pub record Kept (h h' : RegionHeap) : Type 0 where
  pub current : h'.current ≡ h.current
  pub same_length : length h'.regions ≡ length h.regions
  pub all :
      (j : ℕ) (s : Region)
      → get_elem? h.regions j ≡ some s
      → (s' : Region) × (get_elem? h'.regions j ≡ some s') × SameData s s'

-- What a call of `alloc` or of a part of it can come to, for a size that a region can hold.
abbrev pub Result : RegionHeap → ℕ → Option RegionHandle × RegionHeap → Type 0
Result h size (some hd, h') = Granted h size hd h' × IsValid h'
Result h size (none, h') = NoRoom h size × Kept h h' × IsValid h'

-- What a whole call can come to: a size that no region can hold is refused.
abbrev pub Allocates : RegionHeap → ℕ → Option RegionHandle × RegionHeap → Type 0
Allocates h size o =
    ((region_size < size) × (o ≡ (none, h))) ⊎ ((size ≤ region_size) × Result h size o)

pub SameData-refl : (s : Region) → SameData s s
SameData-refl s = record { bytes = refl; offset = refl; live_count = refl; state = inl refl }

pub Kept-refl : (h : RegionHeap) → Kept h h
Kept-refl h = record { current = refl; same_length = refl; all = λ j s e. (s, e, SameData-refl s) }
