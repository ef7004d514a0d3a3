-- ===== src/Region/Blocks.antt =====
-- The memory that clients of src/region.rs hold: a session is a heap with the blocks that `alloc`
-- has returned and no sweep has reclaimed, and a step is a call of one method.
pub mod Disjoint
pub mod Growth
use samsara.Prelude.{
  ℕ, ◌+◌, ◌≤◌, ◌≡◌, ◌≢◌, ◌⊎◌, none, some, Bool, true, false, List, [], ◌∷◌, All, get_elem?, ok,
  if◌then◌else◌,
}
use samsara.Region.{
  Region, free, RegionHandle, RegionHeap, with_regions, alloc, write, pre_mark, mark_live, sweep,
  is_dead,
}

pub record Block : Type 0 where
  pub region : ℕ
  pub start : ℕ
  pub size : ℕ

abbrev pub block : RegionHandle → ℕ → Block
block hd size = record { region = hd.region; start = hd.offset; size = size }

pub record Session : Type 0 where
  pub heap : RegionHeap
  pub blocks : List Block

-- The region of a block is one that a sweep would reset.
abbrev pub is_lost : RegionHeap → Block → Bool
is_lost h b = elim (get_elem? h.regions b.region) [ none ↦ true | some r ↦ is_dead r ]

abbrev pub survivors : RegionHeap → List Block → List Block
survivors h [] = []
survivors h (b ∷ bs) = if is_lost h b then survivors h bs else b ∷ survivors h bs

-- A successful call of one method; the arguments of `write` and `mark_live` are any that do not
-- panic.
pub data Step (s : Session) : Session → Type 0 where
  granted :
      (size : ℕ) {hd : RegionHandle} {h : RegionHeap}
      → alloc s.heap size ≡ ok (some hd, h)
      → Step s (record { heap = h; blocks = block hd size ∷ s.blocks })
  refused :
      (size : ℕ) {h : RegionHeap}
      → alloc s.heap size ≡ ok (none, h)
      → Step s (record { heap = h; blocks = s.blocks })
  wrote :
      (hd : RegionHandle) (items : List ℕ) {h : RegionHeap}
      → write s.heap hd items ≡ ok h
      → Step s (record { heap = h; blocks = s.blocks })
  reset_counts : Step s (record { heap = pre_mark s.heap; blocks = s.blocks })
  marked :
      (hd : RegionHandle) {h : RegionHeap}
      → mark_live s.heap hd ≡ ok h
      → Step s (record { heap = h; blocks = s.blocks })
  swept : Step s (record { heap = (sweep s.heap).1; blocks = survivors s.heap s.blocks })

pub data Reach (n : ℕ) : Session → Type 0 where
  start : Reach n (record { heap = with_regions n; blocks = [] })
  next : {s t : Session} → Reach n s → Step s t → Reach n t

-- Two blocks have no byte in common.
abbrev pub Apart : Block → Block → Type 0
Apart a b = (a.region ≢ b.region) ⊎ (a.start + a.size ≤ b.start) ⊎ (b.start + b.size ≤ a.start)

abbrev pub AllApart : List Block → Type 0
AllApart [] = Unit
AllApart (b ∷ bs) = All (Apart b) bs × AllApart bs

-- The block lies below the bump pointer of a region in use.
abbrev pub InUse : RegionHeap → Block → Type 0
InUse h b =
    (r : Region) × (get_elem? h.regions b.region ≡ some r)
    × (r.state ≢ free)
    × (b.start + b.size ≤ r.offset)
