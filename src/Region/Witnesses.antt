-- ===== src/Region/Witnesses.antt =====
-- The theorems on src/region.rs at concrete heaps, after the calls of the unit test
-- `full_cycle_reclaims_dead_regions_and_continues_allocating`.
use samsara.Prelude.{
  ℕ, ◌+◌, ◌≤◌, ◌<◌, ◌≡◌, ◌≢◌, ◌⊎◌, ◌||◌, not, ◌==◌, if◌then◌else◌, u32, refl, Option, some, true,
  false, List, [], ◌∷◌, length, get_elem?, count_if, ok, arith,
}
use samsara.Region.{
  Region, new_region, RegionHandle, RegionHeap, with_regions, n_free, is_dead, is_free, reset,
  try_alloc, alloc, alloc_in_free, alloc_elsewhere, alloc_in_current, write, read, pre_mark,
  mark_live, sweep, sweep_from,
}
use samsara.Region.Invariant.{IsValid, with_regions-IsValid}
use samsara.Region.Alloc.Spec.{Allocates, Granted}
use samsara.Region.Alloc.Effect.{alloc-Result}
use samsara.Region.Data.{read-write_in_region}
use samsara.Region.Sweep.Reclaim.{sweep_lem, sweep-IsValid, alloc-sweep}
use samsara.Region.Sweep.Cycle.{collect, marks, InRange, collect_lem}
use samsara.Region.Blocks.{Session, Reach, start, next, granted, reset_counts, marked, swept}
use samsara.Region.Blocks.Disjoint.{IsSession, Reach-IsSession}

abbrev hd : ℕ → ℕ → RegionHandle
hd region offset = record { region = region; offset = offset }

two-IsValid : IsValid (with_regions 2)
two-IsValid = with_regions-IsValid 2 (omega arith)

alloc-Result_example :
    (o : Option RegionHandle × RegionHeap) × (alloc (with_regions 2) 64 ≡ ok o)
    × Allocates (with_regions 2) 64 o
alloc-Result_example = alloc-Result two-IsValid 64

-- The session of the test up to its sweep.
before_sweep : (s : Session) × Reach 2 s
unfolding with_regions new_region alloc alloc_in_current alloc_elsewhere alloc_in_free try_alloc
    pre_mark mark_live
before_sweep = (
  _,
  next
      (next (next (next (next start (granted 32760 refl)) (granted 64 refl)) (granted 64 refl))
        reset_counts)
      (marked (hd 0 0) refl),
)

before_sweep_blocks : length before_sweep.0.blocks ≡ 3
unfolding before_sweep
before_sweep_blocks = refl

after_sweep : (s : Session) × Reach 2 s
after_sweep = (_, next before_sweep.1 swept)

Reach-IsSession_example : IsSession after_sweep.0
Reach-IsSession_example = Reach-IsSession (omega arith) after_sweep.1

abbrev heap : RegionHeap
heap = before_sweep.0.heap

heap-IsValid : IsValid heap
heap-IsValid = (Reach-IsSession (omega arith) before_sweep.1).valid

sweep_lem_example :
    ((sweep heap).0 ≡ count_if is_dead heap.regions)
    × (n_free (sweep heap).1 ≡ n_free heap + (sweep heap).0)
    × ((i : ℕ) (r : Region)
        → get_elem? heap.regions i ≡ some r
        → (is_dead r ≡ true → get_elem? (sweep heap).1.regions i ≡ some (reset r))
          × (is_dead r ≡ false → get_elem? (sweep heap).1.regions i ≡ some r))
sweep_lem_example = sweep_lem heap

sweep-IsValid_example : IsValid (sweep heap).1
sweep-IsValid_example = sweep-IsValid heap-IsValid

some_freed : 0 < (sweep heap).0
unfolding before_sweep sweep sweep_from
some_freed = omega arith

alloc-sweep_example :
    (h : RegionHandle) × (h' : RegionHeap) × (alloc (sweep heap).1 4096 ≡ ok (some h, h'))
    × Granted (sweep heap).1 4096 h h'
alloc-sweep_example = alloc-sweep heap-IsValid 4096 some_freed (omega arith)

abbrev live : List RegionHandle
live = hd 0 0 ∷ hd 0 0 ∷ []

heap_length : length heap.regions ≡ 2
unfolding before_sweep
heap_length = refl

live-InRange : InRange (length heap.regions) live
live-InRange = ground (arith, heap_length)

collect_lem_example :
    (freed : ℕ) × (h' : RegionHeap) × (collect heap live ≡ ok (freed, h'))
    × ((i : ℕ) (r : Region)
        → get_elem? heap.regions i ≡ some r
        → get_elem? h'.regions i
          ≡ some (
              if is_free r.state || not (u32 (marks i live) == 0)
              then record r { live_count = u32 (marks i live) }
              else reset r))
collect_lem_example = collect_lem heap live live-InRange

first : (r : Region) × (get_elem? heap.regions 0 ≡ some r)
unfolding before_sweep
first = (_, refl)

first_length : 16 + 3 ≤ length first.0.bytes
first_length = omega (arith, (heap-IsValid.region 0 first.0 first.1).size)

read-write_in_region_example :
    (done : RegionHeap) × (write heap (hd 0 16) (7 ∷ 8 ∷ 9 ∷ []) ≡ ok done)
    × (read done (hd 0 16) 3 ≡ ok (7 ∷ 8 ∷ 9 ∷ []))
    × ((k : RegionHandle) (n : ℕ)
        → (k.region ≢ 0) ⊎ (k.offset + n ≤ 16) ⊎ (16 + 3 ≤ k.offset)
        → read done k n ≡ read heap k n)
read-write_in_region_example =
    read-write_in_region heap (hd 0 16) (7 ∷ 8 ∷ 9 ∷ []) first.1 first_length
