-- ===== src/Region/Sweep/Reclaim.antt =====
-- `RegionHeap::sweep` (src/region.rs) as a whole: what it reclaims, what it keeps, and the space
-- that it makes.
use samsara.Prelude.{
  get_elem?-map, get_elem?_of_map, length-map, ◌↔◌, ℕ, suc, ◌+◌, ◌≤◌, ◌<◌, ◌≡◌, refl, true, false,
  some, none, List, [], ◌∷◌, map, get_elem?, count_if, arith, ok, ap, inl, inr, ◌∙◌, Option,
}
use native.Mathlib.Nat.{zero-add}
use samsara.Region.{
  Region, RegionHandle, RegionHeap, region_size, n_free, is_free, is_dead, reset, sweep, alloc,
}
use samsara.Region.Invariant.{IsRegion, IsValid}
use samsara.Region.Alloc.Free.{NoneFree}
use samsara.Region.Alloc.Spec.{Granted, Allocates}
use samsara.Region.Alloc.Effect.{alloc-Result}
use samsara.Region.Sweep.{
  Survives, swept, regions-sweep_from, freed-sweep_from, current-sweep_from, count-swept,
}

pub regions-sweep : (h : RegionHeap) → (sweep h).1.regions ≡ map swept h.regions
unfolding sweep
regions-sweep h = regions-sweep_from 0 h.regions h.current

get_elem?-sweep :
    (h : RegionHeap) (i : ℕ) (r : Region)
    → get_elem? h.regions i ≡ some r
    → get_elem? (sweep h).1.regions i ≡ some (swept r)
get_elem?-sweep h i r e = rw (regions-sweep h) (get_elem?-map swept h.regions i r e)

-- Sweep resets the regions in use with no live object and returns their number, by which the free
-- regions grow. Every other region stays as it is, at its index.
pub sweep_lem :
    (h : RegionHeap)
    → ((sweep h).0 ≡ count_if is_dead h.regions)
      × (n_free (sweep h).1 ≡ n_free h + (sweep h).0)
      × ((i : ℕ) (r : Region)
          → get_elem? h.regions i ≡ some r
          → (is_dead r ≡ true → get_elem? (sweep h).1.regions i ≡ some (reset r))
            × (is_dead r ≡ false → get_elem? (sweep h).1.regions i ≡ some r))
unfolding n_free
sweep_lem h =
    let count : (sweep h).0 ≡ count_if is_dead h.regions =
      unfold sweep in freed-sweep_from 0 h.regions h.current in
    (
      count,
      rw (regions-sweep h, count) (count-swept h.regions),
      λ i r e. (
        λ dead. get_elem?-sweep h i r e ∙ ap some (rw dead refl),
        λ alive. get_elem?-sweep h i r e ∙ ap some (rw alive refl),
      ),
    )

swept-IsRegion : {r : Region} → IsRegion r → IsRegion (swept r)
unfolding reset
swept-IsRegion w = ground arith

-- Sweep keeps the heap well-formed.
pub sweep-IsValid : {h : RegionHeap} → IsValid h → IsValid (sweep h).1
unfolding reset
sweep-IsValid {h} v = record {
  region = λ i s g. let (r, e, same) = back i s g in rw same (swept-IsRegion (v.region i r e));
  few = rw (regions-sweep h, length-map) v.few;
  only_current = λ i s g a.
      let (r, e, same) = back i s g in
      let alive : is_dead r ≡ false = ground arith in
      (current i).1 (v.only_current i r e (ground arith), λ k q f d. ground (arith, zero-add k));
  in_use = λ i c.
      let (now, survives) = (current i).0 c in
      let (r, e, ne) = v.in_use i now in
      let alive = survives i r e (zero-add i) in (swept r, get_elem?-sweep h i r e, rw alive ne);
}
  where
    back :
        (i : ℕ) (s : Region)
        → get_elem? (sweep h).1.regions i ≡ some s
        → (r : Region) × (get_elem? h.regions i ≡ some r) × (s ≡ swept r)
    back i s g = get_elem?_of_map swept h.regions i s (rw (← regions-sweep h) g)

    current :
        (c : ℕ) → ((sweep h).1.current ≡ some c) ↔ ((h.current ≡ some c) × Survives 0 h.regions c)
    current c = unfold sweep in current-sweep_from 0 h.regions h.current c

count_if-NoneFree : (rs : List Region) → NoneFree rs → count_if (λ r. is_free r.state) rs ≡ 0
count_if-NoneFree [] f = refl
count_if-NoneFree (r ∷ rs) f =
    let ne = f 0 r refl in let rest = count_if-NoneFree rs (λ j s e. f (suc j) s e) in ground arith

n_free-NoneFree : (h : RegionHeap) → NoneFree h.regions → n_free h ≡ 0
unfolding n_free
n_free-NoneFree h f = count_if-NoneFree h.regions f

Allocates-Granted :
    (h : RegionHeap) (size : ℕ) (o : Option RegionHandle × RegionHeap)
    → ¬ NoneFree h.regions
    → size ≤ region_size
    → Allocates h size o
    → (hd : RegionHandle) × (h' : RegionHeap) × (o ≡ (some hd, h')) × Granted h size hd h'
Allocates-Granted h size o some_free small (inl (large, e)) = absurd (omega arith)
Allocates-Granted h size (some hd, h') some_free small (inr (_, (g, v))) = (hd, h', refl, g)
Allocates-Granted h size (none, h') some_free small (inr (_, (room, kept, v))) =
    absurd (some_free room.none_free)

-- After a sweep of a well-formed heap that freed something, any block that a region can hold is
-- granted.
pub alloc-sweep :
    {h : RegionHeap}
    → IsValid h
    → (size : ℕ) → 0 < (sweep h).0
    → size ≤ region_size
    → (hd : RegionHandle) × (h' : RegionHeap) × (alloc (sweep h).1 size ≡ ok (some hd, h'))
      × Granted (sweep h).1 size hd h'
alloc-sweep {h} v size pos small =
    let (o, e, r) = alloc-Result (sweep-IsValid v) size in
    let some_free = λ (f : NoneFree (sweep h).1.regions).
      absurd (omega (arith, (sweep_lem h).1, n_free-NoneFree (sweep h).1 f)) in
    let (hd, h', same, g) = Allocates-Granted (sweep h).1 size o some_free small r in
    (hd, h', rw (← same) e, g)
