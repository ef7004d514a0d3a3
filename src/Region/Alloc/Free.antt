-- ===== src/Region/Alloc/Free.antt =====
-- The `for` loop of `RegionHeap::alloc` over the free regions (src/region.rs).
use samsara.Prelude.{
  ℕ, zero, suc, ◌+◌, ◌≤◌, ◌<◌, ◌≡◌, refl, ◌≢◌, ◌⊎◌, inl, inr, none, some, List, [], ◌∷◌, get_elem?,
  set, arith, Bool-cases,
}
use samsara.Region.{Region, free, region_size, try_alloc, alloc_in_free, is_free}
use samsara.Region.Invariant.{IsRegion, bumped}

abbrev pub AllRegions : List Region → Type 0
AllRegions rs = (i : ℕ) (r : Region) → get_elem? rs i ≡ some r → IsRegion r

try_alloc-free :
    {r : Region} (size : ℕ)
    → IsRegion r
    → size ≤ region_size
    → r.state ≡ free
    → try_alloc r size ≡ (some 0, bumped r 0 size)
unfolding try_alloc
try_alloc-free size v small e = ground arith

-- The loop allocates at the start of the first free region, ...
pub record FirstFree (rs : List Region) (k : ℕ) (r : Region) : Type 0 where
  pub here : get_elem? rs k ≡ some r
  pub is_free : r.state ≡ free
  pub first : (j : ℕ) (s : Region) → j < k → get_elem? rs j ≡ some s → s.state ≢ free

-- ... or there is none.
abbrev pub NoneFree : List Region → Type 0
NoneFree rs = (j : ℕ) (s : Region) → get_elem? rs j ≡ some s → s.state ≢ free

FirstFree-cons :
    {rs : List Region} {k : ℕ} {r : Region} (q : Region)
    → q.state ≢ free
    → FirstFree rs k r
    → FirstFree (q ∷ rs) (suc k) r
FirstFree-cons {rs} {k} q ne f = record { here = f.here; is_free = f.is_free; first = first }
  where
    first : (j : ℕ) (s : Region) → j < suc k → get_elem? (q ∷ rs) j ≡ some s → s.state ≢ free
    first zero s lt e = ground arith
    first (suc j) s lt e = f.first j s (omega arith) e

NoneFree-cons : (rs : List Region) (q : Region) → q.state ≢ free → NoneFree rs → NoneFree (q ∷ rs)
NoneFree-cons rs q ne f zero s e = ground arith
NoneFree-cons rs q ne f (suc j) s e = f j s e

pub alloc_in_free_cases :
    (i : ℕ) (rs : List Region) (size : ℕ)
    → AllRegions rs
    → size ≤ region_size
    → ((k : ℕ) × (r : Region) × FirstFree rs k r
        × (alloc_in_free i rs size ≡ (some (i + k, 0), set rs k (bumped r 0 size))))
      ⊎ (NoneFree rs × (alloc_in_free i rs size ≡ (none, rs)))
unfolding alloc_in_free
alloc_in_free_cases i [] size v small = inr (λ j s e. cc, refl)
alloc_in_free_cases i (r ∷ rs) size v small = elim (Bool-cases (is_free r.state)) [
  | inl yes_free ↦
      let e : r.state ≡ free = ground arith in
      inl (
        0,
        r,
        record { here = refl; is_free = e; first = λ j s lt g. absurd (omega arith) },
        ground (arith, try_alloc-free size (v 0 r refl) small e),
      )
  | inr used ↦
      let ne : r.state ≢ free = ground arith in
      elim (alloc_in_free_cases (i + 1) rs size (λ j s g. v (suc j) s g) small) [
        | inl (k, q, f, e) ↦ inl (suc k, q, FirstFree-cons r ne f, ground arith)
        | inr (none_free, e) ↦ inr (NoneFree-cons rs r ne none_free, ground arith)
      ]
]
