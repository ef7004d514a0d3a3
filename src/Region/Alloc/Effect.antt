-- ===== src/Region/Alloc/Effect.antt =====
-- `RegionHeap::alloc` (src/region.rs) against its specification.
use samsara.Prelude.{
  set, Bool-cases, Option-cases, ltb, ok, ℕ, ◌+◌, ◌<◌, ◌≡◌, refl, ◌≢◌, none, some, get_elem?,
  length-set, get_elem?-set, lt_length_of_get_elem?, arith, align_up, u32, Option, ◌≤◌, inl, inr,
  ◌∙◌,
}
use samsara.Region.{
  handle, alloc, alloc_in_current, Region, free, RegionHandle, RegionHeap, region_size,
  alloc_elsewhere,
}
use samsara.Region.Invariant.{bumped, try_alloc_cases, IsValid, filled}
use samsara.Region.Alloc.Free.{FirstFree}
use samsara.Region.Alloc.Spec.{SameData, Granted, Kept-refl, Result, Allocates}
use samsara.Region.Alloc.Branches.{
  FirstFree-Granted, elsewhere_cases, after_miss, miss-IsValid, miss-quiet, miss-SameData,
  granted_current,
}

SameData-trans : {a b c : Region} → SameData a b → SameData b c → SameData a c
SameData-trans p q = record {
  bytes = q.bytes ∙ p.bytes;
  offset = q.offset ∙ p.offset;
  live_count = q.live_count ∙ p.live_count;
  state = ground (arith, p.state, q.state);
}

module _ {h : RegionHeap} (v : IsValid h) (size : ℕ) (small : size ≤ region_size) where
  -- Without a current region `alloc` goes straight to the free ones.
  no_current :
      h.current ≡ none
      → (o : Option RegionHandle × RegionHeap) × (alloc_elsewhere h size ≡ o) × Result h size o
  no_current unset =
      elim (elsewhere_cases v size small (λ j s e a. ground (arith, v.only_current j s e a))) [
        | inl (k, r, f, e, w) ↦ (_, e, (FirstFree-Granted v size small f, w))
        | inr (none_free, e) ↦ (
          (none, h),
          e,
          (record { none_free = none_free; current_full = λ i r c g. cc }, Kept-refl h, v),
        )
      ]

  module _ {c : ℕ} {q : Region} (now : h.current ≡ some c) (here : get_elem? h.regions c ≡ some q)
      (ne : q.state ≢ free) (full : region_size < align_up q.offset + size) where
    other_than_current :
        {k : ℕ} {r : Region} → FirstFree (after_miss v size small now here ne).regions k r → k ≢ c
    other_than_current {k} {r} f e = ground (
      arith,
      f.is_free,
      f.here,
      get_elem?-set h.regions c k (filled q),
      lt_length_of_get_elem? h.regions c here,
    )

    after_miss-Granted :
        {hd : RegionHandle} {h' : RegionHeap}
        → hd.region ≢ c
        → Granted (after_miss v size small now here ne) size hd h'
        → Granted h size hd h'
    after_miss-Granted {hd} {h'} other g = record {
      from = g.from;
      here = ground (arith, g.here, get_elem?-set h.regions c hd.region (filled q));
      start = g.start;
      fits = g.fits;
      now = g.now;
      current = g.current;
      same_length = omega (arith, g.same_length, length-set h.regions c (filled q));
      others = λ j s d e.
          let (s1, e1, d1) = miss-SameData v size small now here ne j s e in
          let (s2, e2, d2) = g.others j s1 d e1 in (s2, e2, SameData-trans d1 d2);
    }

    miss-Result :
        (o : Option RegionHandle × RegionHeap) × (alloc_elsewhere
            (after_miss v size small now here ne)
            size
          ≡ o)
        × Result h size o
    miss-Result =
        let v' = miss-IsValid v size small now here ne in
        elim (elsewhere_cases v' size small (miss-quiet v size small now here ne)) [
          | inl (k, r, f, e, w) ↦
              let lt =
                lt_length_of_get_elem? (after_miss v size small now here ne).regions k f.here in
              (
                _,
                e,
                (
                  after_miss-Granted
                      (let u : u32 k ≡ k = omega (arith, v'.few, lt) in rw u (other_than_current f))
                      (FirstFree-Granted v' size small f),
                  w,
                ),
              )
          | inr (none_free, e) ↦ (
            (none, after_miss v size small now here ne),
            e,
            (
              record {
                none_free =
                    λ j s g. ground (arith, none_free j s, get_elem?-set h.regions c j (filled q));
                current_full = λ i r d g. ground arith;
              },
              record {
                current = refl;
                same_length = length-set h.regions c (filled q);
                all = miss-SameData v size small now here ne;
              },
              v',
            ),
          )
        ]

  current-Result :
      {c : ℕ}
      → h.current ≡ some c
      → (o : Option RegionHandle × RegionHeap) × (alloc_in_current h c size ≡ ok o)
        × Result h size o
  unfolding alloc_in_current
  current-Result {c} now =
      let (q, here, ne) = v.in_use c now in
      elim (try_alloc_cases (v.region c q here) size small) [
        | inl (fits, e) ↦
            let start : ℕ = align_up q.offset in
            (
              (some (handle c start), record h { regions = set h.regions c (bumped q start size) }),
              ground (arith, here, e),
              granted_current v size small now here ne fits,
            )
        | inr (full, e) ↦
            let (o, f, r) = miss-Result now here ne full in (o, ground (arith, here, e, f), r)
      ]

-- On a well-formed heap `alloc` does not panic and keeps the heap well-formed. A size above
-- `REGION_SIZE` is refused and changes nothing. For any other size it returns an aligned block after
-- the bump pointer of a region, in that region, and leaves the contents of the other regions; or,
-- when no region is free and the current one has no room, it returns nothing and only states may
-- change: bytes, bump pointers and counts stay as they were.
pub alloc-Result :
    {h : RegionHeap}
    → IsValid h
    → (size : ℕ)
    → (o : Option RegionHandle × RegionHeap) × (alloc h size ≡ ok o) × Allocates h size o
unfolding alloc
alloc-Result {h} v size = elim (Bool-cases (ltb region_size size)) [
  | inl large ↦ ((none, h), rw large refl, inl (ground arith, refl))
  | inr small ↦
      let le : size ≤ region_size = ground arith in
      elim (Option-cases h.current) [
        | inl unset ↦
            let (o, e, r) = no_current v size le unset in (o, ground (arith, e), inr (le, r))
        | inr (c, now) ↦
            let (o, e, r) = current-Result v size le now in (o, ground (arith, e), inr (le, r))
      ]
]
