-- ===== src/Region/Alloc/Branches.antt =====
-- The branches of `RegionHeap::alloc` (src/region.rs): the current region, and the free ones.
use samsara.Prelude.{
  ℕ, ◌≡◌, refl, ◌≢◌, none, some, get_elem?, set, length-set, get_elem?-set, lt_length_of_get_elem?,
  arith, align_up, u32, ◌≤◌, ◌⊎◌, inl, inr, ℕ_discrete, sym,
}
use samsara.Region.{Region, free, handle, RegionHeap, region_size, alloc_elsewhere}
use samsara.Region.Invariant.{
  IsRegion, IsValid, Fits, bumped, bumped-IsRegion, free-Fits, filled, filled-IsRegion,
}
use samsara.Region.Alloc.Free.{FirstFree, NoneFree, alloc_in_free_cases}
use samsara.Region.Alloc.Spec.{SameData, Granted, Result}
use samsara.Region.Alloc.Update.{
  NoneAllocating, get_set_self, IsValid-bumped, IsValid-current, NoneAllocating-current, set_others,
}

fresh-IsRegion :
    {r : Region} (size : ℕ) → IsRegion r → size ≤ region_size → IsRegion (bumped r 0 size)
fresh-IsRegion size w small = ground arith

module _ {h : RegionHeap} (v : IsValid h) (size : ℕ) (small : size ≤ region_size) where
  pub FirstFree-Granted :
      {k : ℕ} {r : Region}
      → FirstFree h.regions k r
      → Granted h size
          (handle k 0)
          (record { regions = set h.regions k (bumped r 0 size); current = some k })
  FirstFree-Granted {k} {r} f =
      let w = v.region k r f.here in
      let e : u32 k ≡ k = omega (arith, v.few, lt_length_of_get_elem? h.regions k f.here) in
      rw e (record {
        from = r;
        here = f.here;
        start = ground (arith, w.unused f.is_free);
        fits = free-Fits w f.is_free size small;
        now = get_set_self v k f.here (fresh-IsRegion size w small);
        current = refl;
        same_length = length-set h.regions k (bumped r 0 size);
        others = set_others h.regions k (bumped r 0 size);
      })

  pub elsewhere_cases :
      NoneAllocating h
      → ((k : ℕ) × (r : Region) × FirstFree h.regions k r
          × (alloc_elsewhere h size ≡ (
            some (handle k 0),
            record { regions = set h.regions k (bumped r 0 size); current = some k },
          ))
          × IsValid (record { regions = set h.regions k (bumped r 0 size); current = some k }))
        ⊎ (NoneFree h.regions × (alloc_elsewhere h size ≡ (none, h)))
  unfolding alloc_elsewhere
  elsewhere_cases quiet = elim (alloc_in_free_cases 0 h.regions size v.region small) [
    | inl (k, r, f, e) ↦ inl (
      k,
      r,
      f,
      ground (arith, e),
      IsValid-bumped v k f.here (fresh-IsRegion size (v.region k r f.here) small) quiet refl,
    )
    | inr (none_free, e) ↦ inr (none_free, ground (arith, e))
  ]

-- The current region, as `alloc` meets it.
module _ {h : RegionHeap} (v : IsValid h) (size : ℕ) (small : size ≤ region_size) {c : ℕ}
    {q : Region} (now : h.current ≡ some c) (here : get_elem? h.regions c ≡ some q)
    (ne : q.state ≢ free) where
  abbrev pub after_miss : RegionHeap
  after_miss = record h { regions = set h.regions c (filled q) }

  pub miss-IsValid : IsValid after_miss
  miss-IsValid =
      IsValid-current v c here (filled-IsRegion (v.region c q here) size small) now (ground arith)

  pub miss-quiet : NoneAllocating after_miss
  miss-quiet =
      NoneAllocating-current v c here (filled-IsRegion (v.region c q here) size small) now
        (ground arith)

  -- The heap after the miss differs from the one before in a state.
  pub miss-SameData :
      (j : ℕ) (s : Region)
      → get_elem? h.regions j ≡ some s
      → (s' : Region) × (get_elem? after_miss.regions j ≡ some s') × SameData s s'
  miss-SameData j s e = elim (ℕ_discrete c j) [
    | yes same ↦ (
      filled q,
      ground
          (arith, get_elem?-set h.regions c j (filled q), lt_length_of_get_elem? h.regions c here),
      ground arith,
    )
    | no other ↦ set_others h.regions c (filled q) j s (λ f. other (sym f)) e
  ]

  pub granted_current :
      Fits q size
      → Result h size (
        some (handle c (align_up q.offset)),
        record h { regions = set h.regions c (bumped q (align_up q.offset) size) },
      )
  granted_current fits =
      let w = v.region c q here in
      let e : u32 c ≡ c = omega (arith, v.few, lt_length_of_get_elem? h.regions c here) in
      let e' : u32 (align_up q.offset) ≡ align_up q.offset = omega arith in
      (
        rw (e, e')
            (record {
              from = q;
              here = here;
              start = refl;
              fits = fits;
              now = get_set_self v c here (bumped-IsRegion w size small fits);
              current = now;
              same_length = length-set h.regions c (bumped q (align_up q.offset) size);
              others = set_others h.regions c (bumped q (align_up q.offset) size);
            }),
        IsValid-current v c here (bumped-IsRegion w size small fits) now (ground arith),
      )
