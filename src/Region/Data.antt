-- ===== src/Region/Data.antt =====
-- `RegionHeap::write` and `RegionHeap::read` (src/region.rs).
use samsara.Prelude.{
  refl, Option-cases, Outcome, ℕ, ◌+◌, ◌≤◌, ◌≡◌, ◌≢◌, ◌⊎◌, some, List, length, get_elem?, set,
  arith, ok, ◌>>=◌, get_elem?-set, lt_length_of_get_elem?, slice, copy_from_slice, overwrite,
  length-overwrite, slice-overwrite_self, slice-overwrite_apart, ℕ_discrete, sym, ap, ◌∙◌, inl, inr,
}
use samsara.Region.{Region, RegionHandle, RegionHeap, at, read, write}
use samsara.Region.Invariant.{IsRegion, replace-IsValid, IsValid}

-- The heap after a write into region `r`.
abbrev pub written : RegionHeap → RegionHandle → Region → List ℕ → RegionHeap
written h hd r items = record h {
  regions = set h.regions hd.region (record r { bytes = overwrite r.bytes hd.offset items });
}

module _ (h : RegionHeap) (hd : RegionHandle) {r : Region} (items : List ℕ)
    (here : get_elem? h.regions hd.region ≡ some r)
    (fits : hd.offset + length items ≤ length r.bytes) where
  abbrev now : Region
  now = record r { bytes = overwrite r.bytes hd.offset items }

  abbrev h' : RegionHeap
  h' = written h hd r items

  get_elem?_now : get_elem? h'.regions hd.region ≡ some now
  get_elem?_now = ground (
    arith,
    get_elem?-set h.regions hd.region hd.region now,
    lt_length_of_get_elem? h.regions hd.region here,
  )

  at_written : at h' hd.region ≡ ok now
  at_written = ground (
    arith,
    get_elem?-set h.regions hd.region hd.region now,
    lt_length_of_get_elem? h.regions hd.region here,
  )

  at_apart : (j : ℕ) → j ≢ hd.region → at h' j ≡ at h j
  at_apart j ne = ground (arith, get_elem?-set h.regions hd.region j now)

  -- A write into a region that exists, within its bytes, succeeds and reads back; a range in another region, or
  -- one that the write does not meet, reads as before.
  pub read-write_in_region :
      (done : RegionHeap) × (write h hd items ≡ ok done)
      × (read done hd (length items) ≡ ok items)
      × ((k : RegionHandle) (n : ℕ)
          → (k.region ≢ hd.region)
            ⊎ (k.offset + n ≤ hd.offset)
            ⊎ (hd.offset + length items ≤ k.offset)
          → read done k n ≡ read h k n)
  unfolding read write copy_from_slice
  read-write_in_region = (
    h',
    ground (arith, here),
    rw at_written (slice-overwrite_self r.bytes items hd.offset fits),
    λ k n apart. elim (ℕ_discrete k.region hd.region) [
      | yes same ↦
          let in_slice = λ (o : Outcome Region). o >>= λ q. slice q.bytes k.offset n in
          let after : at h' k.region ≡ ok now = rw same at_written in
          let before : at h k.region ≡ ok r = ground (arith, here) in
          let meets : (k.offset + n ≤ hd.offset) ⊎ (hd.offset + length items ≤ k.offset) =
            ground arith in
          ap in_slice after
          ∙ slice-overwrite_apart r.bytes items hd.offset k.offset n fits meets
          ∙ sym (ap in_slice before)
      | no other ↦ ap (λ o. o >>= λ q. slice q.bytes k.offset n) (at_apart k.region other)
    ],
  )

  written-IsRegion : IsRegion r → IsRegion now
  written-IsRegion w = ground (arith, length-overwrite r.bytes hd.offset items fits)

  -- Such a write keeps the heap well-formed.
  pub written-IsValid : IsValid h → IsValid h'
  written-IsValid v =
      replace-IsValid v hd.region here (written-IsRegion (v.region hd.region r here)) refl

-- A write that does not panic was one into a region, within its bytes.
pub write-ok :
    (h : RegionHeap) (hd : RegionHandle) (items : List ℕ) {done : RegionHeap}
    → write h hd items ≡ ok done
    → (r : Region) × (get_elem? h.regions hd.region ≡ some r)
      × (hd.offset + length items ≤ length r.bytes)
      × (done ≡ written h hd r items)
unfolding write copy_from_slice
write-ok h hd items e = elim (Option-cases (get_elem? h.regions hd.region)) [
  | inl out ↦ ground arith
  | inr (r, here) ↦ (r, here, ground arith, ground arith)
]
