-- ===== src/Region/Blocks/Growth.antt =====
-- What one call of a method of src/region.rs does to the regions in use.
use samsara.Prelude.{
  ℕ, ◌+◌, ◌≤◌, ◌≡◌, ◌≢◌, inl, inr, some, List, [], ◌∷◌, All, get_elem?, set, ok, arith,
  get_elem?-map, get_elem?_of_map, length-map, get_elem?-set, lt_length_of_get_elem?, ℕ_discrete,
  Option, u32, Option-cases, subst,
}
use samsara.Region.{Region, free, RegionHandle, RegionHeap, alloc, pre_mark, mark_live, uncounted}
use samsara.Region.Invariant.{IsValid, bumped}
use samsara.Region.Alloc.Spec.{Granted, Kept, Allocates}
use samsara.Region.Alloc.Effect.{alloc-Result}
use samsara.Region.Blocks.{Block, block, Apart, InUse}

-- The regions in use of the one heap are in use in the other, with at least as much taken.
pub Grows : RegionHeap → RegionHeap → Type 0
Grows h h' =
    (j : ℕ) (r : Region)
    → get_elem? h.regions j ≡ some r
    → r.state ≢ free
    → (r' : Region) × (get_elem? h'.regions j ≡ some r')
      × (r'.state ≢ free)
      × (r.offset ≤ r'.offset)

pub InUse-Grows :
    (h h' : RegionHeap) → Grows h h' → (bs : List Block) → All (InUse h) bs → All (InUse h') bs
unfolding Grows
InUse-Grows h h' g [] a = tt
InUse-Grows h h' g (b ∷ bs) ((r, e, ne, le), a) =
    let (r', e', ne', le') = g b.region r e ne in
    ((r', e', ne', omega arith), InUse-Grows h h' g bs a)

pub alloc_ok-Result :
    {h : RegionHeap} {o : Option RegionHandle × RegionHeap} (size : ℕ)
    → IsValid h
    → alloc h size ≡ ok o
    → Allocates h size o
alloc_ok-Result {h} {o} size v e =
    let (o', e', r) = alloc-Result v size in
    let same : o' ≡ o = cc in subst (Allocates h size) same r

module _ {h : RegionHeap} (v : IsValid h) where
  pub Granted-Grows :
      {size : ℕ} {hd : RegionHandle} {h' : RegionHeap} → Granted h size hd h' → Grows h h'
  unfolding Grows
  Granted-Grows {size} {hd} g j r e ne = elim (ℕ_discrete j hd.region) [
    | yes same ↦ (
      bumped g.from hd.offset size,
      rw same g.now,
      ground arith,
      ground (arith, v.region hd.region g.from g.here),
    )
    | no other ↦
        let (r', e', d) = g.others j r other e in
        (r', e', ground (arith, d.state), omega (arith, d.offset))
  ]

  pub Kept-Grows : {h' : RegionHeap} → Kept h h' → Grows h h'
  unfolding Grows
  Kept-Grows k j r e ne =
      let (r', e', d) = k.all j r e in (r', e', ground (arith, d.state), omega (arith, d.offset))

  -- A fresh block has nothing in common with the blocks in use.
  pub Granted-Apart :
      {size : ℕ} {hd : RegionHandle} {h' : RegionHeap}
      → Granted h size hd h'
      → (bs : List Block) → All (InUse h) bs
      → All (Apart (block hd size)) bs
  Granted-Apart g [] a = tt
  Granted-Apart {size} {hd} g (b ∷ bs) ((r, e, ne, le), a) = (apart, Granted-Apart g bs a)
    where
      apart : Apart (block hd size) b
      apart = elim (ℕ_discrete hd.region b.region) [
        | yes same ↦ inr (inr (ground (arith, g.here, g.start, v.region hd.region g.from g.here)))
        | no other ↦ inl other
      ]

  pub replaced-Grows :
      (k : ℕ) {r : Region} (r' : Region)
      → get_elem? h.regions k ≡ some r
      → r'.state ≡ r.state
      → r'.offset ≡ r.offset
      → Grows h (record h { regions = set h.regions k r' })
  unfolding Grows
  replaced-Grows k {r} r' here same_state same_offset j q e ne = elim (ℕ_discrete k j) [
    | yes at_k ↦ (
      r',
      ground (arith, get_elem?-set h.regions k j r', lt_length_of_get_elem? h.regions k here),
      ground arith,
      ground arith,
    )
    | no other ↦ (q, ground (arith, get_elem?-set h.regions k j r'), ne, omega arith)
  ]

pub pre_mark-Grows : (h : RegionHeap) → Grows h (pre_mark h)
unfolding Grows pre_mark
pre_mark-Grows h j r e ne =
    (uncounted r, get_elem?-map uncounted h.regions j r e, ground arith, omega arith)

pub pre_mark-IsValid : {h : RegionHeap} → IsValid h → IsValid (pre_mark h)
unfolding pre_mark
pre_mark-IsValid {h} v = record {
  region = λ i r g.
      let (q, e, same) = get_elem?_of_map uncounted h.regions i r g in
      ground (arith, same, v.region i q e);
  few = rw length-map v.few;
  only_current = λ i r g a.
      let (q, e, same) = get_elem?_of_map uncounted h.regions i r g in
      v.only_current i q e (ground (arith, same));
  in_use = λ i c.
      let (q, e, ne) = v.in_use i c in
      (uncounted q, get_elem?-map uncounted h.regions i q e, ground arith);
}

pub mark_live-ok :
    (h : RegionHeap) (hd : RegionHandle) {done : RegionHeap}
    → mark_live h hd ≡ ok done
    → (r : Region) × (get_elem? h.regions hd.region ≡ some r)
      × (done ≡ record h {
        regions = set h.regions hd.region (record r { live_count = u32 (r.live_count + 1) });
      })
unfolding mark_live
mark_live-ok h hd e = elim (Option-cases (get_elem? h.regions hd.region)) [
  | inl out ↦ ground arith
  | inr (r, here) ↦ (r, here, ground arith)
]
