-- ===== src/Region/Sweep/Cycle.antt =====
-- The cycle in which a client calls src/region.rs: `pre_mark`, then `mark_live` for each object that
-- its mark phase reached, then `sweep`. `mark_all` and `collect` are the client's.
use native.Mathlib.Nat.{zero-add}
use samsara.Prelude.{
  get_elem?-map, length-map, ℕ_discrete, ◌||◌, not, ℕ, suc, ◌+◌, ◌^◌, ◌<◌, ◌≡◌, refl, some, List,
  [], ◌∷◌, length, get_elem?, set, arith, ok, ap, ◌∙◌, Outcome, ◌>>=◌, ◌==◌, if◌then◌else◌, u32,
  get_elem?-set, length-set, get_elem?_of_lt_length,
}
use samsara.Region.{
  Region, RegionHandle, RegionHeap, uncounted, pre_mark, mark_live, is_free, reset, sweep,
}
use samsara.Region.Sweep.Reclaim.{sweep_lem}

-- The client's loop over the objects that it found alive.
pub mark_all : RegionHeap → List RegionHandle → Outcome RegionHeap
mark_all h [] = ok h
mark_all h (hd ∷ hds) = mark_live h hd >>= λ h'. mark_all h' hds

pub collect : RegionHeap → List RegionHandle → Outcome (ℕ × RegionHeap)
collect h hds = mark_all (pre_mark h) hds >>= λ h'. ok (sweep h')

-- The objects of the list in region `i`.
abbrev pub marks : ℕ → List RegionHandle → ℕ
marks i [] = 0
marks i (hd ∷ hds) = if hd.region == i then suc (marks i hds) else marks i hds

abbrev pub InRange : ℕ → List RegionHandle → Type 0
InRange n [] = Unit
InRange n (hd ∷ hds) = (hd.region < n) × InRange n hds

abbrev pub counting : Region → ℕ → Region
counting r n = record r { live_count = n }

-- Counts after some marks: `c + n` modulo 2^32, where the count before was `c`.
mark_all_counts :
    (h : RegionHeap) (hds : List RegionHandle)
    → InRange (length h.regions) hds
    → (h' : RegionHeap) × (mark_all h hds ≡ ok h')
      × (h'.current ≡ h.current)
      × ((i : ℕ) (r : Region)
          → get_elem? h.regions i ≡ some r
          → r.live_count < 2 ^ 32
          → get_elem? h'.regions i ≡ some (counting r (u32 (r.live_count + marks i hds))))
unfolding mark_all mark_live
mark_all_counts h [] rng =
    (h, refl, refl, λ i r e lt. e ∙ ap (λ n. some (counting r n)) (omega arith))
mark_all_counts h (hd ∷ hds) rng =
    let (q, here) = get_elem?_of_lt_length h.regions hd.region rng.0 in
    let q' = counting q (u32 (q.live_count + 1)) in
    let h1 = record h { regions = set h.regions hd.region q' } in
    let len : length h1.regions ≡ length h.regions = length-set h.regions hd.region q' in
    let (h', done, current, counts) = mark_all_counts h1 hds (rw len rng.1) in
    (
      h',
      ground (arith, here, done),
      current,
      λ i r e lt. elim (ℕ_discrete hd.region i) [
        | yes same ↦
            let now : get_elem? h1.regions i ≡ some (counting r (u32 (r.live_count + 1))) =
              ground (arith, here, get_elem?-set h.regions hd.region i q', rng.0) in
            counts i (counting r (u32 (r.live_count + 1))) now (omega arith)
            ∙ ap (λ n. some (counting r n)) (ground arith)
        | no other ↦
            counts i r (ground (arith, get_elem?-set h.regions hd.region i q')) lt
            ∙ ap (λ n. some (counting r n)) (ground arith)
      ],
    )

-- A cycle over handles in range does not panic. Each region is then as it was, with the number of its
-- marked objects modulo 2^32 as its count, except that a region in use is reset if this count is 0.
pub collect_lem :
    (h : RegionHeap) (hds : List RegionHandle)
    → InRange (length h.regions) hds
    → (freed : ℕ) × (h' : RegionHeap) × (collect h hds ≡ ok (freed, h'))
      × ((i : ℕ) (r : Region)
          → get_elem? h.regions i ≡ some r
          → get_elem? h'.regions i
            ≡ some (
                if is_free r.state || not (u32 (marks i hds) == 0)
                then counting r (u32 (marks i hds))
                else reset r))
unfolding collect pre_mark reset
collect_lem h hds rng =
    let (h', done, _, counts) =
      mark_all_counts (pre_mark h) hds (rw (length-map uncounted h.regions) rng) in
    (
      (sweep h').0,
      (sweep h').1,
      ground (arith, done),
      λ i r e.
          let now =
            counts i (uncounted r) (get_elem?-map uncounted h.regions i r e) (omega arith) in
          let (dead, alive) = (sweep_lem h').2 i _ now in
          ground (arith, dead, alive, zero-add (marks i hds)),
    )
