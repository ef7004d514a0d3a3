-- ===== src/Region/Blocks/Disjoint.antt =====
-- The invariant of the blocks that clients of src/region.rs hold.
use samsara.Prelude.{
  ℕ, ◌^◌, ◌≤◌, ◌≡◌, refl, inl, inr, false, List, [], ◌∷◌, All, arith, subst, Bool-cases,
}
use samsara.Region.{RegionHeap, sweep, is_dead}
use samsara.Region.Invariant.{IsValid, bumped, replace-IsValid, with_regions-IsValid}
use samsara.Region.Data.{written-IsValid, write-ok}
use samsara.Region.Sweep.Reclaim.{sweep_lem, sweep-IsValid}
use samsara.Region.Blocks.{
  Block, Session, is_lost, survivors, Step, granted, refused, wrote, reset_counts, marked, swept,
  Reach, start, next, Apart, AllApart, InUse,
}
use samsara.Region.Blocks.Growth.{
  Grows, InUse-Grows, alloc_ok-Result, Granted-Grows, Kept-Grows, Granted-Apart, replaced-Grows,
  pre_mark-Grows, pre_mark-IsValid, mark_live-ok,
}

-- The well-formed sessions.
pub record IsSession (s : Session) : Type 0 where
  pub valid : IsValid s.heap
  pub in_use : All (InUse s.heap) s.blocks
  pub apart : AllApart s.blocks

-- A step that takes no block and loses none.
step_Grows :
    {s : Session} {h : RegionHeap}
    → IsSession s
    → IsValid h
    → Grows s.heap h
    → IsSession (record { heap = h; blocks = s.blocks })
step_Grows {s} {h} v w g = record {
  valid = w;
  in_use = InUse-Grows s.heap h g s.blocks v.in_use;
  apart = v.apart;
}

All-survivors :
    (P : Block → Type 0) (h : RegionHeap) (bs : List Block) → All P bs → All P (survivors h bs)
All-survivors P h [] a = tt
All-survivors P h (b ∷ bs) (p, a) = elim (Bool-cases (is_lost h b)) [
  | inl lost ↦ rw lost (All-survivors P h bs a)
  | inr kept ↦ rw kept (p, All-survivors P h bs a)
]

AllApart-survivors : (h : RegionHeap) (bs : List Block) → AllApart bs → AllApart (survivors h bs)
AllApart-survivors h [] a = tt
AllApart-survivors h (b ∷ bs) (p, a) = elim (Bool-cases (is_lost h b)) [
  | inl lost ↦ rw lost (AllApart-survivors h bs a)
  | inr kept ↦ rw kept (All-survivors (Apart b) h bs p, AllApart-survivors h bs a)
]

-- The blocks that a sweep keeps are in use after it.
InUse-survivors :
    (h : RegionHeap) (bs : List Block) → All (InUse h) bs → All (InUse (sweep h).1) (survivors h bs)
InUse-survivors h [] a = tt
InUse-survivors h (b ∷ bs) ((r, e, ne, le), a) = elim (Bool-cases (is_lost h b)) [
  | inl lost ↦ rw lost (InUse-survivors h bs a)
  | inr kept ↦
      let alive : is_dead r ≡ false = ground (arith, e, kept) in
      rw kept ((r, ((sweep_lem h).2 b.region r e).1 alive, ne, le), InUse-survivors h bs a)
]

-- Every call keeps a session well-formed.
pub Step-IsSession : {s t : Session} → Step s t → IsSession s → IsSession t
Step-IsSession {s} (granted size {hd} {h} e) v = elim (alloc_ok-Result size v.valid e) [
  | inl (_, no_block) ↦ cc
  | inr (_, (g, w)) ↦ record {
    valid = w;
    in_use = (
      (bumped g.from hd.offset size, g.now, ground arith, omega arith),
      InUse-Grows s.heap h (Granted-Grows v.valid g) s.blocks v.in_use,
    );
    apart = (Granted-Apart v.valid g s.blocks v.in_use, v.apart);
  }
]
Step-IsSession {s} (refused size {h} e) v = elim (alloc_ok-Result size v.valid e) [
  | inl (_, same) ↦
      let e' : s.heap ≡ h = cc in
      subst (λ k. IsSession (record { heap = k; blocks = s.blocks })) e' v
  | inr (_, (_, k, w)) ↦ step_Grows v w (Kept-Grows v.valid k)
]
Step-IsSession {s} (wrote hd items e) v =
    let (r, here, fits, same) = write-ok s.heap hd items e in
    rw same (
      step_Grows v (written-IsValid s.heap hd items here fits v.valid)
        (replaced-Grows v.valid hd.region _ here refl refl))
Step-IsSession {s} reset_counts v = step_Grows v (pre_mark-IsValid v.valid) (pre_mark-Grows s.heap)
Step-IsSession {s} (marked hd e) v =
    let (r, here, same) = mark_live-ok s.heap hd e in
    rw same (
      step_Grows v
        (replace-IsValid v.valid hd.region here
          (let w = v.valid.region hd.region r here in omega arith) refl)
        (replaced-Grows v.valid hd.region _ here refl refl))
Step-IsSession {s} swept v = record {
  valid = sweep-IsValid v.valid;
  in_use = InUse-survivors s.heap s.blocks v.in_use;
  apart = AllApart-survivors s.heap s.blocks v.apart;
}

-- From a heap of `n` fresh regions, at most 2^32 of them, after any calls of `alloc`, `write`, `pre_mark`, `mark_live` and
-- `sweep`, the heap is well-formed, and the blocks that were returned and not reclaimed since lie
-- below the bump pointers of regions in use, and no two of them have a byte in common.
pub Reach-IsSession : {n : ℕ} {s : Session} → n ≤ 2 ^ 32 → Reach n s → IsSession s
Reach-IsSession {n} few start = record {
  valid = with_regions-IsValid n few;
  in_use = tt;
  apart = tt;
}
Reach-IsSession few (next r st) = Step-IsSession st (Reach-IsSession few r)
