-- ===== src/SafeTreiber/Queue.antt =====
-- The retired queue of src/safe_treiber.rs: `retire`, `force_reclaim` and the passes that they start.
use samsara.Prelude.{
  ℕ, ◌≡◌, refl, some, Bool, true, false, List, [], ◌∷◌, ◌++◌, ◌∈◌, mem-append, IsDistinct, leb,
  length, inl, inr, Bool-cases, if◌then◌else◌, ℕ_discrete, arith, subst, sym,
}
use mathlib.Core.List.{append_assoc}
use samsara.Memory.{Effect, done, panics, undefined, ◌>>=◌}
use samsara.Lifo.{Call, idle, popped, waits, update}
use samsara.Lifo.Simulation.{Goes, GoesTo}
use samsara.SafeTreiber.{
  Shared, Thread, Pass, unlocked, reading_use, reading_ptr, retaining, pop_retire, pop_reclaim,
  pop_done, force_lock, force_reclaim, resting, reclaim, retire, retire_threshold, lock_for_force,
  advance,
}
use samsara.SafeTreiber.Invariant.{
  taken, retired, Seen, Ghost, Sound, Holds, IsCovered, At, invariant,
}
use samsara.SafeTreiber.Nodes.{Keeps-own, to}
use samsara.SafeTreiber.Slots.{passes}
use samsara.SafeTreiber.Scan.{ReclaimsTo, pass_goes}
use samsara.SafeTreiber.Retain.{reclaim_at}

pub IsDistinct-snoc : (xs : List ℕ) (a : ℕ) → IsDistinct xs → ¬ (a ∈ xs) → IsDistinct (xs ++ a ∷ [])
IsDistinct-snoc [] a d new = (λ m. absurd m, tt)
IsDistinct-snoc (x ∷ xs) a (ne, d) new = (
  λ m. ground (arith, m, mem-append x xs (a ∷ []), ne, new),
  IsDistinct-snoc xs a d (λ m. new (inr m)),
)

module _ (i : ℕ) (s : Shared) (g : Ghost) (xs : List ℕ) (sound : Sound s g xs) where
  -- A thread goes on after a step under the lock.
  lifts :
      (c : Call) (next : Bool → Thread) (o : Effect (Shared × Bool))
      → ((over : Bool) (s' : Shared) (g' : Ghost) → At i s' g' (next over) c)
      → ReclaimsTo i s g xs sound o
      → GoesTo invariant i s g xs c (o >>= λ (s', over). done (s', next over))
  lifts c next (done (s', over)) at_next r = record {
    ghost = r.ghost;
    contents = xs;
    call = c;
    takes = waits;
    sound = r.still;
    here = at_next over s' r.ghost;
    others = r.others;
  }
  lifts c next panics at_next r = tt
  lifts c next undefined at_next r = r

  after_pop :
      (value : ℕ) (over : Bool) (s' : Shared) (g' : Ghost)
      → At i s' g' (if over then pop_done (some value) else pop_reclaim value) (popped (some value))
  after_pop value true s' g' = refl
  after_pop value false s' g' = refl

  after_force :
      (over : Bool) (s' : Shared) (g' : Ghost)
      → At i s' g' (if over then resting else force_reclaim) idle
  after_force true s' g' = refl
  after_force false s' g' = refl

  pub go_reclaim :
      (value : ℕ) → GoesTo invariant i s g xs (popped (some value)) (advance s (pop_reclaim value))
  unfolding advance
  go_reclaim value =
      lifts (popped (some value))
        (λ over. if over then pop_done (some value) else pop_reclaim value) (reclaim s)
        (after_pop value) (reclaim_at i s g xs sound s.pass refl)

  pub go_force_reclaim : GoesTo invariant i s g xs idle (advance s force_reclaim)
  unfolding advance
  go_force_reclaim =
      lifts idle (λ over. if over then resting else force_reclaim) (reclaim s) after_force
        (reclaim_at i s g xs sound s.pass refl)

  go_lock : (p : Pass) → s.pass ≡ p → GoesTo invariant i s g xs idle (lock_for_force s)
  unfolding lock_for_force
  go_lock unlocked at_pass =
      let r =
        pass_goes i s g xs sound unlocked (reading_use 0 []) at_pass
          (λ j idx a u ne c. inr (inl (omega arith))) in
      let on : done (record s { pass = reading_use 0 [] }, force_reclaim) ≡ lock_for_force s =
        ground (arith, at_pass) in
      subst (GoesTo invariant i s g xs idle) on (record {
        ghost = r.ghost;
        contents = xs;
        call = idle;
        takes = waits;
        sound = r.still;
        here = refl;
        others = r.others;
      })
  go_lock (reading_use k found) at_pass =
      let on : done (s, force_lock) ≡ lock_for_force s = ground (arith, at_pass) in
      subst (GoesTo invariant i s g xs idle) on (passes i s g xs sound idle force_lock refl)
  go_lock (reading_ptr k found) at_pass =
      let on : done (s, force_lock) ≡ lock_for_force s = ground (arith, at_pass) in
      subst (GoesTo invariant i s g xs idle) on (passes i s g xs sound idle force_lock refl)
  go_lock (retaining hazards) at_pass =
      let on : done (s, force_lock) ≡ lock_for_force s = ground (arith, at_pass) in
      subst (GoesTo invariant i s g xs idle) on (passes i s g xs sound idle force_lock refl)

  pub go_force : GoesTo invariant i s g xs idle (advance s force_lock)
  unfolding advance
  go_force = go_lock s.pass refl

  -- The thread hands its node to the queue; the pass is `p` after that.
  hands_over :
      (head v n value : ℕ) (p : Pass) (t : Thread)
      → s.pass ≡ unlocked
      → Holds s g head (taken i) v n
      → ((queue : List ℕ) (idx a : ℕ) → IsCovered queue p idx a)
      → ((s' : Shared) (g' : Ghost) → At i s' g' t (popped (some value)))
      → Goes invariant i s g xs
          (popped (some value))
          (record s { retired = s.retired ++ head ∷ []; pass = p })
          t
  hands_over head v n value p t at_pass (some_head, owned, here) covers at_t =
      let s1 : Shared = record s { retired = s.retired ++ head ∷ []; pass = p } in
      let g1 = to i s g xs sound head retired in
      let new : ¬ (head ∈ (s.kept ++ s.retired)) = λ m. let q = sound.in_queue head m in cc in
      let now_retired : update g.owner head retired head ≡ retired = ground arith in
      record {
        ghost = g1;
        contents = xs;
        call = popped (some value);
        takes = waits;
        sound = record {
          contents = sound.contents;
          chain = sound.chain;
          in_stack = λ a m. ground (arith, sound.in_stack a m, owned, ℕ_discrete a head);
          distinct = sound.distinct;
          unowned = λ a q. ground (arith, q, here, sound.unowned a, ℕ_discrete a head);
          in_queue = λ a m. ground (
            arith,
            m,
            mem-append a s.kept (s.retired ++ head ∷ []),
            mem-append a s.retired (head ∷ []),
            mem-append a s.kept s.retired,
            sound.in_queue a,
            ℕ_discrete a head,
          );
          once =
              subst IsDistinct (append_assoc s.kept s.retired (head ∷ []))
                (IsDistinct-snoc (s.kept ++ s.retired) head sound.once new);
          vacant = sound.vacant;
        };
        here = at_t s1 g1;
        others =
            Keeps-own s g s1 g1 head (λ b ne. (refl, ground arith)) refl refl i
              (λ j ne. (λ q. cc, λ q. ground (arith, ne)))
              (λ q. (subst Seen (sym now_retired) tt, refl)) (λ idx b q c. covers s1.retired idx b);
      }

  retire_at :
      (head v n value : ℕ) (p : Pass)
      → s.pass ≡ p
      → Holds s g head (taken i) v n
      → GoesTo invariant i s g xs (popped (some value)) (retire s head value)
  unfolding retire
  retire_at head v n value unlocked at_pass h =
      elim (Bool-cases (leb retire_threshold (length (s.retired ++ head ∷ [])))) [
        | inl long ↦
            let on : done (
              record s { retired = s.retired ++ head ∷ []; pass = reading_use 0 [] },
              pop_reclaim value,
            )
                ≡ retire s head value =
              ground (arith, at_pass, long) in
            subst (GoesTo invariant i s g xs (popped (some value))) on (
              hands_over head v n value (reading_use 0 []) (pop_reclaim value) at_pass h
                (λ queue idx a. inr (inl (omega arith))) (λ s' g'. refl))
        | inr short ↦
            let on : done (
              record s { retired = s.retired ++ head ∷ []; pass = unlocked },
              pop_done (some value),
            )
                ≡ retire s head value =
              ground (arith, at_pass, short) in
            subst (GoesTo invariant i s g xs (popped (some value))) on (
              hands_over head v n value unlocked (pop_done (some value)) at_pass h
                (λ queue idx a. tt) (λ s' g'. refl))
      ]
  retire_at head v n value (reading_use k found) at_pass h =
      let on : done (s, pop_retire head value) ≡ retire s head value = ground (arith, at_pass) in
      subst (GoesTo invariant i s g xs (popped (some value))) on
        (passes i s g xs sound (popped (some value)) (pop_retire head value) (v, n, h, refl))
  retire_at head v n value (reading_ptr k found) at_pass h =
      let on : done (s, pop_retire head value) ≡ retire s head value = ground (arith, at_pass) in
      subst (GoesTo invariant i s g xs (popped (some value))) on
        (passes i s g xs sound (popped (some value)) (pop_retire head value) (v, n, h, refl))
  retire_at head v n value (retaining hazards) at_pass h =
      let on : done (s, pop_retire head value) ≡ retire s head value = ground (arith, at_pass) in
      subst (GoesTo invariant i s g xs (popped (some value))) on
        (passes i s g xs sound (popped (some value)) (pop_retire head value) (v, n, h, refl))

  pub go_retire :
      (head v n value : ℕ)
      → Holds s g head (taken i) v n
      → GoesTo invariant i s g xs (popped (some value)) (advance s (pop_retire head value))
  unfolding advance
  go_retire head v n value = retire_at head v n value s.pass refl
