-- ===== src/SafeTreiber/Scan.antt =====
-- The steps of `reclaim_locked` of src/safe_treiber.rs: those of `HazardRegistry::snapshot`.
use samsara.Prelude.{
  ℕ, get_elem?, get_elem?_of_lt_length, lt_length_of_get_elem?, ◌+◌, ◌≤◌, ◌≡◌, ◌≢◌, refl, none,
  some, Bool, true, false, List, [], ◌∷◌, ◌++◌, mem-append, inl, inr, ⊎_elim, Bool-cases,
  Option-cases, ◌==◌, if◌then◌else◌, arith, subst,
}
use samsara.Memory.{null, Effect, done, panics, undefined}
use samsara.Hazard.{Slot}
use samsara.Lifo.Simulation.{Keeps}
use samsara.SafeTreiber.{Shared, Pass, reading_use, reading_ptr, retaining, reclaim}
use samsara.SafeTreiber.Invariant.{Ghost, Sound, Uses, IsCovered, invariant, At-Frame}

module _ (i : ℕ) (s : Shared) (g : Ghost) (xs : List ℕ) (sound : Sound s g xs) where
  -- What a step under the lock comes to: the stack is as it was, and no other thread is disturbed.
  pub record Reclaims (s' : Shared) : Type 0 where
    pub ghost : Ghost
    pub still : Sound s' ghost xs
    pub others : Keeps invariant i s g s' ghost

  abbrev pub ReclaimsTo : Effect (Shared × Bool) → Type 0
  ReclaimsTo (done (s', over)) = Reclaims s'
  ReclaimsTo panics = Unit
  ReclaimsTo undefined = ⊥

  -- Only the pass goes on.
  pub pass_goes :
      (p p' : Pass)
      → s.pass ≡ p
      → ((j idx a : ℕ)
          → Uses s g j idx a
          → a ≢ null
          → IsCovered s.retired p idx a
          → IsCovered s.retired p' idx a)
      → Reclaims (record s { pass = p' })
  pass_goes p p' at_pass covers = record {
    ghost = g;
    still = record {
      contents = sound.contents;
      chain = sound.chain;
      in_stack = sound.in_stack;
      distinct = sound.distinct;
      unowned = sound.unowned;
      in_queue = sound.in_queue;
      once = sound.once;
      vacant = sound.vacant;
    };
    others = λ j t c ne.
        At-Frame j s g (record s { pass = p' }) g t c
          (record {
            pushes = λ a v n h. h;
            takes = λ a v n h. h;
            slots = λ idx ptr u. u;
            reads = λ idx a v n r. record {
              uses = r.uses;
              covered =
                  covers j idx a r.uses r.some_node
                    (subst (λ q. IsCovered s.retired q idx a) at_pass r.covered);
              some_node = r.some_node;
              seen = r.seen;
              here = r.here;
            };
          });
  }

  -- Beyond the last slot no thread publishes.
  past_slots : (k j idx a : ℕ) → get_elem? s.hazards.slots k ≡ none → Uses s g j idx a → ¬ (k ≤ idx)
  past_slots k j idx a out (_, here) le =
      let inside = lt_length_of_get_elem? s.hazards.slots idx here in
      let (slot, e) = get_elem?_of_lt_length s.hazards.slots k (omega (arith, inside)) in
      ground (arith, e, out)

  -- Slot `k` publishes what thread `j` reads there.
  at_slot :
      (k j idx a : ℕ) (slot : Slot)
      → get_elem? s.hazards.slots k ≡ some slot
      → Uses s g j idx a
      → idx ≡ k
      → (slot.in_use ≡ true) × (slot.ptr ≡ a)
  at_slot k j idx a slot here (_, published) same = ground (arith, here, published, same)

  pub reads_use : (k : ℕ) (found : List ℕ) → s.pass ≡ reading_use k found → ReclaimsTo (reclaim s)
  unfolding reclaim
  reads_use k found at_pass = elim (Option-cases (get_elem? s.hazards.slots k)) [
    | inl out ↦
        let on : done (record s { pass = retaining found }, false) ≡ reclaim s =
          rw (at_pass, out, reclaim) refl in
        subst ReclaimsTo on (
          pass_goes (reading_use k found) (retaining found) at_pass λ j idx a u ne c.
            ⊎_elim inl (λ q. ⊎_elim (λ le. absurd (past_slots k j idx a out u le)) inr q) c)
    | inr (slot, here) ↦ elim (Bool-cases slot.in_use) [
      | inl used ↦
          let on : done (record s { pass = reading_ptr k found }, false) ≡ reclaim s =
            rw (at_pass, here, used, reclaim) refl in
          subst ReclaimsTo on
            (pass_goes (reading_use k found) (reading_ptr k found) at_pass λ j idx a u ne c. c)
      | inr free ↦
          let on : done (record s { pass = reading_use (k + 1) found }, false) ≡ reclaim s =
            rw (at_pass, here, free, reclaim) refl in
          subst ReclaimsTo on (
            pass_goes (reading_use k found) (reading_use (k + 1) found) at_pass
              λ j idx a u ne c. ground (arith, c, free, at_slot k j idx a slot here u))
    ]
  ]

  pub reads_ptr : (k : ℕ) (found : List ℕ) → s.pass ≡ reading_ptr k found → ReclaimsTo (reclaim s)
  unfolding reclaim
  reads_ptr k found at_pass = elim (Option-cases (get_elem? s.hazards.slots k)) [
    | inl out ↦
        let on : done (record s { pass = retaining found }, false) ≡ reclaim s =
          rw (at_pass, out, reclaim) refl in
        subst ReclaimsTo on (
          pass_goes (reading_ptr k found) (retaining found) at_pass λ j idx a u ne c.
            ⊎_elim inl (λ q. ⊎_elim (λ le. absurd (past_slots k j idx a out u le)) inr q) c)
    | inr (slot, here) ↦
        let found' = if slot.ptr == null then found else found ++ slot.ptr ∷ [] in
        let on : done (record s { pass = reading_use (k + 1) found' }, false) ≡ reclaim s =
          rw (at_pass, here, reclaim) refl in
        subst ReclaimsTo on (
          pass_goes (reading_ptr k found) (reading_use (k + 1) found') at_pass λ j idx a u ne c.
            ground
              (arith, c, ne, at_slot k j idx a slot here u, mem-append a found (slot.ptr ∷ [])))
  ]
