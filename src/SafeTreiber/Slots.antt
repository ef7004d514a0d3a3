-- ===== src/SafeTreiber/Slots.antt =====
-- The steps of src/safe_treiber.rs that change a hazard slot.
use samsara.Prelude.{
  ℕ, get_elem?, set, get_elem?-set, lt_length_of_get_elem?, ◌+◌, ◌≡◌, ◌≢◌, refl, Option, none, some,
  true, false, List, inl, inr, Bool-cases, Option-cases, ℕ_discrete, arith, subst, sym, ap, ◌∙◌,
}
use samsara.Memory.{null, done}
use samsara.Hazard.{Slot, protect, clear, vacate}
use samsara.Lifo.{Call, popping, popped, waits, update}
use samsara.Lifo.Simulation.{Keeps, Goes, GoesTo}
use samsara.SafeTreiber.{
  Shared, Thread, acquiring, pop_load, pop_protect, pop_verify, pop_clear, pop_drop, pop_vacate,
  pop_retire, empty_drop, empty_vacate, pop_done, advance,
}
use samsara.SafeTreiber.Invariant.{Ghost, Sound, Holds, Uses, At, invariant, At-Frame, taken}

-- The shared state after slot `idx` has become `slot`.
abbrev pub with_slot : Shared → ℕ → Slot → Shared
with_slot s idx slot = record s { hazards = record { slots = set s.hazards.slots idx slot } }

abbrev pub with_user : Ghost → ℕ → Option ℕ → Ghost
with_user g idx u = record g { user = update g.user idx u }

module _ (i : ℕ) (s : Shared) (g : Ghost) (xs : List ℕ) (sound : Sound s g xs) (idx : ℕ)
    {old : Slot} (here : get_elem? s.hazards.slots idx ≡ some old) where
  at_slot : (slot : Slot) → get_elem? (set s.hazards.slots idx slot) idx ≡ some slot
  at_slot slot = ground (
    arith,
    get_elem?-set s.hazards.slots idx idx slot,
    lt_length_of_get_elem? s.hazards.slots idx here,
  )

  elsewhere :
      (slot : Slot) (k : ℕ)
      → k ≢ idx
      → get_elem? (set s.hazards.slots idx slot) k ≡ get_elem? s.hazards.slots k
  elsewhere slot k ne = ground (arith, get_elem?-set s.hazards.slots idx k slot)

  Uses-other :
      (j k ptr : ℕ) (slot : Slot) (u : Option ℕ)
      → g.user idx ≢ some j
      → Uses s g j k ptr
      → Uses (with_slot s idx slot) (with_user g idx u) j k ptr
  Uses-other j k ptr slot u ne (user, published) = elim (ℕ_discrete k idx) [
    | yes same ↦ absurd (ne (ap g.user (sym same) ∙ user))
    | no other ↦ (ground (arith, user, other), elsewhere slot k other ∙ published)
  ]

  -- The slot is the thread's own, or nobody's: no other is disturbed.
  Keeps-slot :
      (slot : Slot) (u : Option ℕ)
      → ((j : ℕ) → j ≢ i → g.user idx ≢ some j)
      → Keeps invariant i s g (with_slot s idx slot) (with_user g idx u)
  Keeps-slot slot u own j t c ne =
      At-Frame j s g (with_slot s idx slot) (with_user g idx u) t c (record {
        pushes = λ a v n h. h;
        takes = λ a v n h. h;
        slots = λ k ptr. Uses-other j k ptr slot u (own j ne);
        reads = λ k a v n r. record {
          uses = Uses-other j k a slot u (own j ne) r.uses;
          covered = r.covered;
          some_node = r.some_node;
          seen = r.seen;
          here = r.here;
        };
      })

  Sound-slot :
      (slot : Slot) (u : Option ℕ)
      → (slot.in_use ≡ false → u ≡ none)
      → Sound (with_slot s idx slot) (with_user g idx u) xs
  Sound-slot slot u free = record {
    contents = sound.contents;
    chain = sound.chain;
    in_stack = sound.in_stack;
    distinct = sound.distinct;
    unowned = sound.unowned;
    in_queue = sound.in_queue;
    once = sound.once;
    vacant = λ k q e unused. elim (ℕ_discrete k idx) [
      | yes same ↦
          let now : q ≡ slot = ground (arith, e, at_slot slot, same) in
          ground (arith, same, free (ap (λ x. x.in_use) (sym now) ∙ unused))
      | no other ↦ ground (arith, other, sound.vacant k q (sym (elsewhere slot k other) ∙ e) unused)
    ];
  }

  -- A step of thread `i` that changes only its slot.
  pub slot-Goes :
      (slot : Slot) (u : Option ℕ) (c : Call) (t : Thread)
      → ((j : ℕ) → j ≢ i → g.user idx ≢ some j)
      → (slot.in_use ≡ false → u ≡ none)
      → At i (with_slot s idx slot) (with_user g idx u) t c
      → Goes invariant i s g xs c (with_slot s idx slot) t
  slot-Goes slot u c t own free at_t = record {
    ghost = with_user g idx u;
    contents = xs;
    call = c;
    takes = waits;
    sound = Sound-slot slot u free;
    here = at_t;
    others = Keeps-slot slot u own;
  }

  -- The slot is the thread's and publishes `ptr`.
  pub Uses-now :
      (ptr : ℕ) (u : Option ℕ)
      → u ≡ some i
      → Uses (with_slot s idx (record { in_use = true; ptr = ptr })) (with_user g idx u) i idx ptr
  Uses-now ptr u e = (ground (arith, e), at_slot (record { in_use = true; ptr = ptr }))

module _ (i : ℕ) (s : Shared) (g : Ghost) (xs : List ℕ) (sound : Sound s g xs) where
  -- A step that changes nothing shared.
  pub passes : (c : Call) (t : Thread) → At i s g t c → Goes invariant i s g xs c s t
  passes c t at_t = record {
    ghost = g;
    contents = xs;
    call = c;
    takes = waits;
    sound = sound;
    here = at_t;
    others = λ j t c ne a. a;
  }

  pub go_acquire : (idx : ℕ) → GoesTo invariant i s g xs popping (advance s (acquiring idx))
  unfolding advance
  go_acquire idx = elim (Option-cases (get_elem? s.hazards.slots idx)) [
    | inl out ↦ rw (out, advance) tt
    | inr (slot, here) ↦ elim (Bool-cases slot.in_use) [
      | inl used ↦
          let on : done (s, acquiring (idx + 1)) ≡ advance s (acquiring idx) =
            ground (arith, here, used) in
          subst (GoesTo invariant i s g xs popping) on (passes popping (acquiring (idx + 1)) refl)
      | inr free ↦
          let mine : Slot = record slot { in_use = true } in
          let on : done (with_slot s idx mine, pop_load idx) ≡ advance s (acquiring idx) =
            ground (arith, here, free) in
          let nobody's = sound.vacant idx slot here free in
          subst (GoesTo invariant i s g xs popping) on (
            slot-Goes i s g xs sound idx here mine (some i) popping (pop_load idx) (λ j ne q. cc)
              (λ q. cc) (slot.ptr, Uses-now i s g xs sound idx here slot.ptr (some i) refl, refl))
    ]
  ]

  -- Thread `i` publishes `q` in its slot.
  publishes :
      (idx ptr q : ℕ) (c : Call) (t : Thread)
      → Uses s g i idx ptr
      → ((s' : Shared) (g' : Ghost)
          → ((a : ℕ) → s'.heap a ≡ s.heap a)
          → ((a : ℕ) → g'.owner a ≡ g.owner a)
          → Uses s' g' i idx q
          → At i s' g' t c)
      → GoesTo invariant i s g xs c (done (record s { hazards = protect s.hazards idx q }, t))
  unfolding protect
  publishes idx ptr q c t (user, here) at_t =
      let mine : Slot = record { in_use = true; ptr = q } in
      let same : with_slot s idx mine ≡ record s { hazards = protect s.hazards idx q } =
        ground (arith, here) in
      let uses = Uses-now i s g xs sound idx here q (some i) refl in
      subst (λ s'. GoesTo invariant i s g xs c (done (s', t))) same
        (slot-Goes i s g xs sound idx here mine (some i) c t (λ j ne e. ground (arith, user, e, ne))
          (λ e. cc)
          (at_t (with_slot s idx mine) (with_user g idx (some i)) (λ a. refl) (λ a. refl) uses))

  -- Thread `i` gives its slot back.
  vacates :
      (idx ptr : ℕ) (c : Call) (t : Thread)
      → Uses s g i idx ptr
      → ((s' : Shared) (g' : Ghost)
          → ((a : ℕ) → s'.heap a ≡ s.heap a)
          → ((a : ℕ) → g'.owner a ≡ g.owner a)
          → At i s' g' t c)
      → GoesTo invariant i s g xs c (done (record s { hazards = vacate s.hazards idx }, t))
  unfolding vacate
  vacates idx ptr c t (user, here) at_t =
      let free : Slot = record { in_use = false; ptr = ptr } in
      let same : with_slot s idx free ≡ record s { hazards = vacate s.hazards idx } =
        ground (arith, here) in
      subst (λ s'. GoesTo invariant i s g xs c (done (s', t))) same
        (slot-Goes i s g xs sound idx here free none c t (λ j ne e. ground (arith, user, e, ne))
          (λ e. refl) (at_t (with_slot s idx free) (with_user g idx none) (λ a. refl) (λ a. refl)))

  pub go_protect :
      (idx ptr head : ℕ)
      → Uses s g i idx ptr
      → head ≢ null
      → GoesTo invariant i s g xs popping (advance s (pop_protect idx head))
  unfolding advance
  go_protect idx ptr head u some_head =
      publishes idx ptr head popping (pop_verify idx head) u
        (λ s' g' h o uses. (uses, some_head, refl))

  pub go_clear :
      (idx ptr head v n value : ℕ)
      → Uses s g i idx ptr
      → Holds s g head (taken i) v n
      → GoesTo invariant i s g xs (popped (some value)) (advance s (pop_clear idx head value))
  unfolding advance clear
  go_clear idx ptr head v n value u (some_head, owned, here) =
      publishes idx ptr null (popped (some value)) (pop_drop idx head value) u
        (λ s' g' h o uses. (null, v, n, uses, (some_head, o head ∙ owned, h head ∙ here), refl))

  pub go_drop :
      (idx ptr head v n value : ℕ)
      → Uses s g i idx ptr
      → Holds s g head (taken i) v n
      → GoesTo invariant i s g xs (popped (some value)) (advance s (pop_drop idx head value))
  unfolding advance clear
  go_drop idx ptr head v n value u (some_head, owned, here) =
      publishes idx ptr null (popped (some value)) (pop_vacate idx head value) u
        (λ s' g' h o uses. (null, v, n, uses, (some_head, o head ∙ owned, h head ∙ here), refl))

  pub go_vacate :
      (idx ptr head v n value : ℕ)
      → Uses s g i idx ptr
      → Holds s g head (taken i) v n
      → GoesTo invariant i s g xs (popped (some value)) (advance s (pop_vacate idx head value))
  unfolding advance
  go_vacate idx ptr head v n value u (some_head, owned, here) =
      vacates idx ptr (popped (some value)) (pop_retire head value) u
        (λ s' g' h o. (v, n, (some_head, o head ∙ owned, h head ∙ here), refl))

  pub go_empty_drop :
      (idx ptr : ℕ)
      → Uses s g i idx ptr
      → GoesTo invariant i s g xs (popped none) (advance s (empty_drop idx))
  unfolding advance clear
  go_empty_drop idx ptr u =
      publishes idx ptr null (popped none) (empty_vacate idx) u
        (λ s' g' h o uses. (null, uses, refl))

  pub go_empty_vacate :
      (idx ptr : ℕ)
      → Uses s g i idx ptr
      → GoesTo invariant i s g xs (popped none) (advance s (empty_vacate idx))
  unfolding advance
  go_empty_vacate idx ptr u = vacates idx ptr (popped none) (pop_done none) u (λ s' g' h o. refl)
