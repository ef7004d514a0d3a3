-- ===== src/SafeTreiber/Nodes.antt =====
-- The steps of src/safe_treiber.rs that change a node or its owner.
use samsara.Prelude.{
  ℕ, get_elem?, ◌≡◌, ◌≢◌, ◌⊎◌, refl, Option, some, List, [], ◌∷◌, ◌∈◌, IsDistinct, inl, inr,
  ℕ_discrete, arith, subst, sym, ap, ◌∙◌,
}
use samsara.Memory.{null, Node, assign, done}
use samsara.Memory.Chain.{Chain, addresses, values, Chain-same}
use samsara.Lifo.{pushing, pushed, popping, popped, Takes, waits, takes_push, takes_pop, update}
use samsara.Lifo.Simulation.{Keeps, Goes, GoesTo}
use samsara.SafeTreiber.{
  Shared, Thread, push_load, push_link, push_cas, push_done, pop_value, PushStarts, advance,
}
use samsara.SafeTreiber.Invariant.{
  Owner, fresh, stacked, taken, Seen, Ghost, Sound, Holds, Uses, IsCovered, Guards, At, invariant,
  At-Frame,
}

-- One node changes hands or content; slots, queue and pass stay.
module _ (s : Shared) (g : Ghost) (s' : Shared) (g' : Ghost) (a : ℕ)
    (same : (b : ℕ) → b ≢ a → (s'.heap b ≡ s.heap b) × (g'.owner b ≡ g.owner b))
    (same_hazards : s'.hazards ≡ s.hazards) (same_user : g'.user ≡ g.user) where
  pub Holds-other :
      (o : Owner) (b v n : ℕ) → g.owner a ≢ o → Holds s g b o v n → Holds s' g' b o v n
  Holds-other o b v n ne (some_b, owned, here) = elim (ℕ_discrete b a) [
    | yes at_a ↦ absurd (ne (ap g.owner (sym at_a) ∙ owned))
    | no other ↦ let (h, w) = same b other in (some_b, w ∙ owned, h ∙ here)
  ]

  pub Uses-same : (j idx ptr : ℕ) → Uses s g j idx ptr → Uses s' g' j idx ptr
  Uses-same j idx ptr (u, here) =
      (ap (λ f. f idx) same_user ∙ u, ap (λ h. get_elem? h.slots idx) same_hazards ∙ here)

  -- The thread `i` that owns the node disturbs no other, if those that may read it still can.
  pub Keeps-own :
      (i : ℕ)
      → ((j : ℕ) → j ≢ i → (g.owner a ≢ fresh j) × (g.owner a ≢ taken j))
      → (Seen (g.owner a) → Seen (g'.owner a) × (s'.heap a ≡ s.heap a))
      → ((idx b : ℕ)
          → Seen (g.owner b)
          → IsCovered s.retired s.pass idx b
          → IsCovered s'.retired s'.pass idx b)
      → Keeps invariant i s g s' g'
  Keeps-own i own still covers j t c ne = At-Frame j s g s' g' t c (record {
    pushes = λ b v n. Holds-other (fresh j) b v n (own j ne).0;
    takes = λ b v n. Holds-other (taken j) b v n (own j ne).1;
    slots = Uses-same j;
    reads = λ idx b v n r. record {
      uses = Uses-same j idx b r.uses;
      covered = covers idx b r.seen r.covered;
      some_node = r.some_node;
      seen = elim (ℕ_discrete b a) [
        | yes at_a ↦
            let now = still (subst (λ k. Seen (g.owner k)) at_a r.seen) in
            subst (λ k. Seen (g'.owner k)) (sym at_a) now.0
        | no other ↦ subst Seen (sym (same b other).1) r.seen
      ];
      here = elim (ℕ_discrete b a) [
        | yes at_a ↦
            let now = still (subst (λ k. Seen (g.owner k)) at_a r.seen) in
            subst (λ k. s'.heap k ≡ s.heap k) (sym at_a) now.1 ∙ r.here
        | no other ↦ (same b other).0 ∙ r.here
      ];
    };
  })

module _ (i : ℕ) (s : Shared) (g : Ghost) (xs : List ℕ) (sound : Sound s g xs) where
  -- A node that is not in the stack is rewritten.
  pub Chain-assign :
      (a : ℕ) (x : Option Node) → g.owner a ≢ stacked → Chain (assign s.heap a x) s.head g.cells
  Chain-assign a x ne =
      Chain-same s.heap (assign s.heap a x) s.head g.cells
        (λ b m. let owned = sound.in_stack b m in ground (arith, ne, owned, ℕ_discrete b a))
        sound.chain

  -- The ghost state after node `a` has come to `o`.
  abbrev pub to : ℕ → Owner → Ghost
  to a o = record g { owner = update g.owner a o }

  pub starts :
      (v : ℕ) (s' : Shared) (t : Thread)
      → PushStarts s v s' t
      → (g' : Ghost) × Sound s' g' xs × At i s' g' t (pushing v) × Keeps invariant i s g s' g'
  starts v s' t (new, some_new, unused, e, at_t) =
      let nobody's = sound.unowned new unused in
      let x : Node = record { value = v; next = null } in
      let s1 : Shared = record s { heap = assign s.heap new (some x) } in
      let g1 = to new (fresh i) in
      let sound1 : Sound s1 g1 xs = record {
        contents = sound.contents;
        chain = Chain-assign new (some x) (λ q. cc);
        in_stack = λ a m. ground (arith, sound.in_stack a m, nobody's, ℕ_discrete a new);
        distinct = sound.distinct;
        unowned = λ a q. ground (arith, q, sound.unowned a, ℕ_discrete a new);
        in_queue = λ a m. ground (arith, sound.in_queue a m, nobody's, ℕ_discrete a new);
        once = sound.once;
        vacant = sound.vacant;
      } in
      let here : At i s1 g1 (push_load new) (pushing v) =
        (v, null, (some_new, ground arith, ground arith), refl) in
      let keeps =
        Keeps-own s g s1 g1 new (λ b ne. (ground arith, ground arith)) refl refl i
          (λ j ne. (λ q. cc, λ q. cc)) (λ q. absurd (subst Seen nobody's q)) (λ idx b q c. c) in
      rw (e, at_t) (g1, sound1, here, keeps)

  pub go_link :
      (new head v n : ℕ)
      → Holds s g new (fresh i) v n
      → GoesTo invariant i s g xs (pushing v) (advance s (push_link new head))
  unfolding advance
  go_link new head v n (some_new, owned, here) =
      let x : Node = record { value = v; next = head } in
      let s1 : Shared = record s { heap = assign s.heap new (some x) } in
      let e : done (s1, push_cas new head) ≡ advance s (push_link new head) =
        ground (arith, here) in
      subst (GoesTo invariant i s g xs (pushing v)) e (record {
        ghost = g;
        contents = xs;
        call = pushing v;
        takes = waits;
        sound = record {
          contents = sound.contents;
          chain = Chain-assign new (some x) (λ q. cc);
          in_stack = sound.in_stack;
          distinct = sound.distinct;
          unowned = λ a q. ground (arith, q, sound.unowned a, ℕ_discrete a new);
          in_queue = sound.in_queue;
          once = sound.once;
          vacant = sound.vacant;
        };
        here = (v, (some_new, owned, ground arith), refl);
        others =
            Keeps-own s g s1 g new (λ b ne. (ground arith, refl)) refl refl i
              (λ j ne. (λ q. ground (arith, ne), λ q. cc)) (λ q. absurd (subst Seen owned q))
              (λ idx b q c. c);
      })

  pub go_push :
      (new v : ℕ)
      → Holds s g new (fresh i) v s.head
      → Goes invariant i s g xs (pushing v) (record s { head = new }) push_done
  go_push new v (some_new, owned, here) =
      let g1 : Ghost = record g {
        owner = update g.owner new stacked;
        cells = (new, v) ∷ g.cells;
      } in
      record {
        ghost = g1;
        contents = v ∷ xs;
        call = pushed;
        takes = takes_push;
        sound = record {
          contents = ap (λ l. v ∷ l) sound.contents;
          chain = (refl, some_new, s.head, here, sound.chain);
          in_stack = λ a m. ground (arith, m, sound.in_stack a, ℕ_discrete a new);
          distinct = (λ m. let q = sound.in_stack new m in cc, sound.distinct);
          unowned = λ a q. ground (arith, q, sound.unowned a, ℕ_discrete a new);
          in_queue = λ a m. ground (arith, sound.in_queue a m, owned, ℕ_discrete a new);
          once = sound.once;
          vacant = sound.vacant;
        };
        here = refl;
        others =
            Keeps-own s g (record s { head = new }) g1 new (λ b ne. (refl, ground arith)) refl refl
              i (λ j ne. (λ q. ground (arith, ne), λ q. cc)) (λ q. absurd (subst Seen owned q))
              (λ idx b q c. c);
      }

  pub go_pop :
      (idx head next v : ℕ) (cells : List (ℕ × ℕ))
      → g.cells ≡ cells
      → s.head ≡ head
      → Guards s g i idx head v next
      → Goes invariant i s g xs popping (record s { head = next }) (pop_value idx head)
  go_pop idx head next v [] e at_head r =
      absurd (r.some_node (sym at_head ∙ subst (Chain s.heap s.head) e sound.chain))
  go_pop idx head next v ((a, w) ∷ cells) e at_head r =
      let (at_a, some_a, n, first, rest) = subst (Chain s.heap s.head) e sound.chain in
      let same_a : a ≡ head = sym at_a ∙ at_head in
      let here = r.here in
      let (same_v, same_n) =
        let q : (w ≡ v) × (n ≡ next) = ground (arith, first, here, same_a) in q in
      let (new_a, distinct) = subst (λ l. IsDistinct (addresses l)) e sound.distinct in
      let stacked_at = λ (b : ℕ) (q : (b ≡ a) ⊎ (b ∈ addresses cells)).
        sound.in_stack b (subst (λ l. b ∈ addresses l) (sym e) q) in
      let owned : g.owner head ≡ stacked =
        subst (λ b. g.owner b ≡ stacked) same_a (stacked_at a (inl refl)) in
      let now_taken : update g.owner head (taken i) head ≡ taken i = ground arith in
      let full : v ∷ values cells ≡ xs =
        ap (λ x. x ∷ values cells) (sym same_v) ∙ sym (sound.contents ∙ ap values e) in
      let g1 : Ghost = record g { owner = update g.owner head (taken i); cells = cells } in
      record {
        ghost = g1;
        contents = values cells;
        call = popped (some v);
        takes = subst (λ l. Takes l popping (values cells) (popped (some v))) full takes_pop;
        sound = record {
          contents = refl;
          chain = subst (λ k. Chain s.heap k cells) same_n rest;
          in_stack =
              λ b q. ground (arith, stacked_at b (inr q), same_a, new_a, q, ℕ_discrete b head);
          distinct = distinct;
          unowned = λ b q. ground (arith, q, here, sound.unowned b, ℕ_discrete b head);
          in_queue = λ b m. ground (arith, sound.in_queue b m, owned, ℕ_discrete b head);
          once = sound.once;
          vacant = sound.vacant;
        };
        here = (head, v, next, r.uses, (r.some_node, ground arith, here), refl);
        others =
            Keeps-own s g (record s { head = next }) g1 head (λ b ne. (refl, ground arith)) refl
              refl i (λ j ne. (λ q. cc, λ q. cc)) (λ q. (subst Seen (sym now_taken) tt, refl))
              (λ idx b q c. c);
      }
