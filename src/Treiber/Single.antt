-- ===== src/Treiber/Single.antt =====
-- The stack of src/treiber.rs with one thread that pops and any number that push.
mod Ownership
mod Moves
use samsara.Prelude.{
  ℕ, ◌≡◌, ◌≢◌, refl, Option, none, some, List, [], ◌∷◌, ◌∈◌, IsDistinct, inl, inr, Bool-cases,
  List-cases, ◌==◌, ℕ_discrete, arith, subst, sym, ap, ◌∙◌,
}
use samsara.Memory.{null, Node, assign, done, undefined}
use samsara.Memory.Chain.{Chain, addresses, values, Chain-same}
use samsara.Lifo.{
  Lifo, Event, Call, idle, pushing, pushed, popping, popped, Takes, waits, takes_push, takes_pop,
  finds_empty, update,
}
use samsara.Lifo.Simulation.{Invariant, Keeps, Goes, GoesTo, Laws, Reaches-Linked, never_undefined}
use samsara.Lifo.Machine.{World}
use samsara.Lifo.Machine
use samsara.Lifo
use samsara.Treiber.{
  Shared, Thread, resting, push_load, push_link, push_cas, push_done, pop_load, pop_next, pop_cas,
  pop_free, pop_done, PushStarts, advance, treiber,
}
use samsara.Treiber.Single.Ownership.{
  Owner, nobody, fresh, stacked, taken, Ghost, Sound, Holds, At, invariant, Keeps-own, Keeps-same,
}
use samsara.Treiber.Single.Moves.{starts, go_link, go_push, go_free}

module _ (may_pop : ℕ → Type 0) where
  module _ (i : ℕ) (s : Shared) (g : Ghost) (xs : List ℕ) (sound : Sound s g xs) where
    module _ (one : (i j : ℕ) → may_pop i → may_pop j → i ≡ j) where
      take_head :
          (cells : List (ℕ × ℕ)) (head next v : ℕ)
          → g.cells ≡ cells
          → may_pop i
          → s.head ≡ head
          → Holds s g head stacked v next
          → Goes (invariant may_pop) i s g xs popping (record s { head = next }) (pop_free head)
      take_head [] head next v e m at_head (some_head, owned, here) =
          absurd (some_head (sym at_head ∙ subst (Chain s.heap s.head) e sound.chain))
      take_head ((a, w) ∷ cells) head next v e m at_head (some_head, owned, here) =
          let (at_a, some_a, n, first, rest) = subst (Chain s.heap s.head) e sound.chain in
          let same_a : a ≡ head = sym at_a ∙ at_head in
          let (same_v, same_n) =
            let q : (w ≡ v) × (n ≡ next) = ground (arith, first, here, same_a) in q in
          let (new_a, distinct) = subst (λ l. IsDistinct (addresses l)) e sound.distinct in
          let all_stacked = λ (b : ℕ) (q : b ∈ addresses cells).
            sound.stacked b (subst (λ l. b ∈ addresses l) (sym e) (inr q)) in
          let full : v ∷ values cells ≡ xs =
            ap (λ x. x ∷ values cells) (sym same_v) ∙ sym (sound.contents ∙ ap values e) in
          let g1 : Ghost = record { owner = update g.owner head (taken i); cells = cells } in
          record {
            ghost = g1;
            contents = values cells;
            call = popped (some v);
            takes = subst (λ l. Takes l popping (values cells) (popped (some v))) full takes_pop;
            sound = record {
              contents = refl;
              chain = subst (λ k. Chain s.heap k cells) same_n rest;
              stacked = λ b q. ground (arith, all_stacked b q, same_a, new_a, q, ℕ_discrete b head);
              distinct = distinct;
              unowned = λ b q. ground (arith, q, here, sound.unowned b, ℕ_discrete b head);
            };
            here = (v, next, (some_head, ground arith, here), refl);
            others =
                Keeps-own may_pop s g (record s { head = next }) g1 head
                  (λ b ne. (refl, ground arith)) i
                  (λ j ne. (λ q. cc, λ q. cc, λ mj q. ne (one j i mj m)));
          }

      -- A step that changes nothing shared.
      passes :
          (c : Call) (t : Thread) → At may_pop i s g t c → Goes (invariant may_pop) i s g xs c s t
      passes c t here = record {
        ghost = g;
        contents = xs;
        call = c;
        takes = waits;
        sound = sound;
        here = here;
        others = Keeps-same may_pop i s g;
      }

      go_pop_load : may_pop i → GoesTo (invariant may_pop) i s g xs popping (advance s pop_load)
      unfolding advance
      go_pop_load m = elim (List-cases g.cells) [
        | inl e ↦
            let empty : s.head ≡ null = subst (Chain s.heap s.head) e sound.chain in
            let none_left : [] ≡ xs = sym (sound.contents ∙ ap values e) in
            let at_end : done (s, pop_done none) ≡ advance s pop_load = ground (arith, empty) in
            subst (GoesTo (invariant may_pop) i s g xs popping) at_end (record {
              ghost = g;
              contents = [];
              call = popped none;
              takes = subst (λ l. Takes l popping [] (popped none)) none_left finds_empty;
              sound = subst (Sound s g) (sym none_left) sound;
              here = refl;
              others = Keeps-same may_pop i s g;
            })
        | inr ((a, w), cells, e) ↦
            let (at_a, some_a, n, first, _) = subst (Chain s.heap s.head) e sound.chain in
            let owned : g.owner a ≡ stacked =
              sound.stacked a (subst (λ l. a ∈ addresses l) (sym e) (inl refl)) in
            let on : done (s, pop_next a) ≡ advance s pop_load = ground (arith, at_a, some_a) in
            subst (GoesTo (invariant may_pop) i s g xs popping) on
              (passes popping (pop_next a) (m, refl, w, n, (some_a, owned, first)))
      ]

      goes :
          (t : Thread) (c : Call)
          → At may_pop i s g t c
          → GoesTo (invariant may_pop) i s g xs c (advance s t)
      unfolding advance
      goes resting c a = passes c resting a
      goes (push_load new) c a = passes c (push_link new s.head) a
      goes (push_link new head) c (v, n, h, e) =
          rw e (go_link may_pop i s g xs sound new head v n h)
      goes (push_cas new head) c (v, h, e) = elim (Bool-cases (s.head == head)) [
        | inl won ↦
            let at_head : head ≡ s.head = ground (arith, won) in
            rw (won, e)
              (go_push may_pop i s g xs sound new v
                (subst (λ n. Holds s g new (fresh i) v n) at_head h))
        | inr lost ↦ rw lost (passes c (push_load new) (v, head, h, e))
      ]
      goes push_done c a = passes c push_done a
      goes pop_load c (m, e) = rw e (go_pop_load m)
      goes (pop_next head) c (m, e, v, n, h) =
          let on : done (s, pop_cas head n) ≡ advance s (pop_next head) = ground (arith, h.2) in
          subst (GoesTo (invariant may_pop) i s g xs c) on (passes c (pop_cas head n) (m, e, v, h))
      goes (pop_cas head next) c (m, e, v, h) = elim (Bool-cases (s.head == head)) [
        | inl won ↦ rw (won, e) (take_head g.cells head next v refl m (ground arith) h)
        | inr lost ↦ rw lost (passes c pop_load (m, e))
      ]
      goes (pop_free head) c (v, n, h, e) = rw e (go_free may_pop i s g xs sound head v n h)
      goes (pop_done r) c a = passes c (pop_done r) a

  module _ (one : (i j : ℕ) → may_pop i → may_pop j → i ≡ j) where
    pub laws : Laws (invariant may_pop)
    laws = record {
      begins = (
        record { owner = λ _. nobody; cells = [] },
        record {
          contents = refl;
          chain = refl;
          stacked = λ a m. absurd m;
          distinct = tt;
          unowned = λ a e. refl;
        },
        λ i. refl,
      );
      push_starts = λ i v s s' t g xs st sound. starts may_pop i s g xs sound v s' t st;
      pop_starts = λ i s t g (m, e). subst (λ t. At may_pop i s g t popping) (sym e) (m, refl);
      other_starts = λ i s t g st. absurd st;
      goes = λ i s g xs t c sound a. goes i s g xs sound one t c a;
      rests = λ i s g. refl;
      is_idle = λ i s g c a. a;
      is_pushed = λ i s g c a. a;
      is_popped = λ i s g c r a. a;
    }

    -- If at most one thread pops, and any number push: every history of calls and returns is one of
    -- the atomic list, whatever addresses the allocator returns.
    pub one_popper_linearizable :
        {history : List Event} {w : World (treiber may_pop)}
        → Machine.Reaches (treiber may_pop) history w
        → (l : Lifo) × Lifo.Reaches history l
          × ((cells : List (ℕ × ℕ)) × Chain w.shared.heap w.shared.head cells
              × (l.contents ≡ values cells))
    one_popper_linearizable r =
        let l = Reaches-Linked (invariant may_pop) laws r in
        (l.lifo, l.reaches, (l.ghost.cells, l.sound.chain, l.sound.contents))

    -- If at most one thread pops, no thread reads, writes or frees a node that is not live.
    pub one_popper_defined :
        {history : List Event} {w : World (treiber may_pop)}
        → Machine.Reaches (treiber may_pop) history w
        → (i : ℕ) → advance w.shared (w.threads i) ≢ undefined
    one_popper_defined = never_undefined (invariant may_pop) laws
