-- ===== src/Treiber/Single/Moves.antt =====
-- The steps of src/treiber.rs on a node that the thread owns.
use samsara.Prelude.{ℕ, ◌≡◌, ◌≢◌, refl, Option, none, some, List, ◌∷◌, ℕ_discrete, arith, subst, ap}
use samsara.Memory.{null, Node, assign, done}
use samsara.Memory.Chain.{Chain, Chain-same}
use samsara.Lifo.{pushing, pushed, popped, waits, takes_push, update}
use samsara.Lifo.Simulation.{Keeps, Goes, GoesTo}
use samsara.Treiber.{
  Shared, Thread, push_load, push_link, push_cas, push_done, pop_free, pop_done, PushStarts,
  advance,
}
use samsara.Treiber.Single.Ownership.{
  Owner, nobody, fresh, stacked, taken, Ghost, Sound, Holds, At, invariant, Keeps-own,
}

module _ (may_pop : ℕ → Type 0) where
  module _ (i : ℕ) (s : Shared) (g : Ghost) (xs : List ℕ) (sound : Sound s g xs) where
    -- A node that is not in the stack is rewritten.
    Chain-assign :
        (a : ℕ) (x : Option Node) → g.owner a ≢ stacked → Chain (assign s.heap a x) s.head g.cells
    Chain-assign a x ne =
        Chain-same s.heap (assign s.heap a x) s.head g.cells
          (λ b m. let owned = sound.stacked b m in ground (arith, ne, owned, ℕ_discrete b a))
          sound.chain

    -- The ghost state after node `a` has come to `o`.
    abbrev to : ℕ → Owner → Ghost
    to a o = record g { owner = update g.owner a o }

    pub starts :
        (v : ℕ) (s' : Shared) (t : Thread)
        → PushStarts s v s' t
        → (g' : Ghost) × Sound s' g' xs
          × At may_pop i s' g' t (pushing v)
          × Keeps (invariant may_pop) i s g s' g'
    starts v s' t (new, some_new, unused, e, at_t) =
        let nobody's = sound.unowned new unused in
        let x : Node = record { value = v; next = null } in
        let s1 : Shared = record s { heap = assign s.heap new (some x) } in
        let g1 = to new (fresh i) in
        let sound1 : Sound s1 g1 xs = record {
          contents = sound.contents;
          chain = Chain-assign new (some x) (λ q. cc);
          stacked = λ a m. ground (arith, sound.stacked a m, nobody's, ℕ_discrete a new);
          distinct = sound.distinct;
          unowned = λ a q. ground (arith, q, sound.unowned a, ℕ_discrete a new);
        } in
        let here : At may_pop i s1 g1 (push_load new) (pushing v) =
          (v, null, (some_new, ground arith, ground arith), refl) in
        rw (e, at_t)
          (
            g1,
            sound1,
            here,
            Keeps-own may_pop s g s1 g1 new (λ b ne. (ground arith, ground arith)) i
                (λ j ne. (λ q. cc, λ q. cc, λ m q. cc)),
          )

    pub go_link :
        (new head v n : ℕ)
        → Holds s g new (fresh i) v n
        → GoesTo (invariant may_pop) i s g xs (pushing v) (advance s (push_link new head))
    unfolding advance
    go_link new head v n (some_new, owned, here) =
        let x : Node = record { value = v; next = head } in
        let s1 : Shared = record s { heap = assign s.heap new (some x) } in
        let e : done (s1, push_cas new head) ≡ advance s (push_link new head) =
          ground (arith, here) in
        subst (GoesTo (invariant may_pop) i s g xs (pushing v)) e (record {
          ghost = g;
          contents = xs;
          call = pushing v;
          takes = waits;
          sound = record {
            contents = sound.contents;
            chain = Chain-assign new (some x) (λ q. cc);
            stacked = sound.stacked;
            distinct = sound.distinct;
            unowned = λ a q. ground (arith, q, sound.unowned a, ℕ_discrete a new);
          };
          here = (v, (some_new, owned, ground arith), refl);
          others =
              Keeps-own may_pop s g s1 g new (λ b ne. (ground arith, refl)) i
                (λ j ne. (λ q. ground (arith, ne), λ q. cc, λ m q. cc));
        })

    pub go_push :
        (new v : ℕ)
        → Holds s g new (fresh i) v s.head
        → Goes (invariant may_pop) i s g xs (pushing v) (record s { head = new }) push_done
    go_push new v (some_new, owned, here) =
        let g1 : Ghost = record {
          owner = update g.owner new stacked;
          cells = (new, v) ∷ g.cells;
        } in
        record {
          ghost = g1;
          contents = v ∷ xs;
          call = pushed;
          takes = takes_push;
          sound = record {
            contents = ap (λ l. v ∷ l) sound.contents;
            chain = (refl, some_new, s.head, here, sound.chain);
            stacked = λ a m. ground (arith, m, sound.stacked a, ℕ_discrete a new);
            distinct = (λ m. let q = sound.stacked new m in cc, sound.distinct);
            unowned = λ a q. ground (arith, q, sound.unowned a, ℕ_discrete a new);
          };
          here = refl;
          others =
              Keeps-own may_pop s g (record s { head = new }) g1 new (λ b ne. (refl, ground arith))
                i (λ j ne. (λ q. ground (arith, ne), λ q. cc, λ m q. cc));
        }

    pub go_free :
        (head v n : ℕ)
        → Holds s g head (taken i) v n
        → GoesTo (invariant may_pop) i s g xs (popped (some v)) (advance s (pop_free head))
    unfolding advance
    go_free head v n (some_head, owned, here) =
        let s1 : Shared = record s { heap = assign s.heap head none } in
        let g1 = to head nobody in
        let e : done (s1, pop_done (some v)) ≡ advance s (pop_free head) = ground (arith, here) in
        subst (GoesTo (invariant may_pop) i s g xs (popped (some v))) e (record {
          ghost = g1;
          contents = xs;
          call = popped (some v);
          takes = waits;
          sound = record {
            contents = sound.contents;
            chain = Chain-assign head none (λ q. cc);
            stacked = λ a m. ground (arith, sound.stacked a m, owned, ℕ_discrete a head);
            distinct = sound.distinct;
            unowned = λ a q. ground (arith, q, sound.unowned a, ℕ_discrete a head);
          };
          here = refl;
          others =
              Keeps-own may_pop s g s1 g1 head (λ b ne. (ground arith, ground arith)) i
                (λ j ne. (λ q. cc, λ q. ground (arith, ne), λ m q. cc));
        })
