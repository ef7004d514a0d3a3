-- ===== src/Concurrent/Invariant/Steps.antt =====
-- The invariant under the steps of the system of src/concurrent.rs.
use samsara.Prelude.{
  Option, ◌<◌, ℕ, ◌≡◌, refl, ◌≢◌, inl, inr, ⊎_elim, some, List, [], ◌∷◌, ◌++◌, get_elem?, ok, arith,
  Bool-cases, subst, ◌==◌, ℕ_discrete, mem-append,
}
use samsara.Marker.{ObjectGraph}
use samsara.Barrier.{Phase, marking, idle, sweeping}
use samsara.Snapshot.{update}
use samsara.Atomic.{AtomicPhase, load, store}
use samsara.Snapshot.{Safe-mono, Safe-link, Safe-start}
use samsara.Concurrent.{
  refilling, popping, scanning, pushing, deciding, finishing, confirming, finished, Shared, Worker,
  draining, Mutator, resting, checking, World, work, mutate, update_mutator, Step, works, begins,
  mutates, links, flips, begin_marking, Reaches, begin, later,
}
use samsara.Concurrent.Invariant.{Mutates, Ends, Inv}
use samsara.Concurrent.Invariant.Moves.{Works, WorksTo, work-Works}
use samsara.Concurrent.Invariant.Returns.{EndsTo, work-Ends}
use samsara.Concurrent.Invariant.Mutators.{Mutates-mono, MutatesTo, Result, mutate-Result}

-- The others are where they were, the one that moved is at `m'`.
updated :
    (P : Mutator → Type 0) (f : ℕ → Mutator) (i : ℕ) (m' : Mutator)
    → ((j : ℕ) → P (f j))
    → P m'
    → (j : ℕ) → P (update_mutator f i m' j)
updated P f i m' all h j = elim (Bool-cases (j == i)) [
  | inl same ↦ rw same h
  | inr other ↦ rw other (all j)
]

begins_on : (w : World) → load w.shared.phase ≡ ok marking → w.shared.phase.byte ≡ 1
unfolding load
begins_on w e = ground arith

stored_off :
    (w : World) (p : Phase)
    → p ≢ marking
    → ((store w.shared.phase p).byte ≢ 1) × ((store w.shared.phase p).byte < 3)
unfolding store
stored_off w marking ne = absurd (ne refl)
stored_off w idle ne = omega arith
stored_off w sweeping ne = omega arith

Ends-flip :
    (s : Shared) (ph : AtomicPhase) (k : Worker)
    → ph.byte ≢ 1
    → Ends s k
    → Ends (record s { phase = ph }) k
Ends-flip s ph (finishing b) off h = off
Ends-flip s ph (confirming b ids) off h = (off, h.1)
Ends-flip s ph (finished b) off h = (off, h.1, h.2)
Ends-flip s ph (draining b) off h = tt
Ends-flip s ph (refilling b ids) off h = tt
Ends-flip s ph (popping b) off h = tt
Ends-flip s ph (scanning b id) off h = tt
Ends-flip s ph (pushing b cs) off h = tt
Ends-flip s ph (deciding b) off h = tt

-- While the phase is `Marking` the worker is not near its end.
Ends-on : (s s' : Shared) (k : Worker) → s.phase.byte ≡ 1 → Ends s k → Ends s' k
Ends-on s s' (finishing b) on h = absurd (h on)
Ends-on s s' (confirming b ids) on h = absurd (h.0 on)
Ends-on s s' (finished b) on h = absurd (h.0 on)
Ends-on s s' (draining b) on h = tt
Ends-on s s' (refilling b ids) on h = tt
Ends-on s s' (popping b) on h = tt
Ends-on s s' (scanning b id) on h = tt
Ends-on s s' (pushing b cs) on h = tt
Ends-on s s' (deciding b) on h = tt

Ends-refs :
    (s : Shared) (refs : ℕ → List ℕ) (k : Worker) → Ends s k → Ends (record s { refs = refs }) k
Ends-refs s refs (finishing b) h = h
Ends-refs s refs (confirming b ids) h = h
Ends-refs s refs (finished b) h = h
Ends-refs s refs (draining b) h = tt
Ends-refs s refs (refilling b ids) h = tt
Ends-refs s refs (popping b) h = tt
Ends-refs s refs (scanning b id) h = tt
Ends-refs s refs (pushing b cs) h = tt
Ends-refs s refs (deciding b) h = tt

one_item : {o : Option ℕ} {a b : ℕ} → o ≡ some a → o ≡ some b → a ≡ b
one_item p q = cc

mutate-resting :
    {s s' : Shared} {m : Mutator} → mutate s resting ≡ ok (s', m) → (s ≡ s') × (m ≡ resting)
unfolding mutate
mutate-resting e = (cc, cc)

module _ {g : ObjectGraph ℕ} {w : World} (inv : Inv g w) where
  active : (i : ℕ) → w.mutators i ≢ resting → w.shared.phase.byte ≡ 1
  active i ne = elim (ℕ_discrete w.shared.phase.byte 1) [
    | yes on ↦ on
    | no off ↦ absurd (ne (inv.calm off i))
  ]

  Inv-works :
      {s : Shared} {k : Worker}
      → work w.shared w.worker ≡ ok (s, k)
      → Inv g (record w { shared = s; worker = k })
  Inv-works {s} {k} e =
      let done : Works g w.shared w.worker s k =
        subst (WorksTo g w.shared w.worker) e (work-Works w.shared w.worker inv.safe) in
      record {
        safe = done.safe;
        mutators =
            λ i. Mutates-mono g w.shared s w.worker k done.keeps (w.mutators i) (inv.mutators i);
        calm = λ off. inv.calm (ground (arith, done.same_phase));
        ends = subst EndsTo e (work-Ends w.shared w.worker inv.ends);
        phase = ground (arith, done.same_phase, inv.phase);
      }

  Inv-mutates :
      (i : ℕ) {s : Shared} {m : Mutator}
      → mutate w.shared (w.mutators i) ≡ ok (s, m)
      → Inv g (record w { shared = s; mutators = update_mutator w.mutators i m })
  Inv-mutates i {s} {m} e =
      let done : MutatesTo g w.shared w.worker s m =
        subst (Result g w.shared w.worker) e
          (mutate-Result w.shared w.worker inv.safe (w.mutators i) (active i) (inv.mutators i)) in
      record {
        safe = done.safe;
        mutators =
            updated (Mutates g s w.worker) w.mutators i m
              (λ j.
                Mutates-mono g w.shared s w.worker w.worker done.keeps (w.mutators j)
                  (inv.mutators j))
              done.next;
        calm = λ off.
            let still = inv.calm (ground (arith, done.same_phase)) in
            let idle_step =
              mutate-resting (subst (λ q. mutate w.shared q ≡ ok (s, m)) (still i) e) in
            updated (λ q. q ≡ resting) w.mutators i m still idle_step.1;
        ends = elim (ℕ_discrete w.shared.phase.byte 1) [
          | yes on ↦ Ends-on w.shared s w.worker on inv.ends
          | no off ↦
              let idle_step =
                mutate-resting (subst (λ q. mutate w.shared q ≡ ok (s, m)) (inv.calm off i) e) in
              subst (λ t. Ends t w.worker) idle_step.0 inv.ends
        ];
        phase = ground (arith, done.same_phase, inv.phase);
      }

  Inv-begins :
      (i src slot old new : ℕ)
      → load w.shared.phase ≡ ok marking
      → get_elem? (w.shared.refs src) slot ≡ some old
      → Inv g (record w { mutators = update_mutator w.mutators i (checking src slot old new) })
  Inv-begins i src slot old new on here = record {
    safe = inv.safe;
    mutators =
        updated (Mutates g w.shared w.worker) w.mutators i (checking src slot old new) inv.mutators
          (λ v e.
            ⊎_elim (λ (white, now). inl (one_item now here)) inr (inv.safe.edges src slot v e));
    calm = λ off. absurd (off (begins_on w on));
    ends = inv.ends;
    phase = inv.phase;
  }

  Inv-links :
      (src new : ℕ)
      → Inv g (record w {
        shared = record w.shared {
          refs = update w.shared.refs src (w.shared.refs src ++ new ∷ []);
        };
      })
  Inv-links src new =
      let s' = record w.shared {
        refs = update w.shared.refs src (w.shared.refs src ++ new ∷ []);
      } in
      record {
        safe = Safe-link inv.safe src new;
        mutators = λ i.
            Mutates-mono g w.shared s' w.worker w.worker (λ v m. m) (w.mutators i) (inv.mutators i);
        calm = inv.calm;
        ends = Ends-refs w.shared s'.refs w.worker inv.ends;
        phase = inv.phase;
      }

  Inv-flips :
      (p : Phase)
      → ((i : ℕ) → w.mutators i ≡ resting)
      → p ≢ marking
      → Inv g (record w { shared = record w.shared { phase = store w.shared.phase p } })
  Inv-flips p quiet ne =
      let s' = record w.shared { phase = store w.shared.phase p } in
      record {
        safe = inv.safe;
        mutators = λ i.
            Mutates-mono g w.shared s' w.worker w.worker (λ v m. m) (w.mutators i) (inv.mutators i);
        calm = λ off. quiet;
        ends = Ends-flip w.shared (store w.shared.phase p) w.worker (stored_off w p ne).0 inv.ends;
        phase = (stored_off w p ne).1;
      }

-- Each step keeps the invariant.
pub Step-Inv : {g : ObjectGraph ℕ} {w w' : World} → Step w w' → Inv g w → Inv g w'
Step-Inv (works e) inv = Inv-works inv e
Step-Inv (begins i src slot old new quiet on here) inv = Inv-begins inv i src slot old new on here
Step-Inv (mutates i e) inv = Inv-mutates inv i e
Step-Inv (links src new) inv = Inv-links inv src new
Step-Inv (flips p quiet ne) inv = Inv-flips inv p quiet ne

Inv-begin : (g : ObjectGraph ℕ) → Inv g (begin_marking g)
Inv-begin g = record {
  safe = Safe-mono (Safe-start g) _ (λ v m. ground (arith, m, mem-append v g.roots []));
  mutators = λ i. tt;
  calm = λ off. absurd (off refl);
  ends = tt;
  phase = omega arith;
}

pub Reaches-Inv : {g : ObjectGraph ℕ} {w : World} → Reaches g w → Inv g w
Reaches-Inv {g} begin = Inv-begin g
Reaches-Inv (later r st) = Step-Inv st (Reaches-Inv r)
