-- ===== src/Concurrent/Exact.antt =====
-- Runs of the worker of src/concurrent.rs in which no mutator takes a step.
use samsara.Prelude.{
  ℕ, ◌≡◌, ◌≢◌, ◌↔◌, refl, List, [], ◌∷◌, ◌∈◌, contains, inl, inr, ⊎_elim, Bool-cases, List-cases,
  Outcome, ok, panic, ◌>>=◌, ℕ_discrete, arith, subst, sym, if◌then◌else◌,
}
use samsara.Marker.{ObjectGraph}
use samsara.Marker.Loop.{Reach, root, edge}
use samsara.Barrier.{Phase, marking, is_marking, is_empty, push, pop}
use samsara.RememberedSet.{drain}
use samsara.Atomic.{load, store}
use samsara.Concurrent.{
  Shared, Worker, draining, refilling, popping, scanning, pushing, deciding, finishing, confirming,
  finished, resting, World, work, push_all, begin_marking, Reaches, begin, later, flips, works,
}
use samsara.Concurrent.Invariant.{in_hand, black_of}
use samsara.Concurrent.Invariant.Moves.{mem-push_all}
use samsara.Concurrent.Exit.{snapshot_preserved}

-- Only the worker steps, till the phase leaves `Marking` and after that.
pub data Alone (g : ObjectGraph ℕ) : World → Type 0 where
  starts : Alone g (begin_marking g)
  steps :
      {w : World} {s : Shared} {k : Worker}
      → Alone g w
      → work w.shared w.worker ≡ ok (s, k)
      → Alone g (record w { shared = s; worker = k })
  stops :
      {w : World} (p : Phase)
      → Alone g w
      → p ≢ marking
      → Alone g (record w { shared = record w.shared { phase = store w.shared.phase p } })

Alone-resting : {g : ObjectGraph ℕ} {w : World} → Alone g w → (i : ℕ) → w.mutators i ≡ resting
Alone-resting starts i = refl
Alone-resting (steps a e) i = Alone-resting a i
Alone-resting (stops p a ne) i = Alone-resting a i

Alone-Reaches : {g : ObjectGraph ℕ} {w : World} → Alone g w → Reaches g w
Alone-Reaches starts = begin
Alone-Reaches (steps a e) = later (Alone-Reaches a) (works e)
Alone-Reaches (stops p a ne) = later (Alone-Reaches a) (flips p (Alone-resting a) ne)

module _ (g : ObjectGraph ℕ) where
  abbrev All : List ℕ → Type 0
  All ids = (v : ℕ) → v ∈ ids → Reach g v

  -- All that the worker holds is reachable.
  record Within (s : Shared) (k : Worker) : Type 0 where
    graph : s.refs ≡ g.refs_of
    stack : All s.stack.objects
    remembered : All s.remembered.inner
    hand : All (in_hand k)
    black : All (black_of k)

  abbrev Goes : Outcome (Shared × Worker) → Type 0
  Goes (ok (s, k)) = Within s k
  Goes panic = Unit

  -- The worker goes on with what it has and the shared state.
  turns :
      (s : Shared) (k k' : Worker) → All (in_hand k') → All (black_of k') → Within s k → Within s k'
  turns s k k' hand black w = record {
    graph = w.graph;
    stack = w.stack;
    remembered = w.remembered;
    hand = hand;
    black = black;
  }

  nothing : All []
  nothing v m = absurd m

  drains :
      (s : Shared) (k k' : Worker)
      → in_hand k' ≡ s.remembered.inner
      → black_of k' ≡ black_of k
      → Within s k
      → Within (record s { remembered = record { inner = [] } }) k'
  drains s k k' taken same w = record {
    graph = w.graph;
    stack = w.stack;
    remembered = nothing;
    hand = subst All (sym taken) w.remembered;
    black = subst All (sym same) w.black;
  }

  refills :
      (s : Shared) (ids : List ℕ) (k k' : Worker)
      → All ids
      → in_hand k' ≡ []
      → black_of k' ≡ black_of k
      → Within s k
      → Within (record s { stack = push_all s.stack ids }) k'
  refills s ids k k' new empty same w = record {
    graph = w.graph;
    stack = λ v m. ⊎_elim (w.stack v) (new v) ((mem-push_all s.stack ids v).0 m);
    remembered = w.remembered;
    hand = subst All (sym empty) nothing;
    black = subst All (sym same) w.black;
  }

  Goes-pop : (s : Shared) (b : List ℕ) → Within s (popping b) → Goes (work s (popping b))
  unfolding work pop
  Goes-pop s b w = elim (List-cases s.stack.objects) [
    | inl e ↦
        let on : ok (record s { stack = record { objects = [] } }, deciding b)
            ≡ work s (popping b) =
          ground (arith, e) in
        subst Goes on (record {
          graph = w.graph;
          stack = nothing;
          remembered = w.remembered;
          hand = nothing;
          black = w.black;
        })
    | inr (id, rest, e) ↦
        let on : ok (record s { stack = record { objects = rest } }, scanning b id)
            ≡ work s (popping b) =
          ground (arith, e) in
        let held = λ (v : ℕ) (m : v ∈ (id ∷ rest)). w.stack v (subst (λ l. v ∈ l) (sym e) m) in
        subst Goes on (record {
          graph = w.graph;
          stack = λ v m. held v (inr m);
          remembered = w.remembered;
          hand = λ v m. held v (⊎_elim inl (λ no. absurd no) m);
          black = w.black;
        })
  ]

  Goes-scan :
      (s : Shared) (b : List ℕ) (id : ℕ) → Within s (scanning b id) → Goes (work s (scanning b id))
  unfolding work
  Goes-scan s b id w = elim (Bool-cases (contains ℕ_discrete b id)) [
    | inl old ↦ rw old (turns s (scanning b id) (draining b) nothing w.black w)
    | inr new ↦
        let at_id : Reach g id = w.hand id (inl refl) in
        let children =
          λ (v : ℕ) (m : v ∈ s.refs id). edge at_id (subst (λ r. v ∈ r id) w.graph m) in
        rw new (
          turns s (scanning b id) (pushing (id ∷ b) (s.refs id)) children
            (λ v m. ⊎_elim (λ e. subst (Reach g) (sym e) at_id) (w.black v) m) w)
  ]

  goes : (s : Shared) (k : Worker) → Within s k → Goes (work s k)
  unfolding work push drain push_all load
  goes s (draining b) w = drains s (draining b) (refilling b s.remembered.inner) refl refl w
  goes s (refilling b ids) w = refills s ids (refilling b ids) (popping b) w.hand refl refl w
  goes s (popping b) w = Goes-pop s b w
  goes s (scanning b id) w = Goes-scan s b id w
  goes s (pushing b []) w = turns s (pushing b []) (draining b) nothing w.black w
  goes s (pushing b (c ∷ cs)) w =
      let w' = turns s (pushing b (c ∷ cs)) (pushing b cs) (λ v m. w.hand v (inr m)) w.black w in
      elim (Bool-cases (contains ℕ_discrete b c)) [
        | inl old ↦ rw old w'
        | inr new ↦ rw new (record {
          graph = w.graph;
          stack = λ v m. ⊎_elim (λ e. w.hand v (inl e)) (w.stack v) m;
          remembered = w.remembered;
          hand = w'.hand;
          black = w.black;
        })
      ]
  goes s (deciding b) w = goes_on (load s.phase)
    where
      goes_on :
          (o : Outcome Phase)
          → Goes (o >>= λ phase. ok (s, if is_marking phase then draining b else finishing b))
      goes_on (ok phase) = elim (Bool-cases (is_marking phase)) [
        | inl on ↦ rw on (turns s (deciding b) (draining b) nothing w.black w)
        | inr off ↦ rw off (turns s (deciding b) (finishing b) nothing w.black w)
      ]
      goes_on panic = tt
  goes s (finishing b) w = drains s (finishing b) (confirming b s.remembered.inner) refl refl w
  goes s (confirming b []) w = elim (Bool-cases (is_empty s.stack)) [
    | inl empty ↦ rw empty (turns s (confirming b []) (finished b) nothing w.black w)
    | inr more ↦ rw more (turns s (confirming b []) (draining b) nothing w.black w)
  ]
  goes s (confirming b (id ∷ ids)) w =
      refills s (id ∷ ids) (confirming b (id ∷ ids)) (draining b) w.hand refl refl w
  goes s (finished b) w = w

  Alone-Within : {w : World} → Alone g w → Within w.shared w.worker
  Alone-Within starts = record {
    graph = refl;
    stack = λ v m. root m;
    remembered = nothing;
    hand = nothing;
    black = nothing;
  }
  Alone-Within (steps {w} a e) = subst Goes e (goes w.shared w.worker (Alone-Within a))
  Alone-Within (stops p a ne) =
      let w = Alone-Within a in
      record {
        graph = w.graph;
        stack = w.stack;
        remembered = w.remembered;
        hand = w.hand;
        black = w.black;
      }

-- If the worker alone takes steps from the beginning of marking on, apart from the stores by which the
-- phase leaves `Marking`, so that no mutator calls `pre_write`, overwrites a reference or adds one, the
-- set that the worker returns has exactly the objects that are reachable from the roots.
pub alone_exact :
    {g : ObjectGraph ℕ} {w : World} {black : List ℕ}
    → Alone g w
    → w.worker ≡ finished black
    → (v : ℕ) → (v ∈ black) ↔ Reach g v
alone_exact {g} {w} {black} a e v = (
  λ m. (Alone-Within g a).black v (subst (λ k. v ∈ black_of k) (sym e) m),
  snapshot_preserved (Alone-Reaches a) e v,
)
