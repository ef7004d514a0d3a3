-- ===== src/Lifo/Simulation.antt =====
-- From the steps of one thread of a stack (src/treiber.rs, src/safe_treiber.rs) to those of many: what
-- has to be known of each step, and the atomic list that the threads then follow.
use samsara.Prelude.{ℕ, ◌≡◌, ◌≢◌, Option, List, [], ℕ_discrete, arith, subst, sym}
use samsara.Memory.{Effect, done, panics, undefined}
use samsara.Lifo.{
  Event, Call, idle, pushing, pushed, popping, popped, Takes, waits, Lifo, update, logged,
}
use samsara.Lifo.Machine.{Algorithm, World}
use samsara.Lifo.Machine
use samsara.Lifo

pub update_here : {A : Type 0} (f : ℕ → A) {i j : ℕ} (a : A) → j ≡ i → update f i a j ≡ a
update_here f a same = ground (arith, same)

pub update_elsewhere : {A : Type 0} (f : ℕ → A) {i j : ℕ} (a : A) → j ≢ i → update f i a j ≡ f j
update_elsewhere f a other = ground (arith, other)

-- The invariant of an algorithm. `Ghost` is what the proof keeps beside the shared state; the list is
-- the abstract contents, and a thread's program point stands for a state of its call.
pub record Invariant (A : Algorithm) : Type 1 where
  pub Ghost : Type 0
  pub Sound : A.Shared → Ghost → List ℕ → Type 0
  pub At : ℕ → A.Shared → Ghost → A.Thread → Call → Type 0

module _ {A : Algorithm} (I : Invariant A) where
  -- The change of the shared state by thread `i` disturbs no other thread.
  abbrev pub Keeps : ℕ → A.Shared → I.Ghost → A.Shared → I.Ghost → Type 0
  Keeps i s g s' g' = (j : ℕ) (t : A.Thread) (c : Call) → j ≢ i → I.At j s g t c → I.At j s' g' t c

  -- Thread `i` may go on to the state `s'` and the point `t'`, its call to `c'`.
  pub record Goes (i : ℕ) (s : A.Shared) (g : I.Ghost) (xs : List ℕ) (c : Call) (s' : A.Shared)
      (t' : A.Thread) : Type 0 where
    pub ghost : I.Ghost
    pub contents : List ℕ
    pub call : Call
    pub takes : Takes xs c contents call
    pub sound : I.Sound s' ghost contents
    pub here : I.At i s' ghost t' call
    pub others : Keeps i s g s' ghost

  -- What a step comes to: never undefined behaviour.
  abbrev pub GoesTo : ℕ → A.Shared → I.Ghost → List ℕ → Call → Effect (A.Shared × A.Thread) → Type 0
  GoesTo i s g xs c (done (s', t')) = Goes i s g xs c s' t'
  GoesTo i s g xs c panics = Unit
  GoesTo i s g xs c undefined = ⊥

  -- What has to be proved of the code.
  pub record Laws : Type 0 where
    pub begins : (g : I.Ghost) × I.Sound A.new g [] × ((i : ℕ) → I.At i A.new g A.resting idle)
    pub push_starts :
        (i v : ℕ) (s s' : A.Shared) (t : A.Thread) (g : I.Ghost) (xs : List ℕ)
        → A.PushStarts s v s' t
        → I.Sound s g xs
        → (g' : I.Ghost) × I.Sound s' g' xs × I.At i s' g' t (pushing v) × Keeps i s g s' g'
    pub pop_starts :
        (i : ℕ) (s : A.Shared) (t : A.Thread) (g : I.Ghost) → A.PopStarts i t → I.At i s g t popping
    pub other_starts :
        (i : ℕ) (s : A.Shared) (t : A.Thread) (g : I.Ghost) → A.OtherStarts t → I.At i s g t idle
    pub goes :
        (i : ℕ) (s : A.Shared) (g : I.Ghost) (xs : List ℕ) (t : A.Thread) (c : Call)
        → I.Sound s g xs
        → I.At i s g t c
        → GoesTo i s g xs c (A.advance s t)
    pub rests : (i : ℕ) (s : A.Shared) (g : I.Ghost) → I.At i s g A.resting idle
    pub is_idle :
        (i : ℕ) (s : A.Shared) (g : I.Ghost) (c : Call) → I.At i s g A.resting c → c ≡ idle
    pub is_pushed :
        (i : ℕ) (s : A.Shared) (g : I.Ghost) (c : Call) → I.At i s g A.push_returns c → c ≡ pushed
    pub is_popped :
        (i : ℕ) (s : A.Shared) (g : I.Ghost) (c : Call) (r : Option ℕ)
        → I.At i s g (A.pop_returns r) c
        → c ≡ popped r

  -- The world beside a state of the specification with the same history.
  pub record Linked (history : List Event) (w : World A) : Type 0 where
    pub ghost : I.Ghost
    pub lifo : Lifo
    pub reaches : Lifo.Reaches history lifo
    pub sound : I.Sound w.shared ghost lifo.contents
    pub all : (i : ℕ) → I.At i w.shared ghost (w.threads i) (lifo.calls i)

  module _ (laws : Laws) where
    -- Thread `i` is at a new point, the others at the points where they were.
    moved :
        (i : ℕ) (s s' : A.Shared) (g g' : I.Ghost) (threads : ℕ → A.Thread) (calls : ℕ → Call)
        (t : A.Thread) (c : Call)
        → ((j : ℕ) → I.At j s g (threads j) (calls j))
        → Keeps i s g s' g'
        → I.At i s' g' t c
        → (j : ℕ) → I.At j s' g' (update threads i t j) (update calls i c j)
    moved i s s' g g' threads calls t c all keeps here j = elim (ℕ_discrete j i) [
      | yes same ↦
          rw (update_here threads t same, update_here calls c same)
            (subst (λ k. I.At k s' g' t c) (sym same) here)
      | no other ↦
          rw (update_elsewhere threads t other, update_elsewhere calls c other)
            (keeps j (threads j) (calls j) other (all j))
    ]

    module _ {history : List Event} {w : World A} (l : Linked history w) (i : ℕ) where
      -- Where the call of thread `i` stands, if the thread is at point `t`.
      at : {t : A.Thread} → w.threads i ≡ t → I.At i w.shared l.ghost t (l.lifo.calls i)
      at e = subst (λ t. I.At i w.shared l.ghost t (l.lifo.calls i)) e (l.all i)

      -- A move of thread `i` that leaves the shared state.
      stays :
          {e : Option Event} (t : A.Thread) (c : Call)
          → Lifo.Step l.lifo e (record l.lifo { calls = update l.lifo.calls i c })
          → I.At i w.shared l.ghost t c
          → Linked (logged e history) (record w { threads = update w.threads i t })
      stays t c st here = record {
        ghost = l.ghost;
        lifo = record l.lifo { calls = update l.lifo.calls i c };
        reaches = Lifo.later l.reaches st;
        sound = l.sound;
        all =
            moved i w.shared w.shared l.ghost l.ghost w.threads l.lifo.calls t c l.all
              (λ j x d ne a. a) here;
      }

    Step-Linked :
        {history : List Event} {w w' : World A} {e : Option Event}
        → Machine.Step w e w'
        → Linked history w
        → Linked (logged e history) w'
    Step-Linked {history} {w} (Machine.calls_push i v {s} {t} rest starts) l =
        let (g', sound, here, keeps) =
          laws.push_starts i v w.shared s t l.ghost l.lifo.contents starts l.sound in
        let idle_i = laws.is_idle i w.shared l.ghost (l.lifo.calls i) (at l i rest) in
        record {
          ghost = g';
          lifo = _;
          reaches = Lifo.later l.reaches (Lifo.calls_push i v idle_i);
          sound = sound;
          all = moved i w.shared s l.ghost g' w.threads l.lifo.calls t (pushing v) l.all keeps here;
        }
    Step-Linked {history} {w} (Machine.calls_pop i {t} rest starts) l =
        let idle_i = laws.is_idle i w.shared l.ghost (l.lifo.calls i) (at l i rest) in
        stays l i t popping (Lifo.calls_pop i idle_i) (laws.pop_starts i w.shared t l.ghost starts)
    Step-Linked {history} {w} (Machine.calls_other i {t} rest starts) l =
        let idle_i = laws.is_idle i w.shared l.ghost (l.lifo.calls i) (at l i rest) in
        let xs = l.lifo.contents in
        stays l i t idle (Lifo.acts i (subst (λ c. Takes xs (l.lifo.calls i) xs c) idle_i waits))
          (laws.other_starts i w.shared t l.ghost starts)
    Step-Linked {history} {w} (Machine.advances i {s} {t} e) l =
        let m = subst (GoesTo i w.shared l.ghost l.lifo.contents (l.lifo.calls i)) e (
          laws.goes i w.shared l.ghost l.lifo.contents (w.threads i) (l.lifo.calls i) l.sound
            (l.all i)) in
        record {
          ghost = m.ghost;
          lifo = _;
          reaches = Lifo.later l.reaches (Lifo.acts i m.takes);
          sound = m.sound;
          all =
              moved i w.shared s l.ghost m.ghost w.threads l.lifo.calls t m.call l.all m.others
                m.here;
        }
    Step-Linked {history} {w} (Machine.returns_push i e) l =
        let over = laws.is_pushed i w.shared l.ghost (l.lifo.calls i) (at l i e) in
        stays l i A.resting idle (Lifo.returns_push i over) (laws.rests i w.shared l.ghost)
    Step-Linked {history} {w} (Machine.returns_pop i r e) l =
        let over = laws.is_popped i w.shared l.ghost (l.lifo.calls i) r (at l i e) in
        stays l i A.resting idle (Lifo.returns_pop i r over) (laws.rests i w.shared l.ghost)

    -- Every run of the threads is beside a run of the specification with the same history.
    pub Reaches-Linked :
        {history : List Event} {w : World A} → Machine.Reaches A history w → Linked history w
    Reaches-Linked Machine.begin =
        let (g, sound, all) = laws.begins in
        record { ghost = g; lifo = _; reaches = Lifo.begin; sound = sound; all = all }
    Reaches-Linked (Machine.later r st) = Step-Linked st (Reaches-Linked r)

    -- No thread ever comes to undefined behaviour.
    pub never_undefined :
        {history : List Event} {w : World A}
        → Machine.Reaches A history w
        → (i : ℕ) → A.advance w.shared (w.threads i) ≢ undefined
    never_undefined {w} r i e =
        let l = Reaches-Linked r in
        subst (GoesTo i w.shared l.ghost l.lifo.contents (l.lifo.calls i)) e (
          laws.goes i w.shared l.ghost l.lifo.contents (w.threads i) (l.lifo.calls i) l.sound
            (l.all i))
