-- ===== src/Concurrent.antt =====
-- Concurrent marking (src/concurrent.rs): the worker that `concurrent_mark` spawns, and the mutators
-- that it runs beside. Threads interleave at each access of shared state: a critical section under a
-- mutex, an atomic load or store, a call of `refs_of`, a write of one reference.
mod Examples
pub mod Exact
pub mod Exit
pub mod Invariant
pub mod Return
mod Schedule
use samsara.Prelude.{
  ℕ, ◌+◌, ◌≡◌, ◌≢◌, Option, none, some, Bool, true, false, List, [], ◌∷◌, ◌++◌, contains, get_elem?,
  set, if◌then◌else◌, ◌==◌, ℕ_discrete, Outcome, ok, panic, ◌>>=◌,
}
use samsara.Marker.{ObjectGraph}
use samsara.Snapshot.{update}
use samsara.Barrier.{Phase, idle, marking, sweeping, is_marking, MarkStack, push, pop, is_empty}
use samsara.RememberedSet.{RememberedSet, record_id, drain}
use samsara.Atomic.{AtomicPhase, load, store}

-- What the threads share. `refs` is what `refs_of` of the graph returns, as the mutators change it.
pub record Shared : Type 0 where
  pub stack : MarkStack
  pub remembered : RememberedSet
  pub phase : AtomicPhase
  pub refs : ℕ → List ℕ

-- Where the worker stands, with its set `black` and the locals that are live.
pub data Worker : Type 0 where
  draining : (black : List ℕ) → Worker  -- head of the loop
  refilling : (black drained : List ℕ) → Worker
  popping : (black : List ℕ) → Worker
  scanning : (black : List ℕ) (id : ℕ) → Worker  -- `match next`, at `Some(id)`
  pushing : (black children : List ℕ) → Worker  -- the `for` loop over the children
  deciding : (black : List ℕ) → Worker  -- before `phase.load()`
  finishing : (black : List ℕ) → Worker  -- before the final drain
  confirming : (black final_drain : List ℕ) → Worker
  finished : (black : List ℕ) → Worker

unfoldable pub push_all : MarkStack → List ℕ → MarkStack
unfolding push
push_all s [] = s
push_all s (id ∷ ids) = push_all (push s id) ids

-- One step of the worker.
unfoldable pub work : Shared → Worker → Outcome (Shared × Worker)
unfolding push_all push pop is_empty drain load
work s (draining black) =
    let (ids, remembered) = drain s.remembered in
    ok (record s { remembered = remembered }, refilling black ids)
work s (refilling black ids) = ok (record s { stack = push_all s.stack ids }, popping black)
work s (popping black) =
    let (next, stack) = pop s.stack in
    let s' = record s { stack = stack } in
    elim next [ none ↦ ok (s', deciding black) | some id ↦ ok (s', scanning black id) ]
work s (scanning black id) =
    if contains ℕ_discrete black id
    then ok (s, draining black)
    else ok (s, pushing (id ∷ black) (s.refs id))
work s (pushing black []) = ok (s, draining black)
work s (pushing black (child ∷ children)) = ok (
  if contains ℕ_discrete black child then s else record s { stack = push s.stack child },
  pushing black children,
)
work s (deciding black) =
    load s.phase >>= λ phase. ok (s, if is_marking phase then draining black else finishing black)
work s (finishing black) =
    let (ids, remembered) = drain s.remembered in
    ok (record s { remembered = remembered }, confirming black ids)
work s (confirming black []) = ok (s, if is_empty s.stack then finished black else draining black)
work s (confirming black (id ∷ ids)) =
    ok (record s { stack = push_all s.stack (id ∷ ids) }, draining black)
work s (finished black) = ok (s, finished black)

-- Where a mutator stands: it replaces the reference `old` in slot `slot` of object `src` by `new`.
pub data Mutator : Type 0 where
  resting : Mutator
  checking : (src slot old new : ℕ) → Mutator  -- at `self.phase.load()` of `pre_write(old)`
  recording : (src slot old new : ℕ) → Mutator  -- at `self.set.record(old)`
  storing : (src slot new : ℕ) → Mutator  -- `pre_write` has returned; the client writes the reference

-- One step of a mutator that is not at rest.
unfoldable pub mutate : Shared → Mutator → Outcome (Shared × Mutator)
unfolding load record_id
mutate s resting = ok (s, resting)
mutate s (checking src slot old new) = load s.phase >>= λ phase.
    ok (s, if is_marking phase then recording src slot old new else storing src slot new)
mutate s (recording src slot old new) =
    ok (record s { remembered = record_id s.remembered old }, storing src slot new)
mutate s (storing src slot new) =
    ok (record s { refs = update s.refs src (set (s.refs src) slot new) }, resting)

pub record World : Type 0 where
  pub shared : Shared
  pub worker : Worker
  pub mutators : ℕ → Mutator

abbrev pub update_mutator : (ℕ → Mutator) → ℕ → Mutator → ℕ → Mutator
update_mutator f i m j = if j == i then m else f j

-- A step of the system under the termination protocol of the module's header: the phase leaves
-- `Marking` only when no mutator is in the middle of a write, and none begins one after that.
pub data Step (w : World) : World → Type 0 where
  works :
      {s : Shared} {k : Worker}
      → work w.shared w.worker ≡ ok (s, k)
      → Step w (record w { shared = s; worker = k })
  begins :
      (i src slot old new : ℕ)
      → w.mutators i ≡ resting
      → load w.shared.phase ≡ ok marking
      → get_elem? (w.shared.refs src) slot ≡ some old
      → Step w (record w { mutators = update_mutator w.mutators i (checking src slot old new) })
  mutates :
      (i : ℕ) {s : Shared} {m : Mutator}
      → mutate w.shared (w.mutators i) ≡ ok (s, m)
      → Step w (record w { shared = s; mutators = update_mutator w.mutators i m })
  links :
      (src new : ℕ)
      → Step w (record w {
        shared = record w.shared {
          refs = update w.shared.refs src (w.shared.refs src ++ new ∷ []);
        };
      })
  flips :
      (p : Phase)
      → ((i : ℕ) → w.mutators i ≡ resting)
      → p ≢ marking
      → Step w (record w { shared = record w.shared { phase = store w.shared.phase p } })

-- Marking of the graph `g` begins: the roots are on the stack, the phase is `Marking`.
abbrev pub begin_marking : ObjectGraph ℕ → World
begin_marking g = record {
  shared = record {
    stack = record { objects = g.roots };
    remembered = record { inner = [] };
    phase = record { byte = 1 };
    refs = g.refs_of;
  };
  worker = draining [];
  mutators = λ _. resting;
}

pub data Reaches (g : ObjectGraph ℕ) : World → Type 0 where
  begin : Reaches g (begin_marking g)
  later : {w w' : World} → Reaches g w → Step w w' → Reaches g w'
