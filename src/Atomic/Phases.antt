-- ===== src/Atomic/Phases.antt =====
-- The phase as a state machine, and the barrier that reads it (src/atomic.rs).
use samsara.Prelude.{
  ℕ, ◌<◌, ◌≡◌, refl, ◌≢◌, ◌↔◌, true, List, [], ◌∷◌, ◌++◌, arith, Outcome, ok, panic, if◌then◌else◌,
  sym, ap, ◌∙◌, ◌>>=◌,
}
use mathlib.Core.List.{append-nil, append_assoc}
use samsara.Barrier.{Phase, idle, marking, sweeping, is_marking}
use samsara.RememberedSet.{record_id}
use samsara.Atomic.{AtomicPhase, AtomicWriteBarrier, encode, load, store, transition, pre_write}

-- A byte that stands for a phase.
abbrev pub IsPhase : AtomicPhase → Type 0
IsPhase a = a.byte < 3

-- What is stored is loaded.
pub load-store : (a : AtomicPhase) (p : Phase) → load (store a p) ≡ ok p
unfolding load store
load-store a idle = refl
load-store a marking = refl
load-store a sweeping = refl

encode-injective : (p q : Phase) → encode p ≡ encode q → p ≡ q
unfolding encode
encode-injective idle idle e = refl
encode-injective marking marking e = refl
encode-injective sweeping sweeping e = refl
encode-injective idle marking e = absurd (omega arith)
encode-injective idle sweeping e = absurd (omega arith)
encode-injective marking idle e = absurd (omega arith)
encode-injective marking sweeping e = absurd (omega arith)
encode-injective sweeping idle e = absurd (omega arith)
encode-injective sweeping marking e = absurd (omega arith)

-- A load panics exactly at a byte that stands for no phase.
pub load-panic_iff : (a : AtomicPhase) → (load a ≡ panic) ↔ ¬ IsPhase a
unfolding load
load-panic_iff a = ground arith

-- From a valid byte, `transition` succeeds exactly if the phase is `from`; then the phase is `to`, and
-- else nothing changes. The byte stays valid.
pub transition_lem :
    (a : AtomicPhase) (from to : Phase)
    → IsPhase a
    → (((transition a from to).0 ≡ true) ↔ (load a ≡ ok from))
      × (load a ≡ ok from → load (transition a from to).1 ≡ ok to)
      × (load a ≢ ok from → (transition a from to).1 ≡ a)
      × IsPhase (transition a from to).1
unfolding transition load
transition_lem a idle idle v = ground arith
transition_lem a _ _ v = ground arith

-- The calls of `pre_write` by any threads, in the order in which they come, while the phase stays.
pub pre_write_all : AtomicWriteBarrier → List ℕ → Outcome AtomicWriteBarrier
pre_write_all b [] = ok b
pre_write_all b (id ∷ ids) = pre_write b id >>= λ b'. pre_write_all b' ids

-- One call.
pre_write_once : AtomicWriteBarrier → Phase → ℕ → AtomicWriteBarrier
pre_write_once b p id =
    if is_marking p then record b { set = record { inner = b.set.inner ++ id ∷ [] } } else b

pre_write_step :
    (b : AtomicWriteBarrier) (p : Phase) (id : ℕ)
    → load b.phase ≡ ok p
    → pre_write b id ≡ ok (pre_write_once b p id)
unfolding pre_write pre_write_once record_id
pre_write_step b p id e = ground (arith, e)

once_lem :
    (b : AtomicWriteBarrier) (p : Phase) (id : ℕ)
    → ((pre_write_once b p id).phase ≡ b.phase)
      × ((pre_write_once b p id).set.inner
          ≡ (if is_marking p then b.set.inner ++ id ∷ [] else b.set.inner))
unfolding pre_write_once
once_lem b idle id = (refl, refl)
once_lem b marking id = (refl, refl)
once_lem b sweeping id = (refl, refl)

nothing_more : (p : Phase) (xs : List ℕ) → xs ≡ (if is_marking p then xs ++ [] else xs)
nothing_more idle xs = refl
nothing_more marking xs = sym (append-nil xs)
nothing_more sweeping xs = refl

one_more :
    (p : Phase) (xs : List ℕ) (id : ℕ) (ids : List ℕ) {ys : List ℕ}
    → ys ≡ (if is_marking p then xs ++ id ∷ [] else xs)
    → (if is_marking p then ys ++ ids else ys) ≡ (if is_marking p then xs ++ (id ∷ ids) else xs)
one_more idle xs id ids e = e
one_more marking xs id ids e = ap (λ l. l ++ ids) e ∙ append_assoc xs (id ∷ []) ids
one_more sweeping xs id ids e = e

-- While the phase is a valid one and stays, the calls of `pre_write` do not panic; if it is `Marking`,
-- every overwritten id arrives, in order, and in any other phase none does.
pub pre_write_all_lem :
    (b : AtomicWriteBarrier) (p : Phase) (ids : List ℕ)
    → load b.phase ≡ ok p
    → (b' : AtomicWriteBarrier) × (pre_write_all b ids ≡ ok b')
      × (b'.phase ≡ b.phase)
      × (b'.set.inner ≡ (if is_marking p then b.set.inner ++ ids else b.set.inner))
unfolding pre_write_all
pre_write_all_lem b p [] e = (b, refl, refl, nothing_more p b.set.inner)
pre_write_all_lem b p (id ∷ ids) e =
    let (same, set) = once_lem b p id in
    let (b', done, same', set') =
      pre_write_all_lem (pre_write_once b p id) p ids (ap load same ∙ e) in
    (
      b',
      ap (λ o. o >>= λ c. pre_write_all c ids) (pre_write_step b p id e) ∙ done,
      same' ∙ same,
      set' ∙ one_more p b.set.inner id ids set,
    )
