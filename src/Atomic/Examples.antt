-- ===== src/Atomic/Examples.antt =====
-- The unit tests of src/atomic.rs as evaluations, and its theorems at concrete states.
use samsara.Prelude.{
  ℕ, ◌≡◌, ◌≢◌, ◌↔◌, refl, Bool, true, false, List, [], ◌∷◌, ◌++◌, arith, Outcome, ok, panic, ◌>>=◌,
  if◌then◌else◌,
}
use samsara.Barrier.{Phase, idle, marking, sweeping, is_marking}
use samsara.RememberedSet.{empty_set, record_id, len}
use samsara.Atomic.{
  AtomicPhase, new_phase, AtomicWriteBarrier, encode, decode, load, store, transition, pre_write,
}
use samsara.Atomic.Phases.{
  IsPhase, load-store, load-panic_iff, transition_lem, pre_write_all, pre_write_all_lem,
}

-- fn load_store_roundtrip
load_store_roundtrip : List (Outcome Phase)
unfolding load store
load_store_roundtrip =
    let p = store new_phase marking in
    let q = store p sweeping in load new_phase ∷ load p ∷ load q ∷ []

round_trips : load_store_roundtrip ≡ ok idle ∷ ok marking ∷ ok sweeping ∷ []
unfolding load_store_roundtrip
round_trips = refl

-- fn transition_succeeds_only_on_matching_from
transition_succeeds_only_on_matching_from : List (Bool × Outcome Phase)
unfolding load transition
transition_succeeds_only_on_matching_from =
    let (t0, p0) = transition new_phase idle marking in
    let (t1, p1) = transition p0 idle sweeping in
    let (t2, p2) = transition p1 marking sweeping in
    let (t3, p3) = transition p2 sweeping idle in
    (t0, load p0) ∷ (t1, load p1) ∷ (t2, load p2) ∷ (t3, load p3) ∷ []

transitions :
    transition_succeeds_only_on_matching_from
    ≡ (true, ok marking) ∷ (false, ok marking) ∷ (true, ok sweeping) ∷ (true, ok idle) ∷ []
unfolding transition_succeeds_only_on_matching_from
transitions = refl

barrier_in : Phase → AtomicWriteBarrier
unfolding store
barrier_in p = record { phase = store new_phase p; set = empty_set }

-- fn idle_barrier_is_no_op_under_atomics
idle_barrier_is_no_op_under_atomics : Outcome ℕ
unfolding pre_write load len
idle_barrier_is_no_op_under_atomics =
    pre_write (record { phase = new_phase; set = empty_set }) 42 >>= λ b. ok (len b.set)

idle_records_nothing : idle_barrier_is_no_op_under_atomics ≡ ok 0
unfolding idle_barrier_is_no_op_under_atomics
idle_records_nothing = refl

-- fn marking_barrier_records_atomically
marking_barrier_records_atomically : Outcome ℕ
unfolding pre_write barrier_in load store len
marking_barrier_records_atomically =
    pre_write (barrier_in marking) 7 >>= λ a. pre_write a 11 >>= λ b. ok (len b.set)

marking_records : marking_barrier_records_atomically ≡ ok 2
unfolding marking_barrier_records_atomically
marking_records = refl

-- Calls of `pre_write` one after the other.
pre_writes : AtomicWriteBarrier → List ℕ → Outcome AtomicWriteBarrier
unfolding pre_write load decode
pre_writes b [] = ok b
pre_writes b (id ∷ ids) = pre_write b id >>= λ b'. pre_writes b' ids

-- fn many_writers_one_collector, with three threads of two calls, in one order of the calls.
many_writers_one_collector : Outcome ℕ
unfolding barrier_in pre_writes pre_write record_id len store encode load decode
many_writers_one_collector =
    pre_writes (barrier_in marking) (1000 ∷ 0 ∷ 2000 ∷ 2001 ∷ 1 ∷ 1001 ∷ []) >>= λ b. ok (len b.set)

all_collected : many_writers_one_collector ≡ ok 6
unfolding many_writers_one_collector
all_collected = refl

-- fn writers_under_idle_phase_record_nothing, with two threads of two calls.
writers_under_idle_phase_record_nothing : Outcome ℕ
unfolding pre_writes pre_write record_id len load decode
writers_under_idle_phase_record_nothing =
    pre_writes (record { phase = new_phase; set = empty_set }) (0 ∷ 0 ∷ 1 ∷ 1 ∷ []) >>= λ b.
    ok (len b.set)

none_collected : writers_under_idle_phase_record_nothing ≡ ok 0
unfolding writers_under_idle_phase_record_nothing
none_collected = refl

load-store_example : load (store new_phase sweeping) ≡ ok sweeping
load-store_example = load-store new_phase sweeping

abbrev bad_byte : AtomicPhase
bad_byte = record { byte = 7 }

load-panic_iff_example : (load bad_byte ≡ panic) ↔ ¬ IsPhase bad_byte
load-panic_iff_example = load-panic_iff bad_byte

new_phase-IsPhase : IsPhase new_phase
new_phase-IsPhase = omega arith

transition_lem_example :
    (((transition new_phase idle marking).0 ≡ true) ↔ (load new_phase ≡ ok idle))
    × (load new_phase ≡ ok idle → load (transition new_phase idle marking).1 ≡ ok marking)
    × (load new_phase ≢ ok idle → (transition new_phase idle marking).1 ≡ new_phase)
    × IsPhase (transition new_phase idle marking).1
transition_lem_example = transition_lem new_phase idle marking new_phase-IsPhase

while_marking : load (barrier_in marking).phase ≡ ok marking
unfolding barrier_in load store
while_marking = refl

pre_write_all_lem_example :
    (b' : AtomicWriteBarrier) × (pre_write_all (barrier_in marking) (5 ∷ 6 ∷ []) ≡ ok b')
    × (b'.phase ≡ (barrier_in marking).phase)
    × (b'.set.inner ≡ (
        if is_marking marking
        then (barrier_in marking).set.inner ++ 5 ∷ 6 ∷ []
        else (barrier_in marking).set.inner))
pre_write_all_lem_example =
    pre_write_all_lem (barrier_in marking) marking (5 ∷ 6 ∷ []) while_marking
