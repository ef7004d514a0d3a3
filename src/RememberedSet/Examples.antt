-- ===== src/RememberedSet/Examples.antt =====
-- The unit tests of src/remembered_set.rs as evaluations, and its theorem at a concrete run.
use samsara.Prelude.{ℕ, zero, suc, ◌+◌, ◌*◌, ◌≡◌, refl, Bool, true, List, [], ◌∷◌, ◌++◌}
use samsara.RememberedSet.{empty_set, record_id, drain, len, is_empty}
use samsara.RememberedSet.Delivery.{Call, records, drains, run, recorded, run_delivers}

-- fn record_then_drain
record_then_drain : List ℕ × ℕ
unfolding record_id drain len
record_then_drain =
    let (drained, s) = drain (record_id (record_id (record_id empty_set 1) 2) 3) in (drained, len s)

records_drained : record_then_drain ≡ (1 ∷ 2 ∷ 3 ∷ [], 0)
unfolding record_then_drain
records_drained = refl

-- fn drain_returns_then_clears
drain_returns_then_clears : List ℕ × Bool × List ℕ
unfolding record_id drain is_empty
drain_returns_then_clears =
    let (first, s) = drain (record_id empty_set 42) in
    let (second, _) = drain (record_id s 99) in (first, is_empty s, second)

drains_clear : drain_returns_then_clears ≡ (42 ∷ [], true, 99 ∷ [])
unfolding drain_returns_then_clears
drains_clear = refl

-- Thread `t` records `n` ids from 1000 * t on.
records_of : ℕ → ℕ → List Call
records_of t zero = []
records_of t (suc n) = records_of t n ++ records (t * 1000 + n) ∷ []

-- The calls of two threads in turn.
turns : List Call → List Call → List Call
turns [] calls = calls
turns (a ∷ as_a) [] = a ∷ as_a
turns (a ∷ as_a) (b ∷ as_b) = a ∷ b ∷ turns as_a as_b

-- fn concurrent_records_all_arrive, with two threads of three calls, in one order of the calls.
concurrent_records_all_arrive : List ℕ
unfolding run records_of turns record_id drain
concurrent_records_all_arrive =
    (drain (run empty_set (turns (records_of 0 3) (records_of 1 3))).1).0

all_arrive : concurrent_records_all_arrive ≡ 0 ∷ 1000 ∷ 1 ∷ 1001 ∷ 2 ∷ 1002 ∷ []
unfolding concurrent_records_all_arrive
all_arrive = refl

-- Two threads that record, and a drain between, in one order of the calls.
interleaved : List Call
interleaved = records 0 ∷ records 1000 ∷ drains ∷ records 1001 ∷ records 1 ∷ []

run_delivers_example :
    (run empty_set interleaved).0 ++ (run empty_set interleaved).1.inner
    ≡ [] ++ recorded interleaved
run_delivers_example = run_delivers empty_set interleaved
