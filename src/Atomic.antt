-- ===== src/Atomic.antt =====
-- The atomic phase and the thread-safe barrier (src/atomic.rs). An atomic access is one step. The
-- barrier makes two, the load of the phase and the record, and the `Concurrent` modules interleave
-- them; here `pre_write` is a call that no other thread interrupts.
mod Examples
pub mod Phases
use samsara.Prelude.{ℕ, Bool, true, false, if◌then◌else◌, ◌==◌, Outcome, ok, panic, ◌>>=◌}
use samsara.Barrier.{Phase, idle, marking, sweeping, is_marking}
use samsara.RememberedSet.{RememberedSet, record_id}

abbrev pub phase_idle : ℕ
phase_idle = 0

abbrev pub phase_marking : ℕ
phase_marking = 1

abbrev pub phase_sweeping : ℕ
phase_sweeping = 2

unfoldable pub encode : Phase → ℕ
encode idle = phase_idle
encode marking = phase_marking
encode sweeping = phase_sweeping

-- Any other byte is `unreachable!`, a panic.
unfoldable pub decode : ℕ → Outcome Phase
decode v =
    if v == phase_idle
    then ok idle
    else if v == phase_marking
    then ok marking
    else if v == phase_sweeping
    then ok sweeping
    else panic

pub record AtomicPhase : Type 0 where
  pub byte : ℕ

abbrev pub new_phase : AtomicPhase
new_phase = record { byte = phase_idle }

unfoldable pub load : AtomicPhase → Outcome Phase
unfolding decode
load p = decode p.byte

unfoldable pub store : AtomicPhase → Phase → AtomicPhase
unfolding encode
store p phase = record { byte = encode phase }

-- `compare_exchange(encode(from), encode(to)).is_ok()`
unfoldable pub transition : AtomicPhase → Phase → Phase → Bool × AtomicPhase
unfolding encode
transition p from to =
    if p.byte == encode from then (true, record { byte = encode to }) else (false, p)

pub record AtomicWriteBarrier : Type 0 where
  pub phase : AtomicPhase
  pub set : RememberedSet

unfoldable pub pre_write : AtomicWriteBarrier → ℕ → Outcome AtomicWriteBarrier
unfolding load record_id
pre_write b overwritten = load b.phase >>= λ p.
    ok (if is_marking p then record b { set = record_id b.set overwritten } else b)
