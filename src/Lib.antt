-- ===== src/Lib.antt =====
-- A model of samsara, a set of garbage-collection building blocks in Rust: two allocators, a tri-color
-- marker, write barriers that keep the snapshot at the beginning of marking (SATB), a concurrent marker,
-- a hazard-pointer registry, and two lock-free stacks.
--
-- The parts and their modules, one module for one source file:
--   Arena          src/arena.rs           `Arena`: bump allocation, write, read, reset
--   Region         src/region.rs          `RegionHeap`: alloc, write, read, pre_mark, mark_live, sweep
--   Marker         src/marker.rs          `ObjectGraph` and `mark`
--   Barrier        src/barrier.rs         `MarkStack`, `Phase`, `WriteBarrier`; from its tests
--                                         `MutableGraph` and `drain_marker`
--   Atomic         src/atomic.rs          `AtomicPhase`, `AtomicWriteBarrier`
--   RememberedSet  src/remembered_set.rs  `RememberedSet`
--   Concurrent     src/concurrent.rs      the thread of `concurrent_mark`, and the mutators beside it
--   Hazard         src/hazard.rs          `HazardRegistry` and the guard `HazardSlot`
--   Treiber        src/treiber.rs         `TreiberStack`
--   SafeTreiber    src/safe_treiber.rs    `SafeTreiberStack`, over the slots of Hazard
--   Memory         the heap of nodes of both stacks, and chains of nodes in it
--   Lifo           the atomic stack that specifies both, their threads, and the simulation between them
--   Snapshot       the invariant that the barriers of Barrier and Concurrent share
--   Prelude        shared names, lists, sets, machine integers, panics, byte ranges
-- The names are the source's; `record` and `contains` are `record_id` and `has`. Each part has its tests
-- and instances in a child `Examples`, `Witnesses`, `Schedule` or `Threads`; a test that spawns threads is
-- evaluated in one order of their steps, with fewer calls.
--
-- How they interact. The marker walks an `ObjectGraph` from its roots. A barrier reads the phase and, in
-- `Marking`, hands the reference that is about to be overwritten to the mark stack (Barrier) or to the
-- remembered set (Atomic). The concurrent marker moves the remembered set to the mark stack, scans from
-- there, and returns once the phase has left `Marking` and both are empty. A client of the region heap
-- marks each live object with `mark_live` between `pre_mark` and `sweep` (`collect` in
-- Region/Sweep/Cycle, the client's code). The `pop` of the safe stack publishes the head in a slot of the hazard registry
-- before it reads the node; popped nodes go to the retired queue, and `reclaim_locked` frees those that
-- are not in the registry's snapshot.
--
-- How the code is modelled:
-- - A method takes the state and returns its result with the state after it. A panic is the outcome
--   `panic`.
-- - `usize` has 64 bits, and a buffer is below 2^63 bytes, which Rust guarantees. Casts to `u32` and the
--   counter `live_count`, a `u32`, wrap as in a release build, and the wrap is written out. `align_up` is
--   the round-up of an offset to 8, with no overflow for such buffers.
-- - A `Vec` is a list, for `MarkStack` with its last item first; a `HashMap` is an association list; a
--   `HashSet` is a list of its items. No modelled code depends on a hash order.
-- - `mark` and `drain_marker` take fuel. Enough is, for `mark`, the number of objects of the graph; for
--   `drain_marker`, one more than the number of references of the objects that are not black and of the
--   items on the stack. With it their loops end.
-- - In Concurrent, threads interleave at each critical section, atomic access, call of `refs_of` and
--   reference write, under sequential consistency. The worker is a state machine over its program points;
--   its sleep is no step. A mutator is `pre_write` of src/atomic.rs, in two steps, and then the write of
--   the reference, which is the client's. A `Step` lets the phase leave `Marking` only while no mutator is in the middle of a
--   write, and a mutator begin one only while the phase is `Marking`: the termination protocol of the
--   module's header. `Unruly` in Concurrent/Exit is without that protocol, and `Alone` in Concurrent/Exact
--   without mutators.
-- - In Treiber and SafeTreiber, any number of threads interleave at each access of shared memory, under
--   sequential consistency. A thread is a program point with its live locals (`Thread`), `advance` is one
--   step of it, and Lifo/Machine adds the calls and returns. The heap gives each address a node or
--   nothing; an access of an address without a node is the outcome `undefined`, a panic is `panics`. The
--   allocator returns any non-null address that has no node, those of freed nodes included. In
--   SafeTreiber the accesses inside `HazardRegistry::acquire`, `snapshot` and the drop of a slot are steps
--   too; the retired queue is a list under its mutex, and a thread that finds the mutex locked waits. `At`
--   in SafeTreiber/Invariant says what each program point may rely on. `retire_threshold` and the 64 slots
--   are the source's. The `drop` of a stack, and the calls in Treiber/Alone and SafeTreiber/Alone, run
--   with no other thread, on fuel.
-- - In Hazard and Atomic each method is one call that no other thread interrupts. In RememberedSet that is
--   what the mutex does.
--
-- Not modelled: memory orderings; poisoned mutexes, since no code panics while it holds a lock; `Send`
-- and `Sync`; src/lib.rs, which only names the modules.
pub mod Arena
pub mod Atomic
pub mod Barrier
pub mod Concurrent
pub mod Hazard
pub mod Lifo
pub mod Marker
pub mod Memory
pub mod Prelude
pub mod Region
pub mod RememberedSet
pub mod SafeTreiber
pub mod Snapshot
pub mod Treiber
