-- ===== src/RememberedSet/Delivery.antt =====
-- Records and drains of src/remembered_set.rs by any number of threads: each call holds the lock from
-- start to end, so the calls come in some order.
use samsara.Prelude.{ℕ, ◌≡◌, List, [], ◌∷◌, ◌++◌, sym, ap, ◌∙◌}
use mathlib.Core.List.{append-nil, append_assoc}
use samsara.RememberedSet.{RememberedSet, record_id, drain}

pub data Call : Type 0 where
  records : ℕ → Call
  drains : Call

-- The calls in order: the set after them, and all that the drains returned.
unfoldable pub run : RememberedSet → List Call → List ℕ × RememberedSet
run s [] = ([], s)
run s (records id ∷ calls) = run (record_id s id) calls
run s (drains ∷ calls) =
    let (ids, s') = drain s in let (later, last) = run s' calls in (ids ++ later, last)

abbrev pub recorded : List Call → List ℕ
recorded [] = []
recorded (records id ∷ calls) = id ∷ recorded calls
recorded (drains ∷ calls) = recorded calls

-- Every recorded id is delivered once, in the order of the records: what the drains returned, and then
-- what is still queued, is what was queued at the start and then all that was recorded.
pub run_delivers :
    (s : RememberedSet) (calls : List Call)
    → (run s calls).0 ++ (run s calls).1.inner ≡ s.inner ++ recorded calls
unfolding run record_id drain
run_delivers s [] = sym (append-nil s.inner)
run_delivers s (records id ∷ calls) =
    run_delivers (record_id s id) calls ∙ append_assoc s.inner (id ∷ []) (recorded calls)
run_delivers s (drains ∷ calls) =
    append_assoc s.inner (run (drain s).1 calls).0 (run (drain s).1 calls).1.inner
    ∙ ap (λ l. s.inner ++ l) (run_delivers (record { inner = [] }) calls)
