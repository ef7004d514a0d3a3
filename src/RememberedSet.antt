-- ===== src/RememberedSet.antt =====
-- The remembered set (src/remembered_set.rs): the queue under its mutex. Each method is one critical
-- section, so it is one step; no code panics while it holds the lock, so the lock is never poisoned.
pub mod Delivery
mod Examples
use samsara.Prelude.{ℕ, Bool, List, [], ◌∷◌, ◌++◌, length, ◌==◌}

pub record RememberedSet : Type 0 where
  pub inner : List ℕ

abbrev pub empty_set : RememberedSet
empty_set = record { inner = [] }

unfoldable pub record_id : RememberedSet → ℕ → RememberedSet
record_id s id = record { inner = s.inner ++ id ∷ [] }

unfoldable pub drain : RememberedSet → List ℕ × RememberedSet
drain s = (s.inner, record { inner = [] })

unfoldable pub len : RememberedSet → ℕ
len s = length s.inner

unfoldable pub is_empty : RememberedSet → Bool
unfolding len
is_empty s = len s == 0
