-- ===== src/Concurrent/Invariant.antt =====
-- The invariant of the worker and the mutators of src/concurrent.rs.
pub mod Moves
pub mod Mutators
pub mod Returns
pub mod Steps
use samsara.Prelude.{ℕ, ◌≡◌, ◌≢◌, ◌⊎◌, inl, inr, some, List, [], ◌∷◌, ◌++◌, get_elem?, ◌∈◌, ok, ◌<◌}
use samsara.Marker.{ObjectGraph}
use samsara.Snapshot.{Marked, Safe}
use samsara.Atomic.{load}
use samsara.Concurrent.{
  Shared, Worker, draining, refilling, popping, scanning, pushing, deciding, finishing, confirming,
  finished, Mutator, resting, checking, recording, storing, World,
}

abbrev pub black_of : Worker → List ℕ
black_of (draining b) = b
black_of (refilling b _) = b
black_of (popping b) = b
black_of (scanning b _) = b
black_of (pushing b _) = b
black_of (deciding b) = b
black_of (finishing b) = b
black_of (confirming b _) = b
black_of (finished b) = b

-- The ids that the worker has taken and not yet dealt with.
abbrev pub in_hand : Worker → List ℕ
in_hand (refilling _ ids) = ids
in_hand (scanning _ id) = id ∷ []
in_hand (pushing _ children) = children
in_hand (confirming _ ids) = ids
in_hand _ = []

abbrev pub greys : Shared → Worker → List ℕ
greys s k = in_hand k ++ (s.stack.objects ++ s.remembered.inner)

abbrev pub MarkedIn : Shared → Worker → ℕ → Type 0
MarkedIn s k = Marked (black_of k) (greys s k)

-- What a mutator has made sure of: the target of the snapshot's reference in the slot is the one that
-- it loaded, or is marked.
abbrev pub IsLoaded : ObjectGraph ℕ → Shared → Worker → ℕ → ℕ → ℕ → Type 0
IsLoaded g s k src slot old =
    (v : ℕ) → get_elem? (g.refs_of src) slot ≡ some v → (v ≡ old) ⊎ MarkedIn s k v

abbrev pub IsCaptured : ObjectGraph ℕ → Shared → Worker → ℕ → ℕ → Type 0
IsCaptured g s k src slot = (v : ℕ) → get_elem? (g.refs_of src) slot ≡ some v → MarkedIn s k v

abbrev pub Mutates : ObjectGraph ℕ → Shared → Worker → Mutator → Type 0
Mutates g s k resting = Unit
Mutates g s k (checking src slot old new) = IsLoaded g s k src slot old
Mutates g s k (recording src slot old new) = IsLoaded g s k src slot old
Mutates g s k (storing src slot new) = IsCaptured g s k src slot

-- Near the end the phase has left `Marking`, and the worker has seen the shared queues empty.
abbrev pub Ends : Shared → Worker → Type 0
Ends s (finishing _) = s.phase.byte ≢ 1
Ends s (confirming _ _) = (s.phase.byte ≢ 1) × (s.remembered.inner ≡ [])
Ends s (finished _) = (s.phase.byte ≢ 1) × (s.remembered.inner ≡ []) × (s.stack.objects ≡ [])
Ends s _ = Unit

pub record Inv (g : ObjectGraph ℕ) (w : World) : Type 0 where
  pub safe : Safe g w.shared.refs (black_of w.worker) (greys w.shared w.worker)
  pub mutators : (i : ℕ) → Mutates g w.shared w.worker (w.mutators i)
  pub calm : w.shared.phase.byte ≢ 1 → (i : ℕ) → w.mutators i ≡ resting
  pub ends : Ends w.shared w.worker
  pub phase : w.shared.phase.byte < 3
