-- ===== src/Concurrent/Invariant/Mutators.antt =====
-- The invariant under the steps of a mutator (`mutate`: `pre_write` of src/atomic.rs, and the write).
use samsara.Prelude.{
  subst, ℕ, ◌≡◌, refl, ◌≢◌, ◌⊎◌, inl, inr, ⊎_elim, [], ◌∷◌, ◌++◌, ok, panic, mem-append, arith,
  Outcome,
}
use samsara.Marker.{ObjectGraph}
use samsara.RememberedSet.{record_id}
use samsara.Snapshot.{Safe, Safe-mono, Safe-store}
use samsara.Concurrent.{Shared, Worker, Mutator, resting, checking, recording, storing, mutate}
use samsara.Concurrent.Invariant.{black_of, in_hand, greys, MarkedIn, IsLoaded, Mutates}

-- What a mutator has made sure of holds on while nothing marked is lost.
pub Mutates-mono :
    (g : ObjectGraph ℕ) (s s' : Shared) (k k' : Worker)
    → ((v : ℕ) → MarkedIn s k v → MarkedIn s' k' v)
    → (m : Mutator) → Mutates g s k m
    → Mutates g s' k' m
Mutates-mono g s s' k k' keep resting h = tt
Mutates-mono g s s' k k' keep (checking src slot old new) h =
    λ v e. ⊎_elim inl (λ m. inr (keep v m)) (h v e)
Mutates-mono g s s' k k' keep (recording src slot old new) h =
    λ v e. ⊎_elim inl (λ m. inr (keep v m)) (h v e)
Mutates-mono g s s' k k' keep (storing src slot new) h = λ v e. keep v (h v e)

-- A step of a mutator leaves the phase and the mark stack, and loses nothing marked.
pub record MutatesTo (g : ObjectGraph ℕ) (s : Shared) (k : Worker) (s' : Shared) (m' : Mutator)
    : Type 0 where
  pub same_phase : s'.phase ≡ s.phase
  pub keeps : (v : ℕ) → MarkedIn s k v → MarkedIn s' k v
  pub safe : Safe g s'.refs (black_of k) (greys s' k)
  pub next : Mutates g s' k m'

abbrev pub Result : ObjectGraph ℕ → Shared → Worker → Outcome (Shared × Mutator) → Type 0
Result g s k panic = Unit
Result g s k (ok (s', m')) = MutatesTo g s k s' m'

module _ {g : ObjectGraph ℕ} (s : Shared) (k : Worker)
    (safe : Safe g s.refs (black_of k) (greys s k)) where
  unchanged : (m' : Mutator) → Mutates g s k m' → MutatesTo g s k s m'
  unchanged m' h = record { same_phase = refl; keeps = λ v m. m; safe = safe; next = h }

  -- While the phase is `Marking`, a mutator does not pass its check without recording.
  pub mutate-checking :
      (src slot old new : ℕ)
      → s.phase.byte ≡ 1
      → IsLoaded g s k src slot old
      → Result g s k (mutate s (checking src slot old new))
  unfolding mutate
  mutate-checking src slot old new on h =
      let passed : ok (s, recording src slot old new) ≡ mutate s (checking src slot old new) =
        ground arith in
      subst (Result g s k) passed (unchanged (recording src slot old new) h)

  mem-recorded :
      (old v : ℕ) (m : MarkedIn s k v ⊎ (v ≡ old))
      → MarkedIn (record s { remembered = record_id s.remembered old }) k v
  unfolding record_id
  mem-recorded old v m = ground (
    arith,
    m,
    mem-append v (in_hand k) (s.stack.objects ++ s.remembered.inner),
    mem-append v s.stack.objects s.remembered.inner,
    mem-append v (in_hand k) (s.stack.objects ++ (s.remembered.inner ++ old ∷ [])),
    mem-append v s.stack.objects (s.remembered.inner ++ old ∷ []),
    mem-append v s.remembered.inner (old ∷ []),
  )

  -- The captured reference is marked from now on.
  pub mutate-recording :
      (src slot old new : ℕ)
      → IsLoaded g s k src slot old
      → Result g s k (mutate s (recording src slot old new))
  unfolding mutate
  mutate-recording src slot old new h = record {
    same_phase = refl;
    keeps = λ v m. mem-recorded old v (inl m);
    safe = Safe-mono safe _ (λ v m. mem-recorded old v (inl m));
    next = λ v e. mem-recorded old v (⊎_elim inr inl (h v e));
  }

  pub mutate-storing :
      (src slot new : ℕ)
      → Mutates g s k (storing src slot new)
      → Result g s k (mutate s (storing src slot new))
  unfolding mutate
  mutate-storing src slot new h = record {
    same_phase = refl;
    keeps = λ v m. m;
    safe = Safe-store safe src slot new (λ v e now. h v e);
    next = tt;
  }

  pub mutate-Result :
      (m : Mutator) → (m ≢ resting → s.phase.byte ≡ 1) → Mutates g s k m → Result g s k (mutate s m)
  unfolding mutate
  mutate-Result resting on h = unchanged resting tt
  mutate-Result (checking src slot old new) on h = mutate-checking src slot old new (on (λ e. cc)) h
  mutate-Result (recording src slot old new) on h = mutate-recording src slot old new h
  mutate-Result (storing src slot new) on h = mutate-storing src slot new h
