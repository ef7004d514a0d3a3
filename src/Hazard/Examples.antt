-- ===== src/Hazard/Examples.antt =====
-- The unit tests of src/hazard.rs as evaluations, and its theorems at a concrete registry.
use samsara.Prelude.{
  ℕ, zero, suc, ◌*◌, ◌≡◌, ◌≢◌, ◌↔◌, ◌⊎◌, refl, Option, none, some, Bool, true, false, List, [], ◌∷◌,
  ◌∈◌, get_elem?,
}
use samsara.Memory.{null}
use samsara.Hazard.{
  Slot, HazardRegistry, max_hazards, new_slot, new_registry, acquire, claim_from, is_hazarded,
  snapshot, any_publishes, published, protect, clear, vacate, release,
}
use samsara.Hazard.Scan.{Publishes, is_hazarded_iff, mem-snapshot}
use samsara.Hazard.Guards.{
  Acquires, acquire-Acquires, PublishesElsewhere, is_hazarded-protect, release_lem,
}

-- fn acquire_and_release
acquire_and_release : List (Option ℕ)
unfolding acquire claim_from new_registry release vacate clear protect
acquire_and_release =
    let (s1, r1) = acquire new_registry in
    let (s2, r2) = acquire r1 in let (s3, _) = acquire (release r2 0) in s1 ∷ s2 ∷ s3 ∷ []

acquires : acquire_and_release ≡ some 0 ∷ some 1 ∷ some 0 ∷ []
unfolding acquire_and_release
acquires = refl

-- fn protect_and_is_hazarded, with the box at address 64.
protect_and_is_hazarded : List Bool
unfolding acquire claim_from new_registry protect clear is_hazarded any_publishes
protect_and_is_hazarded =
    let (_, r) = acquire new_registry in
    let held = protect r 0 64 in
    is_hazarded r 64 ∷ is_hazarded held 64 ∷ is_hazarded (clear held 0) 64 ∷ []

protects : protect_and_is_hazarded ≡ false ∷ true ∷ false ∷ []
unfolding protect_and_is_hazarded
protects = refl

-- fn drop_clears_protection
drop_clears_protection : List Bool
unfolding acquire claim_from new_registry protect clear vacate release is_hazarded any_publishes
drop_clears_protection =
    let held = protect (acquire new_registry).1 0 64 in
    is_hazarded held 64 ∷ is_hazarded (release held 0) 64 ∷ []

drop_clears : drop_clears_protection ≡ true ∷ false ∷ []
unfolding drop_clears_protection
drop_clears = refl

-- fn snapshot_returns_published_pointers
snapshot_returns_published_pointers : List ℕ
unfolding acquire claim_from new_registry protect snapshot published
snapshot_returns_published_pointers =
    let (_, r1) = acquire new_registry in
    let (_, r2) = acquire r1 in snapshot (protect (protect r2 0 64) 1 128)

snapshots : snapshot_returns_published_pointers ≡ 64 ∷ 128 ∷ []
unfolding snapshot_returns_published_pointers
snapshots = refl

-- The registry after `n` calls of `acquire` that succeed, or none.
acquire_all : ℕ → HazardRegistry → Option HazardRegistry
unfolding acquire claim_from
acquire_all zero r = some r
acquire_all (suc n) r =
    let (found, r') = acquire r in elim found [ none ↦ none | some idx ↦ acquire_all n r' ]

-- Threads that acquire a slot one after the other, each with its own pointer: 64, 128, ….
protecting : ℕ → HazardRegistry → List (Option ℕ) × HazardRegistry
unfolding acquire claim_from protect
protecting zero r = ([], r)
protecting (suc n) r =
    let (found, r') = acquire r in
    let (others, last) =
      protecting n (elim found [ none ↦ r' | some idx ↦ protect r' idx (64 * suc n) ]) in
    (found ∷ others, last)

-- fn many_threads_protect_distinct_slots, with four threads: the slots, and what is hazarded.
many_threads_protect_distinct_slots : List (Option ℕ) × List Bool
unfolding protecting acquire claim_from new_registry protect is_hazarded any_publishes
many_threads_protect_distinct_slots =
    let (found, r) = protecting 4 new_registry in
    (found, is_hazarded r 64 ∷ is_hazarded r 128 ∷ is_hazarded r 192 ∷ is_hazarded r 256 ∷ [])

distinct_slots :
    many_threads_protect_distinct_slots
    ≡ (some 0 ∷ some 1 ∷ some 2 ∷ some 3 ∷ [], true ∷ true ∷ true ∷ true ∷ [])
unfolding many_threads_protect_distinct_slots
distinct_slots = refl

-- fn slots_exhausted_returns_none
slots_exhausted_returns_none : Option (Option ℕ)
unfolding acquire_all acquire claim_from new_registry
slots_exhausted_returns_none = elim (acquire_all max_hazards new_registry) [
  | none ↦ none
  | some r ↦ some (acquire r).0
]

exhausted : slots_exhausted_returns_none ≡ some none
unfolding slots_exhausted_returns_none
exhausted = refl

-- Two slots in use, of which one publishes a pointer.
abbrev held : HazardRegistry
held = record {
  slots =
      record { in_use = true; ptr = null }
      ∷ record { in_use = false; ptr = 32 }
      ∷ record { in_use = true; ptr = 64 }
      ∷ [];
}

is_hazarded_iff_example : (is_hazarded held 64 ≡ true) ↔ Publishes held.slots 64
is_hazarded_iff_example = is_hazarded_iff held 64

mem-snapshot_example : (64 ∈ snapshot held) ↔ ((64 ≢ null) × (is_hazarded held 64 ≡ true))
mem-snapshot_example = mem-snapshot held 64

acquire-Acquires_example : Acquires held (acquire held)
acquire-Acquires_example = acquire-Acquires held

abbrev idle_slot : Slot
idle_slot = record { in_use = true; ptr = null }

is_hazarded-protect_example :
    (is_hazarded (protect held 0 96) 96 ≡ true)
    ↔ ((◌≡◌ {A = ℕ} 96 96) ⊎ PublishesElsewhere held.slots 0 96)
is_hazarded-protect_example = is_hazarded-protect held 0 {s = idle_slot} refl 96 96 refl

release_lem_example :
    ((is_hazarded (release held 0) 64 ≡ true) ↔ PublishesElsewhere held.slots 0 64)
    × (get_elem? (release held 0).slots 0 ≡ some new_slot)
release_lem_example = release_lem held 0 {s = idle_slot} refl 64
