-- ===== src/Hazard/Guards.antt =====
-- `acquire` and the guard that it returns (src/hazard.rs): which slot is claimed, and what `protect`
-- and the drop of the guard do to the hazarded pointers.
use samsara.Prelude.{
  ℕ, zero, suc, ◌+◌, ◌<◌, ◌≡◌, ◌↔◌, refl, Option, none, some, true, false, List, [], ◌∷◌, get_elem?,
  set, arith, inl, inr, Bool-cases, ap, sym, subst, ◌≢◌, get_elem?-set, ℕ_discrete, ⊎_elim, ◌⊎◌,
  ◌∙◌, lt_length_of_get_elem?,
}
use samsara.Memory.{null}
use samsara.Hazard.{
  Slot, new_slot, HazardRegistry, claim_from, acquire, is_hazarded, protect, clear, vacate, release,
}
use samsara.Hazard.Scan.{Publishes, is_hazarded_iff}

-- All slots are in use.
abbrev pub AllInUse : List Slot → Type 0
AllInUse ss = (i : ℕ) (t : Slot) → get_elem? ss i ≡ some t → t.in_use ≡ true

-- The slots `ss'` are `ss` with the free slot `j`, the first one, claimed.
pub record Claimed (ss : List Slot) (j : ℕ) (ss' : List Slot) : Type 0 where
  pub slot : Slot
  pub here : get_elem? ss j ≡ some slot
  pub was_free : slot.in_use ≡ false
  pub now : ss' ≡ set ss j (record slot { in_use = true })
  pub first : (i : ℕ) (t : Slot) → i < j → get_elem? ss i ≡ some t → t.in_use ≡ true

-- What a search from index `i` on can come to.
abbrev pub Outcomes : ℕ → List Slot → Option ℕ × List Slot → Type 0
Outcomes i ss (none, ss') = AllInUse ss × (ss' ≡ ss)
Outcomes i ss (some k, ss') = (j : ℕ) × (k ≡ i + j) × Claimed ss j ss'

skip_used : (s : Slot) (ss : List Slot) → s.in_use ≡ true → AllInUse ss → AllInUse (s ∷ ss)
skip_used s ss used all zero t e = ground arith
skip_used s ss used all (suc i) t e = all i t e

skip_used_below :
    (s : Slot) (ss : List Slot) (j : ℕ)
    → s.in_use ≡ true
    → ((i : ℕ) (t : Slot) → i < j → get_elem? ss i ≡ some t → t.in_use ≡ true)
    → (i : ℕ) (t : Slot) → i < suc j
    → get_elem? (s ∷ ss) i ≡ some t
    → t.in_use ≡ true
skip_used_below s ss j used all zero t lt e = ground arith
skip_used_below s ss j used all (suc i) t lt e = all i t (omega arith) e

past_used :
    (i : ℕ) (s : Slot) (ss : List Slot) (o : Option ℕ × List Slot)
    → s.in_use ≡ true
    → Outcomes (i + 1) ss o
    → Outcomes i (s ∷ ss) (o.0, s ∷ o.1)
past_used i s ss (none, ss') used (all, same) = (skip_used s ss used all, ap (λ l. s ∷ l) same)
past_used i s ss (some k, ss') used (j, at_k, c) = (
  suc j,
  omega arith,
  record {
    slot = c.slot;
    here = c.here;
    was_free = c.was_free;
    now = ap (λ l. s ∷ l) c.now;
    first = skip_used_below s ss j used c.first;
  },
)

claim_from-used :
    (i : ℕ) (s : Slot) (ss : List Slot)
    → s.in_use ≡ true
    → claim_from i (s ∷ ss) ≡ ((claim_from (i + 1) ss).0, s ∷ (claim_from (i + 1) ss).1)
unfolding claim_from
claim_from-used i s ss used = ground arith

claim_from-free :
    (i : ℕ) (s : Slot) (ss : List Slot)
    → s.in_use ≡ false
    → claim_from i (s ∷ ss) ≡ (some i, record s { in_use = true } ∷ ss)
unfolding claim_from
claim_from-free i s ss unused = ground arith

claim_from_lem : (i : ℕ) (ss : List Slot) → Outcomes i ss (claim_from i ss)
unfolding claim_from
claim_from_lem i [] = (λ j t e. cc, refl)
claim_from_lem i (s ∷ ss) = elim (Bool-cases s.in_use) [
  | inl used ↦
      subst (Outcomes i (s ∷ ss)) (sym (claim_from-used i s ss used))
        (past_used i s ss (claim_from (i + 1) ss) used (claim_from_lem (i + 1) ss))
  | inr unused ↦ subst (Outcomes i (s ∷ ss)) (sym (claim_from-free i s ss unused)) (
    0,
    omega arith,
    record {
      slot = s;
      here = refl;
      was_free = unused;
      now = refl;
      first = λ j t lt e. absurd (omega arith);
    },
  )
]

-- What `acquire` can come to.
abbrev pub Acquires : HazardRegistry → Option ℕ × HazardRegistry → Type 0
Acquires r (none, r') = AllInUse r.slots × (r' ≡ r)
Acquires r (some idx, r') = Claimed r.slots idx r'.slots

acquired :
    (r : HazardRegistry) (o : Option ℕ × List Slot)
    → Outcomes 0 r.slots o
    → Acquires r (o.0, record { slots = o.1 })
acquired r (none, ss') (all, same) = (all, ap (λ l. record { slots = l }) same)
acquired r (some k, ss') (j, at_k, c) =
    let same : j ≡ k = omega arith in subst (λ i. Claimed r.slots i ss') same c

-- `acquire` claims the first free slot and changes no other; it fails exactly when all slots are in
-- use, and then nothing changes.
pub acquire-Acquires : (r : HazardRegistry) → Acquires r (acquire r)
unfolding acquire
acquire-Acquires r = acquired r (claim_from 0 r.slots) (claim_from_lem 0 r.slots)

set-set : (ss : List Slot) (i : ℕ) (a b : Slot) → set (set ss i a) i b ≡ set ss i b
set-set [] i a b = refl
set-set (s ∷ ss) zero a b = refl
set-set (s ∷ ss) (suc i) a b = ap (λ l. s ∷ l) (set-set ss i a b)

-- Some slot in use other than `idx` holds the pointer.
abbrev pub PublishesElsewhere : List Slot → ℕ → ℕ → Type 0
PublishesElsewhere ss idx q =
    (i : ℕ) × (s : Slot) × (i ≢ idx) × (get_elem? ss i ≡ some s) × (s.in_use ≡ true) × (s.ptr ≡ q)

module _ (r : HazardRegistry) (idx : ℕ) {s : Slot} (here : get_elem? r.slots idx ≡ some s) where
  now_at : (s' : Slot) → get_elem? (set r.slots idx s') idx ≡ some s'
  now_at s' =
      ground (arith, get_elem?-set r.slots idx idx s', lt_length_of_get_elem? r.slots idx here)

  elsewhere : (s' : Slot) (i : ℕ) → i ≢ idx → get_elem? (set r.slots idx s') i ≡ get_elem? r.slots i
  elsewhere s' i ne = ground (arith, get_elem?-set r.slots idx i s')

  -- What the slots publish when slot `idx` has changed.
  Publishes-set :
      (s' : Slot) (q : ℕ)
      → Publishes (set r.slots idx s') q
        ↔ ((s'.in_use ≡ true) × (s'.ptr ≡ q) ⊎ PublishesElsewhere r.slots idx q)
  Publishes-set s' q = (
    λ (i, t, e, u, p). elim (ℕ_discrete i idx) [
      | yes same ↦ inl (ground (arith, e, now_at s', same))
      | no other ↦ inr (i, t, other, sym (elsewhere s' i other) ∙ e, u, p)
    ],
    λ m.
        ⊎_elim (λ (u, p). (idx, s', now_at s', u, p))
          (λ (i, t, ne, e, u, p). (i, t, elsewhere s' i ne ∙ e, u, p)) m,
  )

  -- After `protect` by the guard of slot `idx`, a slot that exists and is in use, exactly the pointer
  -- and what the other slots in use publish is hazarded.
  pub is_hazarded-protect :
      (ptr q : ℕ)
      → s.in_use ≡ true
      → (is_hazarded (protect r idx ptr) q ≡ true) ↔ ((ptr ≡ q) ⊎ PublishesElsewhere r.slots idx q)
  unfolding protect
  is_hazarded-protect ptr q used =
      ground (
        arith,
        here,
        is_hazarded_iff (protect r idx ptr) q,
        Publishes-set (record s { ptr = ptr }) q,
      )

  released : (release r idx).slots ≡ set r.slots idx new_slot
  unfolding release vacate clear protect
  released = ground (
    arith,
    here,
    now_at (record s { ptr = null }),
    set-set r.slots idx (record s { ptr = null }) new_slot,
  )

  -- After the guard of slot `idx`, a slot that exists, is dropped, exactly what the other slots in use
  -- publish is hazarded, and the slot is free with the null pointer.
  pub release_lem :
      (q : ℕ)
      → ((is_hazarded (release r idx) q ≡ true) ↔ PublishesElsewhere r.slots idx q)
        × (get_elem? (release r idx).slots idx ≡ some new_slot)
  release_lem q = (
    ground (arith, is_hazarded_iff (release r idx) q, Publishes-set new_slot q, released),
    rw released (now_at new_slot),
  )
