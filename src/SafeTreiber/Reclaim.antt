-- ===== src/SafeTreiber/Reclaim.antt =====
-- `reclaim_locked` of src/safe_treiber.rs from its start to its end, with no other thread between its
-- steps.
pub mod Freed
use samsara.Prelude.{
  ℕ, zero, suc, ◌+◌, ◌≡◌, ◌≢◌, refl, none, some, Bool, true, false, List, [], ◌∷◌, ◌++◌, ◌∈◌,
  IsDistinct, get_elem?, contains, contains_iff, inl, inr, Bool-cases, Option-cases, ◌==◌,
  if◌then◌else◌, ℕ_discrete, arith, subst, sym, ap, ◌∙◌,
}
use mathlib.Core.List.{append-nil, append_assoc}
use samsara.Memory.{null, Heap, assign, Effect, done, ◌>>=◌}
use samsara.Hazard.{Slot, published, snapshot}
use samsara.SafeTreiber.{Shared, unlocked, reading_use, reading_ptr, retaining, reclaim}
use samsara.SafeTreiber.Reclaim.Freed.{hazarded, freed, freed_entry, freed_other}

-- Steps of `reclaim_locked` till it is over, at most `n`.
unfoldable pub reclaim_for : ℕ → Shared → Effect (Shared × Bool)
reclaim_for zero s = done (s, false)
reclaim_for (suc n) s =
    reclaim s >>= λ (s', over). elim over [ true ↦ done (s', true) | false ↦ reclaim_for n s' ]

-- It ends in the state `s'`.
abbrev pub Ends : Shared → Shared → Type 0
Ends s s' = (n : ℕ) × (reclaim_for n s ≡ done (s', true))

Ends-on : (s s1 : Shared) {s' : Shared} → reclaim s ≡ done (s1, false) → Ends s1 s' → Ends s s'
unfolding reclaim_for
Ends-on s s1 e (n, ends) = (suc n, rw (e, reclaim_for) ends)

Ends-at_end : (s s' : Shared) → reclaim s ≡ done (s', true) → Ends s s'
unfolding reclaim_for
Ends-at_end s s' e = (1, rw (e, reclaim_for) refl)

skipped :
    (slot : Slot) (rest : List Slot)
    → slot.in_use ≡ false
    → published (slot ∷ rest) ≡ published rest
unfolding published
skipped slot rest free = rw (free, published) refl

scanned :
    (slot : Slot) (rest : List Slot) (found : List ℕ)
    → slot.in_use ≡ true
    → found ++ published (slot ∷ rest)
      ≡ (if slot.ptr == null then found else found ++ slot.ptr ∷ []) ++ published rest
unfolding published
scanned slot rest found used = elim (Bool-cases (slot.ptr == null)) [
  | inl e ↦ rw (used, e, published) refl
  | inr e ↦ rw (used, e, published) (sym (append_assoc found (slot.ptr ∷ []) (published rest)))
]

pub scans :
    (rest : List Slot) (k : ℕ) (found : List ℕ) (s : Shared) {s' : Shared}
    → ((j : ℕ) → get_elem? s.hazards.slots (k + j) ≡ get_elem? rest j)
    → Ends (record s { pass = retaining (found ++ published rest) }) s'
    → Ends (record s { pass = reading_use k found }) s'
unfolding reclaim published
scans [] k found s {s'} at_rest ends =
    let out : get_elem? s.hazards.slots k ≡ none =
      subst (λ x. get_elem? s.hazards.slots x ≡ none) (omega arith) (at_rest 0) in
    Ends-on (record s { pass = reading_use k found }) (record s { pass = retaining found })
      (rw (out, reclaim) refl)
      (subst (λ l. Ends (record s { pass = retaining l }) s') (append-nil found) ends)
scans (slot ∷ rest) k found s {s'} at_rest ends =
    let here : get_elem? s.hazards.slots k ≡ some slot =
      subst (λ x. get_elem? s.hazards.slots x ≡ some slot) (omega arith) (at_rest 0) in
    let at_next = λ (j : ℕ).
      let e : k + suc j ≡ k + 1 + j = omega arith in
      subst (λ x. get_elem? s.hazards.slots x ≡ get_elem? rest j) e (at_rest (suc j)) in
    elim (Bool-cases slot.in_use) [
      | inl used ↦
          let found' = if slot.ptr == null then found else found ++ slot.ptr ∷ [] in
          let same : found ++ published (slot ∷ rest) ≡ found' ++ published rest =
            scanned slot rest found used in
          Ends-on (record s { pass = reading_use k found })
            (record s { pass = reading_ptr k found }) (rw (here, used, reclaim) refl)
            (Ends-on (record s { pass = reading_ptr k found })
              (record s { pass = reading_use (k + 1) found' }) (rw (here, reclaim) refl)
              (scans rest (k + 1) found' s at_next
                (subst (λ l. Ends (record s { pass = retaining l }) s') same ends)))
      | inr free ↦
          Ends-on (record s { pass = reading_use k found })
            (record s { pass = reading_use (k + 1) found }) (rw (here, free, reclaim) refl)
            (scans rest (k + 1) found s at_next (
              subst (λ l. Ends (record s { pass = retaining (found ++ l) }) s')
                (skipped slot rest free) ends))
    ]

assign_other : (h : Heap) (a b : ℕ) → b ≢ a → assign h a none b ≡ none → h b ≡ none
assign_other h a b other gone = ground arith

pub retains :
    (hazards entries kept : List ℕ) (s : Shared)
    → IsDistinct entries
    → ((a : ℕ) → a ∈ entries → s.heap a ≢ none)
    → Ends
        (record s { pass = retaining hazards; retired = entries; kept = kept })
        (record s {
          pass = unlocked;
          retired = kept ++ hazarded hazards entries;
          kept = [];
          heap = freed hazards entries s.heap;
        })
unfolding reclaim
retains hazards [] kept s d live =
    subst
      (λ l.
        Ends (record s { pass = retaining hazards; retired = []; kept = kept })
          (record s { pass = unlocked; retired = l; kept = [] }))
      (sym (append-nil kept))
      (Ends-at_end (record s { pass = retaining hazards; retired = []; kept = kept })
        (record s { pass = unlocked; retired = kept; kept = [] }) refl)
retains hazards (a ∷ entries) kept s (new, d) live =
    elim (Bool-cases (contains ℕ_discrete hazards a)) [
      | inl hazard ↦
          let end = record s {
            pass = unlocked;
            retired = kept ++ a ∷ hazarded hazards entries;
            kept = [];
            heap = freed hazards entries s.heap;
          } in
          rw hazard (
            Ends-on (record s { pass = retaining hazards; retired = a ∷ entries; kept = kept })
              (record s { pass = retaining hazards; retired = entries; kept = kept ++ a ∷ [] })
              (rw (hazard, reclaim) refl)
              (subst
                (λ l.
                  Ends
                    (record s {
                      pass = retaining hazards;
                      retired = entries;
                      kept = kept ++ a ∷ [];
                    })
                    (record end { retired = l }))
                (append_assoc kept (a ∷ []) (hazarded hazards entries))
                (retains hazards entries (kept ++ a ∷ []) s d (λ b mem. live b (inr mem)))))
      | inr e ↦ elim (Option-cases (s.heap a)) [
        | inl gone ↦ absurd (live a (inl refl) gone)
        | inr (node, there) ↦
            let h = assign s.heap a none in
            rw e (
              Ends-on (record s { pass = retaining hazards; retired = a ∷ entries; kept = kept })
                (record s { pass = retaining hazards; retired = entries; kept = kept; heap = h })
                (rw (e, there, reclaim) refl)
                (retains hazards entries kept (record s { heap = h }) d
                  (λ b mem gone. live b (inr mem) (
                    assign_other s.heap a b (λ same. new (subst (λ x. x ∈ entries) same mem))
                      gone))))
      ]
    ]

-- A run of `reclaim_locked` that no other thread interrupts, on a queue of different allocated nodes,
-- ends with the lock given back. It never frees a node twice, the queue keeps exactly its entries that
-- were among the published hazards, in order, the other entries are freed, and nothing else changes.
pub reclaim_lem :
    (s : Shared)
    → IsDistinct s.retired
    → ((a : ℕ) → a ∈ s.retired → s.heap a ≢ none)
    → (s' : Shared) × Ends (record s { pass = reading_use 0 []; kept = [] }) s'
      × (s' ≡ record s {
        pass = unlocked;
        kept = [];
        retired = hazarded (snapshot s.hazards) s.retired;
        heap = s'.heap;
      })
      × ((a : ℕ) → a ∈ s.retired → ¬ (a ∈ snapshot s.hazards) → s'.heap a ≡ none)
      × ((a : ℕ) → (a ∈ s.retired → a ∈ snapshot s.hazards) → s'.heap a ≡ s.heap a)
unfolding snapshot
reclaim_lem s d live =
    let hazards = snapshot s.hazards in
    (
      record s {
        pass = unlocked;
        kept = [];
        retired = hazarded hazards s.retired;
        heap = freed hazards s.retired s.heap;
      },
      scans s.hazards.slots 0 [] (record s { kept = [] })
          (λ j. ap (get_elem? s.hazards.slots) (omega arith))
          (retains hazards s.retired [] s d live),
      refl,
      freed_entry hazards s.retired s.heap,
      freed_other hazards s.retired s.heap,
    )
