-- ===== src/SafeTreiber/Reclaim/Freed.antt =====
-- What the `retain` of `reclaim_locked` in src/safe_treiber.rs keeps and frees.
use samsara.Prelude.{
  ℕ, ◌≡◌, refl, none, List, [], ◌∷◌, ◌∈◌, contains, contains_iff, inl, inr, Bool-cases, ◌==◌,
  if◌then◌else◌, ℕ_discrete, arith, subst, sym, ◌∙◌,
}
use samsara.Memory.{Heap, assign}

-- The entries that are among the hazards, which `retain` keeps.
abbrev pub hazarded : List ℕ → List ℕ → List ℕ
hazarded hazards [] = []
hazarded hazards (a ∷ entries) =
    if contains ℕ_discrete hazards a then a ∷ hazarded hazards entries else hazarded hazards entries

-- The heap without the other entries.
abbrev pub freed : List ℕ → List ℕ → Heap → Heap
freed hazards [] h = h
freed hazards (a ∷ entries) h =
    freed hazards entries (if contains ℕ_discrete hazards a then h else assign h a none)

pub freed-none :
    (hazards entries : List ℕ) (h : Heap) (a : ℕ) → h a ≡ none → freed hazards entries h a ≡ none
freed-none hazards [] h a gone = gone
freed-none hazards (b ∷ entries) h a gone = elim (Bool-cases (contains ℕ_discrete hazards b)) [
  | inl e ↦ rw e (freed-none hazards entries h a gone)
  | inr e ↦ rw e (freed-none hazards entries (assign h b none) a (ground arith))
]

pub freed_entry :
    (hazards entries : List ℕ) (h : Heap) (a : ℕ)
    → a ∈ entries
    → ¬ a ∈ hazards
    → freed hazards entries h a ≡ none
freed_entry hazards [] h a mem safe = elim mem [ ]
freed_entry hazards (b ∷ entries) h a (inl same) safe =
    elim (Bool-cases (contains ℕ_discrete hazards b)) [
      | inl e ↦
          absurd
            (safe (subst (λ x. x ∈ hazards) (sym same) ((contains_iff ℕ_discrete hazards b).0 e)))
      | inr e ↦ rw e (freed-none hazards entries (assign h b none) a (ground arith))
    ]
freed_entry hazards (b ∷ entries) h a (inr mem) safe =
    freed_entry hazards entries (if contains ℕ_discrete hazards b then h else assign h b none) a mem
      safe

pub freed_other :
    (hazards entries : List ℕ) (h : Heap) (a : ℕ)
    → (a ∈ entries → a ∈ hazards)
    → freed hazards entries h a ≡ h a
freed_other hazards [] h a spared = refl
freed_other hazards (b ∷ entries) h a spared = elim (Bool-cases (contains ℕ_discrete hazards b)) [
  | inl e ↦ rw e (freed_other hazards entries h a (λ mem. spared (inr mem)))
  | inr e ↦ rw e (
      freed_other hazards entries (assign h b none) a (λ mem. spared (inr mem))
      ∙ elim (Bool-cases (a == b)) [
        | inl same ↦
            let sm : a ≡ b = ground (arith, same) in
            let mem = spared (inl sm) in
            let yes = (contains_iff ℕ_discrete hazards b).1 (subst (λ x. x ∈ hazards) sm mem) in
            ground (arith, yes, e)
        | inr other ↦ ground (arith, other)
      ])
]
