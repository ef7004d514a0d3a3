-- ===== src/Barrier/Drain.antt =====
-- The loop of `drain_marker` (src/barrier.rs), round by round.
use samsara.Prelude.{
  ◌∙◌, ℕ, zero, suc, ◌+◌, ◌≤◌, ◌<◌, ◌≡◌, refl, ◌↔◌, ◌⊎◌, inl, inr, ⊎_elim, some, List, [], ◌∷◌,
  length, contains, contains_iff, ◌∈◌, Subset, mem-append, ◌++◌, if◌then◌else◌, arith, true, false,
  Bool-cases, List-cases, ℕ_discrete, subst, sym, ap,
}
use samsara.Marker.{ObjectGraph}
use samsara.Snapshot.{Safe, Safe-mono, Safe-scan}
use samsara.Barrier.{MarkStack, push, push_white, drain_loop}

-- What the loop over the children puts on the stack.
pub mem-push_white :
    (black : List ℕ) (s : MarkStack) (cs : List ℕ) (v : ℕ)
    → (v ∈ (push_white black s cs).objects) ↔ ((v ∈ s.objects) ⊎ (v ∈ cs) × ¬ (v ∈ black))
unfolding push_white
mem-push_white black s [] v = ground arith
mem-push_white black s (c ∷ cs) v = ground (
  arith,
  mem-push_white black s cs v,
  mem-push_white black (push s c) cs v,
  contains_iff ℕ_discrete black c,
  contains_iff ℕ_discrete black v,
  ℕ_discrete v c,
)

length-push_white :
    (black : List ℕ) (s : MarkStack) (cs : List ℕ)
    → length (push_white black s cs).objects ≤ length s.objects + length cs
unfolding push_white
length-push_white black s [] = omega arith
length-push_white black s (c ∷ cs) =
    ground (arith, length-push_white black s cs, length-push_white black (push s c) cs)

module _ (refs : ℕ → List ℕ) where
  -- The references of the objects of a list that are not black.
  abbrev pub unscanned : List ℕ → List ℕ → ℕ
  unscanned [] black = 0
  unscanned (u ∷ us) black =
      (if contains ℕ_discrete black u then 0 else length (refs u)) + unscanned us black

  unscanned-le : (us black : List ℕ) (id : ℕ) → unscanned us (id ∷ black) ≤ unscanned us black
  unscanned-le [] black id = omega arith
  unscanned-le (u ∷ us) black id = ground (arith, unscanned-le us black id, ℕ_discrete u id)

  pub unscanned-scan :
      (us black : List ℕ) (id : ℕ)
      → id ∈ us
      → ¬ (id ∈ black)
      → unscanned us (id ∷ black) + length (refs id) ≤ unscanned us black
  unscanned-scan [] black id m white = absurd m
  unscanned-scan (u ∷ us) black id m white = elim (ℕ_discrete id u) [
    | yes same ↦
        subst (λ w. unscanned (w ∷ us) (id ∷ black) + length (refs id) ≤ unscanned (w ∷ us) black)
          same
          (ground
            (arith, unscanned-le us black id, contains_iff ℕ_discrete black id, ℕ_discrete id id))
    | no other ↦
        let rest = unscanned-scan us black id (ground arith) white in
        ground (arith, rest, ℕ_discrete u id)
  ]

  -- One round of the loop.
  drain-empty :
      (fuel : ℕ) (black : List ℕ) (s : MarkStack)
      → s.objects ≡ []
      → drain_loop refs (suc fuel) black s ≡ some black
  unfolding drain_loop
  drain-empty fuel black s e = ground arith

  drain-old :
      (fuel : ℕ) (black : List ℕ) (s : MarkStack) {id : ℕ} {rest : List ℕ}
      → s.objects ≡ id ∷ rest
      → contains ℕ_discrete black id ≡ true
      → drain_loop refs (suc fuel) black s ≡ drain_loop refs fuel black (record { objects = rest })
  unfolding drain_loop
  drain-old fuel black s e old = ground arith

  drain-new :
      (fuel : ℕ) (black : List ℕ) (s : MarkStack) {id : ℕ} {rest : List ℕ}
      → s.objects ≡ id ∷ rest
      → contains ℕ_discrete black id ≡ false
      → drain_loop refs (suc fuel) black s
        ≡ drain_loop refs fuel
            (id ∷ black)
            (push_white (id ∷ black) (record { objects = rest }) (refs id))
  unfolding drain_loop
  drain-new fuel black s e new = ground arith

  -- What a run comes to: a set that is safe together with the objects `before`, with the property `P`
  -- for each of its members.
  abbrev pub Drained : ObjectGraph ℕ → List ℕ → (ℕ → Type 0) → ℕ → List ℕ → MarkStack → Type 0
  Drained g before P fuel black s =
      (result : List ℕ) × (drain_loop refs fuel black s ≡ some result)
      × Safe g refs (result ++ before) []
      × ((v : ℕ) → v ∈ result → P v)

  module _ (g : ObjectGraph ℕ) (before ids : List ℕ) (P : ℕ → Type 0)
      (finite : (u : ℕ) → u ∈ ids → Subset (refs u) ids)
      (step : (u v : ℕ) → P u → v ∈ refs u → P v) where
    pub drain_lem :
        (fuel : ℕ) (black : List ℕ) (s : MarkStack)
        → Safe g refs (black ++ before) s.objects
        → Subset s.objects ids
        → ((v : ℕ) → v ∈ black → P v)
        → ((v : ℕ) → v ∈ s.objects → P v)
        → unscanned ids black + length s.objects < fuel
        → Drained g before P fuel black s
    drain_lem zero black s safe within pb ps enough = absurd (omega arith)
    drain_lem (suc fuel) black s safe within pb ps enough = elim (List-cases s.objects) [
      | inl e ↦
          (black, drain-empty fuel black s e, subst (Safe g refs (black ++ before)) e safe, pb)
      | inr (id, rest, e) ↦
          let in_rest = λ (v : ℕ) (m : v ∈ rest).
            subst (λ l. v ∈ l) (sym e) (let q : v ∈ (id ∷ rest) = inr m in q) in
          let head : id ∈ s.objects = subst (λ l. id ∈ l) (sym e) (inl refl) in
          let split = λ (v : ℕ) (m : v ∈ s.objects). subst (λ l. v ∈ l) e m in
          elim (Bool-cases (contains ℕ_discrete black id)) [
            | inl old ↦
                let safe' = Safe-mono safe rest λ v m. ground (
                  arith,
                  m,
                  split v,
                  mem-append v black before,
                  (contains_iff ℕ_discrete black id).0 old,
                ) in
                let (result, done, last, all) =
                  drain_lem fuel black (record { objects = rest }) safe'
                    (λ v m. within v (in_rest v m)) pb (λ v m. ps v (in_rest v m))
                    (omega (arith, ap length e)) in
                (result, drain-old fuel black s e old ∙ done, last, all)
            | inr new ↦
                let s' = push_white (id ∷ black) (record { objects = rest }) (refs id) in
                let pushed =
                  λ (v : ℕ). mem-push_white (id ∷ black) (record { objects = rest }) (refs id) v in
                let test = λ (v : ℕ). contains_iff ℕ_discrete (id ∷ black) v in
                let white : ¬ (id ∈ black) = ground (arith, contains_iff ℕ_discrete black id) in
                let safe' =
                  Safe-scan safe id s'.objects (λ v m. ground (arith, m, split v, pushed v))
                    (λ v m. ground (arith, m, pushed v, test v, mem-append v black before)) in
                let less = unscanned-scan ids black id (within id head) white in
                let (result, done, last, all) =
                  drain_lem fuel (id ∷ black) s' safe'
                    (λ v m.
                      ground (arith, pushed v, within v, in_rest v, finite id (within id head) v))
                    (λ v m. ⊎_elim (λ q. subst P (sym q) (ps id head)) (pb v) m)
                    (λ v m.
                      ⊎_elim (λ r. ps v (in_rest v r)) (λ (c, _). step id v (ps id head) c)
                        ((pushed v).0 m))
                    (omega (
                      arith,
                      less,
                      ap length e,
                      length-push_white (id ∷ black) (record { objects = rest }) (refs id),
                    )) in
                (result, drain-new fuel black s e new ∙ done, last, all)
          ]
    ]
