-- ===== src/Region/Sweep.antt =====
-- `RegionHeap::sweep` (src/region.rs): what the loop does to each region, to `current` and to the
-- count that it returns.
pub mod Cycle
pub mod Reclaim
use mathlib.Core.Bool.{false≢true}
use native.Mathlib.Nat.{add-zero}
use samsara.Prelude.{
  inl, inr, false, ◌≢◌, ◌∙◌, sym, ℕ, zero, suc, ◌+◌, ◌≡◌, refl, ◌↔◌, Option, none, some, true, List,
  [], ◌∷◌, map, if◌then◌else◌, count_if, get_elem?, arith, Bool-cases, ap,
}
use samsara.Region.{Region, is_dead, forget, reset, sweep_from, is_free}

-- What a sweep makes of a region.
abbrev pub swept : Region → Region
swept r = if is_dead r then reset r else r

pub regions-sweep_from :
    (i : ℕ) (rs : List Region) (current : Option ℕ) → (sweep_from i rs current).1 ≡ map swept rs
unfolding sweep_from
regions-sweep_from i [] current = refl
regions-sweep_from i (r ∷ rs) current = elim (Bool-cases (is_dead r)) [
  | inl dead ↦ rw dead (ap (◌∷◌ (reset r)) (regions-sweep_from (i + 1) rs (forget i current)))
  | inr alive ↦ rw alive (ap (◌∷◌ r) (regions-sweep_from (i + 1) rs current))
]

pub freed-sweep_from :
    (i : ℕ) (rs : List Region) (current : Option ℕ)
    → (sweep_from i rs current).0 ≡ count_if is_dead rs
unfolding sweep_from
freed-sweep_from i [] current = refl
freed-sweep_from i (r ∷ rs) current =
    ground
      (arith, freed-sweep_from (i + 1) rs current, freed-sweep_from (i + 1) rs (forget i current))

-- No region that the loop frees, from index `i` on, is region `c`.
abbrev pub Survives : ℕ → List Region → ℕ → Type 0
Survives i rs c = (k : ℕ) (r : Region) → get_elem? rs k ≡ some r → i + k ≡ c → is_dead r ≡ false

Survives-cons :
    (i : ℕ) (r : Region) (rs : List Region) (c : ℕ)
    → (i ≡ c → is_dead r ≡ false)
    → Survives (i + 1) rs c
    → Survives i (r ∷ rs) c
Survives-cons i r rs c here later zero s g e = ground (arith, here)
Survives-cons i r rs c here later (suc k) s g e = later k s g (omega arith)

Survives-tail :
    (i : ℕ) (r : Region) (rs : List Region) (c : ℕ) → Survives i (r ∷ rs) c → Survives (i + 1) rs c
Survives-tail i r rs c all k s g e = all (suc k) s g (omega arith)

forget_iff :
    (i : ℕ) (current : Option ℕ) (c : ℕ)
    → (forget i current ≡ some c) ↔ ((current ≡ some c) × (i ≢ c))
forget_iff i none c = ground arith
forget_iff i (some d) c = ground arith

-- Region `c` stays current exactly if it was and the loop does not free it.
pub current-sweep_from :
    (i : ℕ) (rs : List Region) (current : Option ℕ) (c : ℕ)
    → ((sweep_from i rs current).2 ≡ some c) ↔ ((current ≡ some c) × Survives i rs c)
unfolding sweep_from
current-sweep_from i [] current c = (λ e. (e, λ k r g. cc), λ p. p.0)
current-sweep_from i (r ∷ rs) current c = elim (Bool-cases (is_dead r)) [
  | inl dead ↦
      let ih = current-sweep_from (i + 1) rs (forget i current) c in
      let was = forget_iff i current c in
      rw dead (
        λ e. (
          (was.0 (ih.0 e).0).0,
          Survives-cons i r rs c (λ f. absurd ((was.0 (ih.0 e).0).1 f)) (ih.0 e).1,
        ),
        λ p. ih.1 (
          was.1 (p.0, λ f. false≢true (sym (p.1 0 r refl (add-zero i ∙ f)) ∙ dead)),
          Survives-tail i r rs c p.1,
        ),
      )
  | inr alive ↦
      let ih = current-sweep_from (i + 1) rs current c in
      rw alive (
        λ e. ((ih.0 e).0, Survives-cons i r rs c (λ f. alive) (ih.0 e).1),
        λ p. ih.1 (p.0, Survives-tail i r rs c p.1),
      )
]

-- Each region freed was not free before.
pub count-swept :
    (rs : List Region)
    → count_if (λ r. is_free r.state) (map swept rs)
      ≡ count_if (λ r. is_free r.state) rs + count_if is_dead rs
unfolding reset
count-swept [] = omega arith
count-swept (r ∷ rs) = ground (arith, count-swept rs)
