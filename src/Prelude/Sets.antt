-- ===== src/Prelude/Sets.antt =====
-- Lists read as sets and as maps, for keys with decidable equality.
use Prim.Native.Nat.{suc, ◌≤◌}
use mathlib.Core.Path.{◌≡◌, refl}
use mathlib.Core.Logic.{◌↔◌, ◌⊎◌, inl, inr, ite}
use mathlib.Core.Bool.{Bool, true, false}
use mathlib.Core.List.{List, [], ◌∷◌, ◌++◌}
use mathlib.Core.Option.{Option, none, some}
use native.Mathlib.Omega.{arith}
use samsara.Prelude.Lists.{length}

-- Membership that computes to a sum, which the tactics read and build.
infix 40 ◌∈◌
abbrev pub ◌∈◌ : {A : Type 0} → A → List A → Type 0
a ∈ [] = ⊥
a ∈ (x ∷ xs) = (a ≡ x) ⊎ (a ∈ xs)

-- Each item of the first list is in the second.
abbrev pub Subset : {A : Type 0} → List A → List A → Type 0
Subset {A} xs ys = (a : A) → a ∈ xs → a ∈ ys

-- No item twice.
abbrev pub IsDistinct : {A : Type 0} → List A → Type 0
IsDistinct [] = Unit
IsDistinct (x ∷ xs) = ¬ (x ∈ xs) × IsDistinct xs

pub mem-append : {A : Type 0} (a : A) (xs ys : List A) → (a ∈ (xs ++ ys)) ↔ ((a ∈ xs) ⊎ (a ∈ ys))
mem-append a [] ys = ground arith
mem-append a (x ∷ xs) ys = ground (arith, mem-append a xs ys)

module _ {A : Type 0} (eq : Discrete A) where
  abbrev pub contains : List A → A → Bool
  contains [] a = false
  contains (x ∷ xs) a = ite (eq a x) true (contains xs a)

  pub contains_iff : (xs : List A) (a : A) → (contains xs a ≡ true) ↔ (a ∈ xs)
  contains_iff [] a = ground arith
  contains_iff (x ∷ xs) a = ground (arith, contains_iff xs a)

  abbrev pub remove : A → List A → List A
  remove a [] = []
  remove a (x ∷ xs) = ite (eq a x) xs (x ∷ remove a xs)

  length-remove : (a : A) (xs : List A) → a ∈ xs → suc (length (remove a xs)) ≡ length xs
  length-remove a [] h = absurd h
  length-remove a (x ∷ xs) h = ground (arith, length-remove a xs)

  mem-remove : (a b : A) (xs : List A) → b ∈ xs → ¬ (b ≡ a) → b ∈ remove a xs
  mem-remove a b [] h ne = h
  mem-remove a b (x ∷ xs) h ne = ground (arith, mem-remove a b xs)

  -- The pigeonhole principle: distinct items of a list are at most as many as the list.
  pub length-le_of_subset : (xs ys : List A) → IsDistinct xs → Subset xs ys → length xs ≤ length ys
  length-le_of_subset [] ys d h = omega arith
  length-le_of_subset (x ∷ xs) ys d h =
      let rest =
        length-le_of_subset xs (remove x ys) d.1
          λ a m. mem-remove x a ys (h a (inr m)) (λ e. ground (arith, d.0)) in
      omega (arith, length-remove x ys (h x (inl refl)))

module _ {K V : Type 0} (eq : Discrete K) where
  abbrev pub lookup : K → List (K × V) → Option V
  lookup k [] = none
  lookup k ((j, v) ∷ m) = ite (eq k j) (some v) (lookup k m)

  abbrev pub insert : K → V → List (K × V) → List (K × V)
  insert k v [] = (k, v) ∷ []
  insert k v ((j, w) ∷ m) = ite (eq k j) ((k, v) ∷ m) ((j, w) ∷ insert k v m)

  pub lookup-insert :
      (k j : K) (v : V) (m : List (K × V))
      → lookup j (insert k v m) ≡ ite (eq j k) (some v) (lookup j m)
  lookup-insert k j v [] = refl
  lookup-insert k j v ((i, w) ∷ m) = ground (arith, lookup-insert k j v m)
