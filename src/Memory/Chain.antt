-- ===== src/Memory/Chain.antt =====
-- The linked list that starts at a pointer, in the memory of src/treiber.rs and src/safe_treiber.rs.
use samsara.Prelude.{ℕ, ◌≡◌, ◌≢◌, some, List, [], ◌∷◌, ◌∈◌, inl, inr, refl, ◌∙◌}
use samsara.Memory.{Heap, null}

-- The nodes, each an address with the value there, are those met from `head` on, till null.
abbrev pub Chain : Heap → ℕ → List (ℕ × ℕ) → Type 0
Chain h head [] = head ≡ null
Chain h head ((a, v) ∷ cells) =
    (head ≡ a)
    × (a ≢ null)
    × (next : ℕ) × (h a ≡ some (record { value = v; next = next }))
    × Chain h next cells

abbrev pub addresses : List (ℕ × ℕ) → List ℕ
addresses [] = []
addresses ((a, v) ∷ cells) = a ∷ addresses cells

abbrev pub values : List (ℕ × ℕ) → List ℕ
values [] = []
values ((a, v) ∷ cells) = v ∷ values cells

-- A change elsewhere leaves the list.
pub Chain-same :
    (h h' : Heap) (head : ℕ) (cells : List (ℕ × ℕ))
    → ((a : ℕ) → a ∈ addresses cells → h' a ≡ h a)
    → Chain h head cells
    → Chain h' head cells
Chain-same h h' head [] same c = c
Chain-same h h' head ((a, v) ∷ cells) same (at_a, some_a, next, here, rest) = (
  at_a,
  some_a,
  next,
  same a (inl refl) ∙ here,
  Chain-same h h' next cells (λ b m. same b (inr m)) rest,
)
