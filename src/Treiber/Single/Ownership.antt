-- ===== src/Treiber/Single/Ownership.antt =====
-- Who owns the nodes of the stack of src/treiber.rs, if one thread pops.
use samsara.Prelude.{ℕ, ◌≡◌, ◌≢◌, none, some, List, ◌∈◌, IsDistinct, ℕ_discrete, sym, ap, ◌∙◌}
use samsara.Memory.{null}
use samsara.Memory.Chain.{Chain, addresses, values}
use samsara.Lifo.{Call, idle, pushing, pushed, popping, popped}
use samsara.Lifo.Simulation.{Invariant, Keeps}
use samsara.Treiber.{
  Shared, Thread, resting, push_load, push_link, push_cas, push_done, pop_load, pop_next, pop_cas,
  pop_free, pop_done, treiber,
}

-- Who may change a node: nobody when it is not live, the thread that pushes it, the stack, or the
-- thread that has popped it.
pub data Owner : Type 0 where
  nobody : Owner
  fresh : (i : ℕ) → Owner
  stacked : Owner
  taken : (i : ℕ) → Owner

pub record Ghost : Type 0 where
  pub owner : ℕ → Owner
  pub cells : List (ℕ × ℕ)

pub record Sound (s : Shared) (g : Ghost) (xs : List ℕ) : Type 0 where
  pub contents : xs ≡ values g.cells
  pub chain : Chain s.heap s.head g.cells
  pub stacked : (a : ℕ) → a ∈ addresses g.cells → g.owner a ≡ stacked
  pub distinct : IsDistinct (addresses g.cells)
  pub unowned : (a : ℕ) → s.heap a ≡ none → g.owner a ≡ nobody

abbrev pub Holds : Shared → Ghost → ℕ → Owner → ℕ → ℕ → Type 0
Holds s g a o value next =
    (a ≢ null) × (g.owner a ≡ o) × (s.heap a ≡ some (record { value = value; next = next }))

module _ (may_pop : ℕ → Type 0) where
  abbrev pub At : ℕ → Shared → Ghost → Thread → Call → Type 0
  At i s g resting c = c ≡ idle
  At i s g (push_load new) c = (v next : ℕ) × Holds s g new (fresh i) v next × (c ≡ pushing v)
  At i s g (push_link new head) c = (v next : ℕ) × Holds s g new (fresh i) v next × (c ≡ pushing v)
  At i s g (push_cas new head) c = (v : ℕ) × Holds s g new (fresh i) v head × (c ≡ pushing v)
  At i s g push_done c = c ≡ pushed
  At i s g pop_load c = may_pop i × (c ≡ popping)
  At i s g (pop_next head) c =
      may_pop i × (c ≡ popping) × (v next : ℕ) × Holds s g head stacked v next
  At i s g (pop_cas head next) c =
      may_pop i × (c ≡ popping) × (v : ℕ) × Holds s g head stacked v next
  At i s g (pop_free head) c =
      (v next : ℕ) × Holds s g head (taken i) v next × (c ≡ popped (some v))
  At i s g (pop_done r) c = c ≡ popped r

  abbrev pub invariant : Invariant (treiber may_pop)
  invariant = record { Ghost = Ghost; Sound = Sound; At = At }

  -- What a change keeps for thread `j`: its nodes, and if it pops, those of the stack.
  record Frame (j : ℕ) (s : Shared) (g : Ghost) (s' : Shared) (g' : Ghost) : Type 0 where
    pushes : (a v n : ℕ) → Holds s g a (fresh j) v n → Holds s' g' a (fresh j) v n
    takes : (a v n : ℕ) → Holds s g a (taken j) v n → Holds s' g' a (taken j) v n
    pops : may_pop j → (a v n : ℕ) → Holds s g a stacked v n → Holds s' g' a stacked v n

  At-Frame :
      (j : ℕ) (s : Shared) (g : Ghost) (s' : Shared) (g' : Ghost) (t : Thread) (c : Call)
      → Frame j s g s' g'
      → At j s g t c
      → At j s' g' t c
  At-Frame j s g s' g' resting c f a = a
  At-Frame j s g s' g' (push_load new) c f (v, n, h, e) = (v, n, f.pushes new v n h, e)
  At-Frame j s g s' g' (push_link new head) c f (v, n, h, e) = (v, n, f.pushes new v n h, e)
  At-Frame j s g s' g' (push_cas new head) c f (v, h, e) = (v, f.pushes new v head h, e)
  At-Frame j s g s' g' push_done c f a = a
  At-Frame j s g s' g' pop_load c f a = a
  At-Frame j s g s' g' (pop_next head) c f (m, e, v, n, h) = (m, e, v, n, f.pops m head v n h)
  At-Frame j s g s' g' (pop_cas head next) c f (m, e, v, h) = (m, e, v, f.pops m head v next h)
  At-Frame j s g s' g' (pop_free head) c f (v, n, h, e) = (v, n, f.takes head v n h, e)
  At-Frame j s g s' g' (pop_done r) c f a = a

  -- One node changes hands or content; the nodes of others do not.
  module _ (s : Shared) (g : Ghost) (s' : Shared) (g' : Ghost) (a : ℕ)
      (same : (b : ℕ) → b ≢ a → (s'.heap b ≡ s.heap b) × (g'.owner b ≡ g.owner b)) where
    Holds-other : (o : Owner) (b v n : ℕ) → g.owner a ≢ o → Holds s g b o v n → Holds s' g' b o v n
    Holds-other o b v n ne (some_b, owned, here) = elim (ℕ_discrete b a) [
      | yes at_a ↦ absurd (ne (ap g.owner (sym at_a) ∙ owned))
      | no other ↦ let (h, w) = same b other in (some_b, w ∙ owned, h ∙ here)
    ]

    Frame-one :
        (j : ℕ)
        → g.owner a ≢ fresh j
        → g.owner a ≢ taken j
        → (may_pop j → g.owner a ≢ stacked)
        → Frame j s g s' g'
    Frame-one j not_fresh not_taken not_stacked = record {
      pushes = λ b v n. Holds-other (fresh j) b v n not_fresh;
      takes = λ b v n. Holds-other (taken j) b v n not_taken;
      pops = λ m b v n. Holds-other stacked b v n (not_stacked m);
    }

    -- The thread `i` that owns the node disturbs no other.
    pub Keeps-own :
        (i : ℕ)
        → ((j : ℕ)
            → j ≢ i
            → (g.owner a ≢ fresh j) × (g.owner a ≢ taken j) × (may_pop j → g.owner a ≢ stacked))
        → Keeps invariant i s g s' g'
    Keeps-own i own j t c ne =
        let (f, k, m) = own j ne in At-Frame j s g s' g' t c (Frame-one j f k m)

  pub Keeps-same : (i : ℕ) (s : Shared) (g : Ghost) → Keeps invariant i s g s g
  Keeps-same i s g j t c ne a = a
