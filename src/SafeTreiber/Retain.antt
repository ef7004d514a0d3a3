-- ===== src/SafeTreiber/Retain.antt =====
-- The steps of `reclaim_locked` of src/safe_treiber.rs: those of `retain`.
use samsara.Prelude.{
  ℕ, ◌≡◌, ◌≢◌, ◌⊎◌, refl, none, some, true, false, List, [], ◌∷◌, ◌++◌, ◌∈◌, mem-append, IsDistinct,
  contains, contains_iff, inl, inr, ⊎_elim, Bool-cases, Option-cases, List-cases, ℕ_discrete, arith,
  subst, sym, ap, ◌∙◌,
}
use mathlib.Core.List.{append-nil, append_assoc}
use samsara.Memory.{Node, assign, done}
use samsara.SafeTreiber.{Shared, Pass, unlocked, reading_use, reading_ptr, retaining, reclaim}
use samsara.SafeTreiber.Invariant.{
  nobody, fresh, taken, retired, Seen, Ghost, Sound, IsCovered, At-Frame,
}
use samsara.SafeTreiber.Nodes.{Holds-other, Chain-assign, to}
use samsara.SafeTreiber.Scan.{ReclaimsTo, reads_use, reads_ptr}

-- An item in the middle of a list without repetition.
IsDistinct-middle :
    (xs : List ℕ) (a : ℕ) (ys : List ℕ)
    → IsDistinct (xs ++ (a ∷ ys))
    → IsDistinct (xs ++ ys) × ¬ (a ∈ (xs ++ ys))
IsDistinct-middle [] a ys (new, d) = (d, new)
IsDistinct-middle (x ∷ xs) a ys (ne, d) =
    let (d', new) = IsDistinct-middle xs a ys d in
    (
      (λ m. ne (ground (arith, m, mem-append x xs ys, mem-append x xs (a ∷ ys))), d'),
      λ m. ⊎_elim (λ e. ne (ground (arith, e, mem-append x xs (a ∷ ys)))) new m,
    )

module _ (i : ℕ) (s : Shared) (g : Ghost) (xs : List ℕ) (sound : Sound s g xs) where
  finishes :
      (hazards : List ℕ)
      → s.pass ≡ retaining hazards
      → s.retired ≡ []
      → ReclaimsTo i s g xs sound (reclaim s)
  unfolding reclaim
  finishes hazards at_pass none_left =
      let s1 : Shared = record s { retired = s.kept; kept = []; pass = unlocked } in
      let on : done (s1, true) ≡ reclaim s = rw (at_pass, none_left, reclaim) refl in
      let same : s.kept ++ s.retired ≡ s.kept =
        ap (λ l. s.kept ++ l) none_left ∙ append-nil s.kept in
      subst (ReclaimsTo i s g xs sound) on (record {
        ghost = g;
        still = record {
          contents = sound.contents;
          chain = sound.chain;
          in_stack = sound.in_stack;
          distinct = sound.distinct;
          unowned = sound.unowned;
          in_queue = λ a m. sound.in_queue a (subst (λ l. a ∈ l) (sym same) m);
          once = subst IsDistinct same sound.once;
          vacant = sound.vacant;
        };
        others = λ j t c ne. At-Frame j s g s1 g t c (record {
          pushes = λ a v n h. h;
          takes = λ a v n h. h;
          slots = λ idx ptr u. u;
          reads = λ idx a v n r. record {
            uses = r.uses;
            covered = tt;
            some_node = r.some_node;
            seen = r.seen;
            here = r.here;
          };
        });
      })

  -- What the pass says of a node that may be read, once the first entry is dealt with.
  IsCovered-rest :
      (hazards : List ℕ) (ptr : ℕ) (rest : List ℕ)
      → s.pass ≡ retaining hazards
      → s.retired ≡ ptr ∷ rest
      → (idx a : ℕ) → IsCovered s.retired s.pass idx a
      → IsCovered rest s.pass idx a × (¬ (a ≡ ptr) ⊎ (a ∈ hazards))
  IsCovered-rest hazards ptr rest at_pass entries idx a c =
      let old : ¬ (a ∈ s.retired) ⊎ (a ∈ hazards) =
        subst (λ q. IsCovered s.retired q idx a) at_pass c in
      let in_entries = λ (m : (a ≡ ptr) ⊎ (a ∈ rest)).
        let q : a ∈ s.retired = subst (λ l. a ∈ l) (sym entries) m in q in
      (
        subst (λ q. IsCovered rest q idx a) (sym at_pass)
            (⊎_elim (λ out. inl (λ m. out (in_entries (inr m)))) inr old),
        ⊎_elim (λ out. inl (λ e. out (in_entries (inl e)))) inr old,
      )

  keeps_entry :
      (hazards : List ℕ) (ptr : ℕ) (rest : List ℕ)
      → s.pass ≡ retaining hazards
      → s.retired ≡ ptr ∷ rest
      → contains ℕ_discrete hazards ptr ≡ true
      → ReclaimsTo i s g xs sound (reclaim s)
  unfolding reclaim
  keeps_entry hazards ptr rest at_pass entries hazarded =
      let s1 : Shared = record s { retired = rest; kept = s.kept ++ ptr ∷ [] } in
      let on : done (s1, false) ≡ reclaim s = ground (arith, at_pass, entries, hazarded) in
      let same : s.kept ++ s.retired ≡ s1.kept ++ rest =
        ap (λ l. s.kept ++ l) entries ∙ sym (append_assoc s.kept (ptr ∷ []) rest) in
      subst (ReclaimsTo i s g xs sound) on (record {
        ghost = g;
        still = record {
          contents = sound.contents;
          chain = sound.chain;
          in_stack = sound.in_stack;
          distinct = sound.distinct;
          unowned = sound.unowned;
          in_queue = λ a m. sound.in_queue a (subst (λ l. a ∈ l) (sym same) m);
          once = subst IsDistinct same sound.once;
          vacant = sound.vacant;
        };
        others = λ j t c ne. At-Frame j s g s1 g t c (record {
          pushes = λ a v n h. h;
          takes = λ a v n h. h;
          slots = λ idx ptr u. u;
          reads = λ idx a v n r. record {
            uses = r.uses;
            covered = (IsCovered-rest hazards ptr rest at_pass entries idx a r.covered).0;
            some_node = r.some_node;
            seen = r.seen;
            here = r.here;
          };
        });
      })

  frees_entry :
      (hazards : List ℕ) (ptr : ℕ) (rest : List ℕ)
      → s.pass ≡ retaining hazards
      → s.retired ≡ ptr ∷ rest
      → contains ℕ_discrete hazards ptr ≡ false
      → ReclaimsTo i s g xs sound (reclaim s)
  unfolding reclaim
  frees_entry hazards ptr rest at_pass entries safe =
      let owned : g.owner ptr ≡ retired = sound.in_queue ptr (
        (mem-append ptr s.kept s.retired).1
          (inr (subst (λ l. ptr ∈ l) (sym entries) (inl refl)))) in
      let (node, here) : (n : Node) × (s.heap ptr ≡ some n) = elim (Option-cases (s.heap ptr)) [
        | inl freed ↦ let q = sound.unowned ptr freed in cc
        | inr live ↦ live
      ] in
      let s1 : Shared = record s { heap = assign s.heap ptr none; retired = rest } in
      let g1 = to i s g xs sound ptr nobody in
      let on : done (s1, false) ≡ reclaim s = ground (arith, at_pass, entries, safe, here) in
      let (once, gone) =
        IsDistinct-middle s.kept ptr rest
          (subst (λ l. IsDistinct (s.kept ++ l)) entries sound.once) in
      let elsewhere = λ (b : ℕ) (ne : b ≢ ptr).
        let q : (s1.heap b ≡ s.heap b) × (g1.owner b ≡ g.owner b) = (ground arith, ground arith) in
        q in
      subst (ReclaimsTo i s g xs sound) on (record {
        ghost = g1;
        still = record {
          contents = sound.contents;
          chain = Chain-assign i s g xs sound ptr none (λ q. cc);
          in_stack = λ b m. ground (arith, sound.in_stack b m, owned, ℕ_discrete b ptr);
          distinct = sound.distinct;
          unowned = λ b q. ground (arith, q, sound.unowned b, ℕ_discrete b ptr);
          in_queue = λ b m.
              let ne : b ≢ ptr = λ e. gone (subst (λ x. x ∈ (s.kept ++ rest)) e m) in
              let old : b ∈ (s.kept ++ (ptr ∷ rest)) =
                ground (arith, m, mem-append b s.kept rest, mem-append b s.kept (ptr ∷ rest)) in
              (elsewhere b ne).1
              ∙ sound.in_queue b (subst (λ l. b ∈ (s.kept ++ l)) (sym entries) old);
          once = once;
          vacant = sound.vacant;
        };
        others = λ j t c ne. At-Frame j s g s1 g1 t c (record {
          pushes = λ b v n. Holds-other s g s1 g1 ptr elsewhere refl refl (fresh j) b v n (λ q. cc);
          takes = λ b v n. Holds-other s g s1 g1 ptr elsewhere refl refl (taken j) b v n (λ q. cc);
          slots = λ idx p u. u;
          reads = λ idx b v n r.
              let (covered, other) =
                IsCovered-rest hazards ptr rest at_pass entries idx b r.covered in
              let ne_ptr : b ≢ ptr =
                ⊎_elim (λ q. q)
                  (λ m e.
                    let hit =
                      (contains_iff ℕ_discrete hazards ptr).1 (subst (λ x. x ∈ hazards) e m) in
                    cc)
                  other in
              record {
                uses = r.uses;
                covered = covered;
                some_node = r.some_node;
                seen = subst Seen (sym (elsewhere b ne_ptr).1) r.seen;
                here = (elsewhere b ne_ptr).0 ∙ r.here;
              };
        });
      })

  retains : (hazards : List ℕ) → s.pass ≡ retaining hazards → ReclaimsTo i s g xs sound (reclaim s)
  retains hazards at_pass = elim (List-cases s.retired) [
    | inl none_left ↦ finishes hazards at_pass none_left
    | inr (ptr, rest, entries) ↦ elim (Bool-cases (contains ℕ_discrete hazards ptr)) [
      | inl hazarded ↦ keeps_entry hazards ptr rest at_pass entries hazarded
      | inr safe ↦ frees_entry hazards ptr rest at_pass entries safe
    ]
  ]

  pub reclaim_at : (p : Pass) → s.pass ≡ p → ReclaimsTo i s g xs sound (reclaim s)
  unfolding reclaim
  reclaim_at unlocked at_pass =
      let on : done (s, true) ≡ reclaim s = ground (arith, at_pass) in
      subst (ReclaimsTo i s g xs sound) on
        (record { ghost = g; still = sound; others = λ j t c ne a. a })
  reclaim_at (reading_use k found) at_pass = reads_use i s g xs sound k found at_pass
  reclaim_at (reading_ptr k found) at_pass = reads_ptr i s g xs sound k found at_pass
  reclaim_at (retaining hazards) at_pass = retains hazards at_pass
