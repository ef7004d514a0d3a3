-- ===== src/Prelude/Bytes.antt =====
-- Reading and writing a range of a buffer: `&bytes[start..start + len]`, and `copy_from_slice` into
-- such a range. A range that does not fit panics; so does one whose end leaves `usize`, since a
-- wrapped end lies below the start.
use Prim.Native.Nat.{ℕ, zero, suc, ◌+◌, ◌-◌, ◌≤◌}
use mathlib.Core.Path.{◌≡◌, refl, sym, ap, subst, ◌∙◌}
use mathlib.Core.Logic.{◌⊎◌, inl, inr}
use mathlib.Core.List.{List, [], ◌∷◌, ◌++◌}
use native.Mathlib.Nat.{zero-add, suc-add, add_assoc}
use native.Mathlib.Omega.{arith}
use samsara.Prelude.Tests.{leb, if◌then◌else◌}
use samsara.Prelude.Lists.{length, take, drop, length-append, length-take, length-drop}
use samsara.Prelude.Panics.{Outcome, ok, panic}

module _ {A : Type 0} where
  unfoldable pub slice : List A → ℕ → ℕ → Outcome (List A)
  slice bytes start len =
      if leb (start + len) (length bytes) then ok (take len (drop start bytes)) else panic

  unfoldable pub overwrite : List A → ℕ → List A → List A
  overwrite bytes start items = take start bytes ++ (items ++ drop (start + length items) bytes)

  unfoldable pub copy_from_slice : List A → ℕ → List A → Outcome (List A)
  copy_from_slice bytes start items =
      if leb (start + length items) (length bytes) then ok (overwrite bytes start items) else panic

  take-append_self : (xs ys : List A) → take (length xs) (xs ++ ys) ≡ xs
  take-append_self [] ys = refl
  take-append_self (x ∷ xs) ys = ap (◌∷◌ x) (take-append_self xs ys)

  drop-take-append : (n : ℕ) (xs ys : List A) → n ≤ length xs → drop n (take n xs ++ ys) ≡ ys
  drop-take-append zero xs ys h = refl
  drop-take-append (suc n) [] ys h = absurd (omega arith)
  drop-take-append (suc n) (x ∷ xs) ys h = drop-take-append n xs ys (omega arith)

  pub length-overwrite :
      (bytes : List A) (start : ℕ) (items : List A)
      → start + length items ≤ length bytes
      → length (overwrite bytes start items) ≡ length bytes
  unfolding overwrite
  length-overwrite bytes start items h = omega (
    arith,
    length-append (take start bytes) (items ++ drop (start + length items) bytes),
    length-append items (drop (start + length items) bytes),
    length-take start bytes (omega arith),
    length-drop (start + length items) bytes,
  )

  -- A range below the write reads as before.
  take-drop-below :
      (s n k : ℕ) (bytes ys : List A)
      → s + n ≤ k
      → k ≤ length bytes
      → take n (drop s (take k bytes ++ ys)) ≡ take n (drop s bytes)
  take-drop-below zero zero k bytes ys h l = refl
  take-drop-below zero (suc n) zero bytes ys h l = absurd (omega arith)
  take-drop-below zero (suc n) (suc k) [] ys h l = absurd (omega arith)
  take-drop-below zero (suc n) (suc k) (b ∷ bytes) ys h l =
      ap (◌∷◌ b) (take-drop-below zero n k bytes ys (omega arith) (omega arith))
  take-drop-below (suc s) n zero bytes ys h l = absurd (omega arith)
  take-drop-below (suc s) n (suc k) [] ys h l = absurd (omega arith)
  take-drop-below (suc s) n (suc k) (b ∷ bytes) ys h l =
      take-drop-below s n k bytes ys (omega arith) (omega arith)

  drop-append : (d : ℕ) (xs ys : List A) → drop (length xs + d) (xs ++ ys) ≡ drop d ys
  drop-append d [] ys = rw zero-add
  drop-append d (x ∷ xs) ys = rw suc-add (drop-append d xs ys)

  drop-drop : (d m : ℕ) (xs : List A) → drop d (drop m xs) ≡ drop (m + d) xs
  drop-drop d zero xs = rw zero-add
  drop-drop zero (suc m) [] = rw suc-add
  drop-drop (suc d) (suc m) [] = rw suc-add
  drop-drop d (suc m) (x ∷ xs) = rw suc-add (drop-drop d m xs)

  -- A range above the write drops to the same rest as before.
  drop-overwrite_above :
      (bytes items : List A) (start d : ℕ)
      → start ≤ length bytes
      → drop (start + (length items + d)) (overwrite bytes start items)
        ≡ drop (start + (length items + d)) bytes
  unfolding overwrite
  drop-overwrite_above bytes items start d h =
      let rest = items ++ drop (start + length items) bytes in
      let skip : drop (start + (length items + d)) (take start bytes ++ rest)
          ≡ drop (length items + d) rest =
        subst
          (λ k.
            drop (k + (length items + d)) (take start bytes ++ rest) ≡ drop (length items + d) rest)
          (length-take start bytes h) (drop-append (length items + d) (take start bytes) rest) in
      skip
      ∙ drop-append d items (drop (start + length items) bytes)
      ∙ drop-drop d (start + length items) bytes
      ∙ ap (λ k. drop k bytes) (add_assoc start (length items) d)

  -- What was written is read back.
  pub slice-overwrite_self :
      (bytes items : List A) (start : ℕ)
      → start + length items ≤ length bytes
      → slice (overwrite bytes start items) start (length items) ≡ ok items
  unfolding slice
  slice-overwrite_self bytes items start h =
      let back : take (length items) (drop start (overwrite bytes start items)) ≡ items =
        unfold overwrite in
        rw (drop-take-append start bytes (items ++ drop (start + length items) bytes) (omega arith))
          (take-append_self items (drop (start + length items) bytes)) in
      rw back (ground (arith, length-overwrite bytes start items))

  -- A range that the write does not touch is read as before.
  pub slice-overwrite_apart :
      (bytes items : List A) (start s n : ℕ)
      → start + length items ≤ length bytes
      → (s + n ≤ start) ⊎ (start + length items ≤ s)
      → slice (overwrite bytes start items) s n ≡ slice bytes s n
  unfolding slice
  slice-overwrite_apart bytes items start s n h (inl below) =
      let same : take n (drop s (overwrite bytes start items)) ≡ take n (drop s bytes) =
        unfold overwrite in
        take-drop-below s n start bytes (items ++ drop (start + length items) bytes) below
          (omega arith) in
      rw (same, length-overwrite bytes start items h)
  slice-overwrite_apart bytes items start s n h (inr above) =
      let d : ℕ = s - (start + length items) in
      let e : s ≡ start + (length items + d) = omega arith in
      let same : drop s (overwrite bytes start items) ≡ drop s bytes =
        subst (λ k. drop k (overwrite bytes start items) ≡ drop k bytes) (sym e)
          (drop-overwrite_above bytes items start d (omega arith)) in
      rw (same, length-overwrite bytes start items h)
