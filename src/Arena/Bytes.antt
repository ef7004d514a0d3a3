-- ===== src/Arena/Bytes.antt =====
-- `Arena::write` and `Arena::read` (src/arena.rs): which calls panic, and what is read back.
use samsara.Prelude.{
  ℕ, ◌+◌, ◌^◌, ◌≤◌, ◌<◌, ◌≡◌, ◌↔◌, ◌⊎◌, inl, ◌∙◌, ap, subst, some, List, length, arith, panic, ok,
  slice, copy_from_slice, overwrite, length-overwrite, slice-overwrite_self, slice-overwrite_apart,
}
use samsara.Arena.{Handle, Arena, capacity, used, alloc, write, read}
use samsara.Arena.Alloc.{IsValid, alloc_block}

-- A write panics exactly when the range does not fit the buffer.
pub write-panic_iff :
    (a : Arena) (h : Handle) (items : List ℕ)
    → (write a h items ≡ panic) ↔ (capacity a < h.index + length items)
unfolding write capacity copy_from_slice
write-panic_iff a h items = ground arith

-- A write that fits keeps the bump pointer and the capacity, reads back, and leaves every range
-- that it does not meet as it was.
pub read-write :
    (a : Arena) (h : Handle) (items : List ℕ)
    → h.index + length items ≤ capacity a
    → (a' : Arena) × (write a h items ≡ ok a')
      × (used a' ≡ used a)
      × (capacity a' ≡ capacity a)
      × (read a' h (length items) ≡ ok items)
      × ((k : Handle) (n : ℕ)
          → (k.index + n ≤ h.index) ⊎ (h.index + length items ≤ k.index)
          → read a' k n ≡ read a k n)
unfolding write read capacity used copy_from_slice
read-write a h items fits = (
  record a { bytes = overwrite a.bytes h.index items },
  ground arith,
  ground arith,
  length-overwrite a.bytes h.index items fits,
  slice-overwrite_self a.bytes items h.index fits,
  λ k n apart. slice-overwrite_apart a.bytes items h.index k.index n fits apart,
)

-- In a valid arena of at most 4 GiB, the block of a fresh handle, if it is not empty, can be written
-- and read back in full, and all that was handed out before it reads as it did.
pub alloc-write-read :
    {a : Arena} (v : IsValid a) (size : ℕ) (h : Handle) (a' : Arena) (items : List ℕ)
    → capacity a ≤ 2 ^ 32
    → 0 < size
    → alloc a size ≡ (some h, a')
    → length items ≡ size
    → (a'' : Arena) × (write a' h items ≡ ok a'')
      × (read a'' h size ≡ ok items)
      × ((k : Handle) (n : ℕ) → k.index + n ≤ used a → read a'' k n ≡ read a k n)
alloc-write-read {a} v size h a' items small pos e len =
    let (_, after, ends, within, same) = alloc_block v size h a' small pos e in
    let (a'', done, _, _, back, frame) = read-write a' h items (omega arith) in
    (
      a'',
      done,
      subst (λ n. read a'' h n ≡ ok items) len back,
      λ k n old. frame k n (inl (omega arith)) ∙ unfold read in ap (λ b. slice b k.index n) same,
    )
