-- ===== src/Arena/Alloc.antt =====
-- `Arena::alloc` (src/arena.rs): what it returns on each branch, and which bytes a handle names.
use samsara.Prelude.{
  ℕ, ◌+◌, ◌%◌, ◌^◌, ◌≤◌, ◌<◌, ◌≡◌, ◌↔◌, none, some, length, length-replicate, arith, align_up, u32,
  usize_mod,
}
use samsara.Arena.{Handle, Arena, with_capacity, capacity, used, alloc, reset}

-- The bump pointer is in the buffer, and the buffer is one that Rust can allocate.
pub record IsValid (a : Arena) : Type 0 where
  pub within : a.offset ≤ length a.bytes
  pub addressable : length a.bytes < 2 ^ 63

-- What `alloc` did: it took `size` bytes from `start` on.
pub record Took (a : Arena) (size start : ℕ) (a' : Arena) : Type 0 where
  pub aligned : start % 8 ≡ 0
  pub after : a.offset ≤ start
  pub near : start < a.offset + 8
  pub fits : start + size ≤ length a.bytes
  pub bumped : a' ≡ record a { offset = start + size }

module _ {a : Arena} (v : IsValid a) where
  -- In a valid arena, an allocation of a size that a `usize` holds fails exactly when the aligned
  -- block does not fit, and then the arena is as before. Otherwise it takes the first aligned block
  -- after the bump pointer, and the handle is the start of the block cut down to 32 bits.
  pub alloc_lem :
      (size : ℕ)
      → size < usize_mod
      → (((alloc a size).0 ≡ none) ↔ (capacity a < align_up a.offset + size))
        × ((alloc a size).0 ≡ none → (alloc a size).1 ≡ a)
        × ((h : Handle)
            → (alloc a size).0 ≡ some h
            → Took a size (align_up a.offset) (alloc a size).1
              × (h.index ≡ u32 (align_up a.offset)))
  unfolding alloc capacity
  alloc_lem size small = (ground arith, ground arith, λ h e. ground arith)

  pub alloc_fits :
      (size : ℕ)
      → align_up a.offset + size ≤ capacity a
      → alloc a size ≡ (
        some (record { index = u32 (align_up a.offset) }),
        record a { offset = align_up a.offset + size },
      )
  unfolding alloc capacity
  alloc_fits size fits = ground arith

  -- Allocation keeps the arena valid.
  pub alloc-IsValid : (size : ℕ) → IsValid (alloc a size).1
  unfolding alloc
  alloc-IsValid size = ground arith

  -- In an arena of at most 4 GiB a handle names its own block: an aligned block that lies after all
  -- earlier ones, ends at the new bump pointer and is in the buffer.
  pub alloc_block :
      (size : ℕ) (h : Handle) (a' : Arena)
      → capacity a ≤ 2 ^ 32
      → 0 < size
      → alloc a size ≡ (some h, a')
      → (h.index % 8 ≡ 0)
        × (used a ≤ h.index)
        × (h.index + size ≡ used a')
        × (used a' ≤ capacity a')
        × (a'.bytes ≡ a.bytes)
  unfolding alloc capacity used
  alloc_block size h a' small pos e = ground arith

  -- In a valid arena with at least 4 GiB in use, the handle of an allocation does not name the block
  -- that was taken: it lies at least 2^32 bytes before it, in memory that was handed out earlier.
  pub alloc_beyond_u32 :
      (size : ℕ) (h : Handle) (a' : Arena)
      → 2 ^ 32 ≤ used a
      → alloc a size ≡ (some h, a')
      → (h.index + size + 2 ^ 32 ≤ used a') × (h.index < used a)
  unfolding alloc used
  alloc_beyond_u32 size h a' far e = ground arith

  -- Reset starts again at zero and keeps the bytes.
  pub reset-IsValid : IsValid (reset a)
  unfolding reset
  reset-IsValid = ground arith

pub capacity-with_capacity : (cap : ℕ) → capacity (with_capacity cap) ≡ cap
unfolding capacity with_capacity
capacity-with_capacity cap = length-replicate cap (let z : ℕ = 0 in z)

-- A fresh arena is valid with the bump pointer anywhere in its buffer.
pub with_capacity-IsValid :
    (cap offset : ℕ)
    → cap < 2 ^ 63
    → offset ≤ cap
    → IsValid (record (with_capacity cap) { offset = offset })
unfolding capacity
with_capacity-IsValid cap offset h le = omega (arith, capacity-with_capacity cap)
