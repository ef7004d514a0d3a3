-- ===== src/Arena/Examples.antt =====
-- The unit tests of src/arena.rs as evaluations, and the theorems at concrete arenas.
use samsara.Prelude.{
  ℕ, ◌+◌, ◌^◌, ◌≤◌, ◌<◌, ◌≡◌, refl, ◌↔◌, ◌⊎◌, Option, none, some, List, [], ◌∷◌, Outcome, ok, panic,
  arith, align_up, u32, ◌>>=◌, slice, copy_from_slice, overwrite,
}
use samsara.Arena.{Handle, Arena, with_capacity, capacity, used, alloc, write, read, reset}
use samsara.Arena.Alloc.{
  IsValid, Took, with_capacity-IsValid, capacity-with_capacity, alloc_fits, alloc_lem,
  alloc_beyond_u32,
}
use samsara.Arena.Bytes.{write-panic_iff, read-write, alloc-write-read}

abbrev at_index : ℕ → Handle
at_index i = record { index = i }

-- fn alloc_advances_offset_with_alignment
alloc_advances_offset_with_alignment : Option Handle × Option Handle
unfolding alloc with_capacity
alloc_advances_offset_with_alignment =
    let (h0, a) = alloc (with_capacity 64) 3 in (h0, (alloc a 5).0)

alloc_advances : alloc_advances_offset_with_alignment ≡ (some (at_index 0), some (at_index 8))
unfolding alloc_advances_offset_with_alignment
alloc_advances = refl

-- fn alloc_returns_none_on_oom
alloc_returns_none_on_oom : Option Handle × Option Handle × Option Handle
unfolding alloc with_capacity
alloc_returns_none_on_oom =
    let (h0, a) = alloc (with_capacity 16) 8 in let (h1, b) = alloc a 8 in (h0, h1, (alloc b 1).0)

alloc_oom : alloc_returns_none_on_oom ≡ (some (at_index 0), some (at_index 8), none)
unfolding alloc_returns_none_on_oom
alloc_oom = refl

-- fn write_then_read_round_trips
write_then_read_round_trips : Outcome (List ℕ)
unfolding alloc with_capacity write read slice copy_from_slice overwrite
write_then_read_round_trips =
    let (h, a) = alloc (with_capacity 64) 4 in
    elim h [
      | none ↦ panic
      | some h ↦ write a h (0xde ∷ 0xad ∷ 0xbe ∷ 0xef ∷ []) >>= λ b. read b h 4
    ]

round_trip : write_then_read_round_trips ≡ ok (0xde ∷ 0xad ∷ 0xbe ∷ 0xef ∷ [])
unfolding write_then_read_round_trips
round_trip = refl

-- fn reset_zeros_offset
reset_zeros_offset : ℕ × ℕ
unfolding alloc with_capacity reset used
reset_zeros_offset = let a = (alloc (with_capacity 64) 16).1 in (used a, used (reset a))

reset_zeros : reset_zeros_offset ≡ (16, 0)
unfolding reset_zeros_offset
reset_zeros = refl

-- An arena of 16 bytes with 3 of them in use.
abbrev small : Arena
small = record {
  bytes = 1 ∷ 2 ∷ 3 ∷ 4 ∷ 5 ∷ 6 ∷ 7 ∷ 8 ∷ 0 ∷ 0 ∷ 0 ∷ 0 ∷ 0 ∷ 0 ∷ 0 ∷ 0 ∷ [];
  offset = 3;
}

small-IsValid : IsValid small
small-IsValid = omega arith

abbrev taken : Arena
taken = record small { offset = 12 }

alloc-small : alloc small 4 ≡ (some (at_index 8), taken)
unfolding alloc
alloc-small = refl

alloc_lem_example :
    (((alloc small 20).0 ≡ none) ↔ (capacity small < align_up 3 + 20))
    × ((alloc small 20).0 ≡ none → (alloc small 20).1 ≡ small)
    × ((h : Handle)
        → (alloc small 20).0 ≡ some h
        → Took small 20 (align_up 3) (alloc small 20).1 × (h.index ≡ u32 (align_up 3)))
alloc_lem_example = alloc_lem small-IsValid 20 (omega arith)

write-panic_iff_example :
    (write small (at_index 14) (9 ∷ 9 ∷ 9 ∷ []) ≡ panic) ↔ (capacity small < 14 + 3)
write-panic_iff_example = write-panic_iff small (at_index 14) (9 ∷ 9 ∷ 9 ∷ [])

fits_small : 8 + 2 ≤ capacity small
unfolding capacity
fits_small = omega arith

read-write_example :
    (a' : Arena) × (write small (at_index 8) (9 ∷ 7 ∷ []) ≡ ok a')
    × (used a' ≡ used small)
    × (capacity a' ≡ capacity small)
    × (read a' (at_index 8) 2 ≡ ok (9 ∷ 7 ∷ []))
    × ((k : Handle) (n : ℕ) → (k.index + n ≤ 8) ⊎ (8 + 2 ≤ k.index) → read a' k n ≡ read small k n)
read-write_example = read-write small (at_index 8) (9 ∷ 7 ∷ []) fits_small

small-capacity : capacity small ≤ 2 ^ 32
unfolding capacity
small-capacity = omega arith

alloc-write-read_example :
    (a'' : Arena) × (write taken (at_index 8) (4 ∷ 3 ∷ 2 ∷ 1 ∷ []) ≡ ok a'')
    × (read a'' (at_index 8) 4 ≡ ok (4 ∷ 3 ∷ 2 ∷ 1 ∷ []))
    × ((k : Handle) (n : ℕ) → k.index + n ≤ used small → read a'' k n ≡ read small k n)
alloc-write-read_example =
    alloc-write-read small-IsValid 4 (at_index 8) taken (4 ∷ 3 ∷ 2 ∷ 1 ∷ []) small-capacity
      (omega arith) alloc-small refl

-- An arena of 4 GiB and 64 bytes, with 4 GiB in use.
huge : Arena
huge = record (with_capacity (2 ^ 32 + 64)) { offset = 2 ^ 32 }

huge-IsValid : IsValid huge
unfolding huge
huge-IsValid = with_capacity-IsValid (2 ^ 32 + 64) (2 ^ 32) (omega arith) (omega arith)

huge_fits : align_up huge.offset + 8 ≤ capacity huge
unfolding huge capacity
huge_fits = omega (arith, capacity-with_capacity (2 ^ 32 + 64))

huge_offset : huge.offset ≡ 2 ^ 32
unfolding huge
huge_offset = refl

huge-used : 2 ^ 32 ≤ used huge
unfolding used
huge-used = omega (arith, huge_offset)

abbrev huge_handle : Handle
huge_handle = at_index (u32 (align_up huge.offset))

abbrev huge_after : Arena
huge_after = record huge { offset = align_up huge.offset + 8 }

alloc_beyond_u32_example :
    (huge_handle.index + 8 + 2 ^ 32 ≤ used huge_after) × (huge_handle.index < used huge)
alloc_beyond_u32_example =
    alloc_beyond_u32 huge-IsValid 8 huge_handle huge_after huge-used
      (alloc_fits huge-IsValid 8 huge_fits)
