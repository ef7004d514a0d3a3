-- ===== src/Arena.antt =====
-- The bump arena (src/arena.rs): `Arena` and its methods. A handle is the plain number in `Handle`.
-- A method returns its result and the arena after it; a panic of a slice is an `Outcome`.
pub mod Alloc
pub mod Bytes
mod Examples
use samsara.Prelude.{
  ℕ, ◌+◌, Option, none, some, List, ltb, if◌then◌else◌, length, replicate, Outcome, ok, panic, u32,
  checked_add, align_up, slice, copy_from_slice, ◌>>=◌,
}

pub record Handle : Type 0 where
  pub index : ℕ

pub record Arena : Type 0 where
  pub bytes : List ℕ
  pub offset : ℕ

unfoldable pub with_capacity : ℕ → Arena
with_capacity cap = record { bytes = replicate cap 0; offset = 0 }

pub capacity : Arena → ℕ
capacity a = length a.bytes

pub used : Arena → ℕ
used a = a.offset

unfoldable pub alloc : Arena → ℕ → Option Handle × Arena
alloc a size =
    let aligned = align_up a.offset in
    elim (checked_add aligned size) [
      | none ↦ (none, a)
      | some end ↦
          if ltb (length a.bytes) end
          then (none, a)
          else (some (record { index = u32 aligned }), record a { offset = end })
    ]

pub write : Arena → Handle → List ℕ → Outcome Arena
write a h items = copy_from_slice a.bytes h.index items >>= λ bytes. ok (record a { bytes = bytes })

pub read : Arena → Handle → ℕ → Outcome (List ℕ)
read a h len = slice a.bytes h.index len

pub reset : Arena → Arena
reset a = record a { offset = 0 }
