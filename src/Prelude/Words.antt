-- ===== src/Prelude/Words.antt =====
-- Machine integers: `usize` has 64 bits, `u32` has 32. A value is a plain number, and each place
-- where the code may leave the width is written out.
use Prim.Native.Nat.{ℕ, ◌+◌, ◌-◌, ◌%◌, ◌^◌}
use mathlib.Core.Option.{Option, none, some}
use samsara.Prelude.Tests.{ltb, if◌then◌else◌}

abbrev pub usize_mod : ℕ
usize_mod = 2 ^ 64

-- `x as u32`, and `u32` arithmetic that wraps.
abbrev pub u32 : ℕ → ℕ
u32 x = x % 2 ^ 32

-- `a.checked_add(b)` on `usize`.
abbrev pub checked_add : ℕ → ℕ → Option ℕ
checked_add a b = if ltb (a + b) usize_mod then some (a + b) else none

-- `const ALIGN: usize = 8`, and `(x + (ALIGN - 1)) & !(ALIGN - 1)`: the mask clears the low bits.
abbrev pub align : ℕ
align = 8

abbrev pub align_up : ℕ → ℕ
align_up x = let s = (x + (align - 1)) % usize_mod in s - s % align
