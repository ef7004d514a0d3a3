-- ===== src/Memory.antt =====
-- The memory that the lock-free stacks share (src/treiber.rs, src/safe_treiber.rs): raw pointers to
-- nodes. The allocator is Rust's: an allocation returns any address that is not null and not live.
pub mod Chain
use samsara.Prelude.{ℕ, Option, ◌==◌, if◌then◌else◌}

abbrev pub null : ℕ
null = 0

pub record Node : Type 0 where
  pub value : ℕ
  pub next : ℕ

-- The live nodes by their addresses.
abbrev pub Heap : Type 0
Heap = ℕ → Option Node

abbrev pub assign : Heap → ℕ → Option Node → Heap
assign h a x b = if b == a then x else h b

-- What a step of unsafe code comes to. `undefined` is a read, a write or a free at an address that is
-- not live.
pub data Effect (A : Type 0) : Type 0 where
  done : A → Effect A
  panics : Effect A
  undefined : Effect A

infixl 5 ◌>>=◌
abbrev pub ◌>>=◌ : {A B : Type 0} → Effect A → (A → Effect B) → Effect B
done a >>= f = f a
panics >>= f = panics
undefined >>= f = undefined
