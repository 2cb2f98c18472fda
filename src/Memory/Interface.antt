-- ===== src/Memory/Interface.antt =====
-- util/allocator.h: the interface `Allocator`, over the state of whatever gives the memory.
use rox.Prelude.{ℕ, ◌≡◌, Option, none}

pub record Allocator (M : Type 0) : Type 0 where
  -- An address, or null.
  pub allocate : M → ℕ → Option ℕ × M
  -- An address, null too, and a size.
  pub deallocate : M → Option ℕ → ℕ → M

-- The allocator has given null for the last request, and left this memory.
pub data Refused {M : Type 0} (al : Allocator M) (m : M) : Type 0 where
  refused : (m0 : M) (bytes : ℕ) → al.allocate m0 bytes ≡ (none, m) → Refused al m
