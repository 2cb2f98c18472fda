-- ===== src/Memory/Inline.antt =====
-- util/allocator.h: the allocator over a buffer of its own.
use rox.Prelude.{
  ◌+◌, ◌-◌, ◌*◌, ◌/◌, ◌%◌, ◌^◌, Bool, false, if◌then◌else◌, Option, none, some, List, [], ◌∷◌, ◌==◌,
  ltb, leb, ◌&&◌, ℕ,
}

-- Sizes in units of `ALIGN`, 16.
abbrev pub round_up : ℕ → ℕ
round_up n = (n + 15) % 2 ^ 64 / 16 * 16

-- The address of `m_data`, the capacity and the offset.
pub record Inline : Type 0 where
  pub base : ℕ
  pub capacity : ℕ
  pub offset : ℕ

-- `CAPACITY` from the size asked for.
unfoldable pub start : ℕ → ℕ → Inline
start base n = record { base = base; capacity = round_up n; offset = 0 }

unfoldable pub allocate : Inline → ℕ → Option ℕ × Inline
allocate s n =
    if leb s.capacity ((s.offset + round_up n) % 2 ^ 64)
    then (none, s)
    else (some (s.base + s.offset), record s { offset = (s.offset + round_up n) % 2 ^ 64 })

unfoldable pub deallocate : Inline → Option ℕ → ℕ → Inline
deallocate s none n = s
deallocate s (some old) n =
    if s.base + s.offset == old then record s { offset = (s.offset + 2 ^ 64 - n) % 2 ^ 64 } else s

unfoldable pub owns : Inline → Option ℕ → ℕ → Bool
owns s none n = false
owns s (some old) n = leb s.base old && ltb (old + n) (s.base + s.capacity)

unfoldable pub clear : Inline → Inline
clear s = record s { offset = 0 }

-- What requests of some sizes are given.
unfoldable pub allocate_all : Inline → List ℕ → List (Option ℕ)
allocate_all s [] = []
allocate_all s (n ∷ ns) = (allocate s n).0 ∷ allocate_all (allocate s n).1 ns
