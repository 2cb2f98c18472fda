-- ===== src/Memory/Pool.antt =====
-- util/pool.h, util/pool.cpp: a pool of objects of one size, with a bit for each that says whether it
-- is taken.
use rox.Prelude.{
  set, replicate, get_or, zero, suc, ◌+◌, ◌-◌, ◌*◌, ◌/◌, ◌%◌, ◌^◌, Bool, true, false, if◌then◌else◌,
  Option, none, some, List, ◌==◌, ltb, ◌||◌, not, ℕ,
}
use Prim.Native.Nat.{bit_and, bit_or}
use rox.Bits.{shifted}

-- Addresses are numbers. `occupied` is words of 32 bits, which stand at `words`.
pub record Pool : Type 0 where
  pub object_size : ℕ
  pub object_count : ℕ
  pub words : ℕ
  pub occupied : List ℕ
  pub storage : ℕ

abbrev pub word_of : Pool → ℕ → ℕ
word_of p i = get_or p.occupied (i / 32) 0

-- `Ulen(1) << (index % 32)` and the store into a word of 32 bits.
unfoldable pub mark : Pool → ℕ → Pool
mark p i = record p {
  occupied = set p.occupied (i / 32) (bit_or (word_of p i) (shifted (i % 32)) % 2 ^ 32);
}

unfoldable pub clear : Pool → ℕ → Pool
clear p i = record p {
  occupied =
      set p.occupied (i / 32) (bit_and (word_of p i) (2 ^ 64 - 1 - shifted (i % 32)) % 2 ^ 32);
}

unfoldable pub test : Pool → ℕ → Bool
test p i = not (bit_and (word_of p i) (shifted (i % 32)) == 0)

-- The product is a word of 64 bits.
unfoldable pub address : Pool → ℕ → ℕ
address p i = p.storage + p.object_size * i % 2 ^ 64

-- `Pool::make`, where the allocator gives the storage and the words at the addresses asked for. It
-- rounds the count up to whole words.
abbrev pub round_words : ℕ → ℕ
round_words n = bit_and ((n + 31) % 2 ^ 64) (2 ^ 64 - 32)

unfoldable pub make : Option ℕ → Option ℕ → ℕ → ℕ → Option Pool
make none words size n = none
make (some at) none size n = none
make (some at) (some words) size n = some record {
  object_size = size;
  object_count = round_words n;
  words = words;
  occupied = replicate (round_words n / 32) 0;
  storage = at;
}

-- The loop of `allocate`, with so many slots left.
unfoldable pub free_from : ℕ → ℕ → Pool → Option ℕ
free_from zero i p = none
free_from (suc n) i p = if test p i then free_from n (suc i) p else some i

abbrev pub taken_at : Pool → Option ℕ → Option (ℕ × Pool)
taken_at p none = none
taken_at p (some i) = some (address p i, mark p i)

unfoldable pub allocate : Pool → Option (ℕ × Pool)
allocate p = taken_at p (free_from p.object_count 0 p)

unfoldable pub deallocate : Pool → ℕ → Bool × Pool
deallocate p addr =
    if ltb addr p.storage || ltb (p.storage + p.object_count * p.object_size % 2 ^ 64) addr
    then (false, p)
    else (true, clear p ((addr - p.storage) / p.object_size))
