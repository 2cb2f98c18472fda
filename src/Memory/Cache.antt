-- ===== src/Memory/Cache.antt =====
-- util/pool.h, util/pool.cpp: a growing row of pools for objects of one size.
use rox.Prelude.{
  zero, suc, ◌*◌, ◌/◌, ◌%◌, ◌^◌, Bool, true, false, if◌then◌else◌, Option, none, some, List, [],
  ◌∷◌, ℕ,
}
use rox.Memory.Interface.{Allocator}
use rox.Memory.Pool.{round_words, Pool}
use rox.Memory.Pool
use rox.Arrays.{Array}
use rox.Arrays

pub record Cache : Type 0 where
  pub pools : Array Pool
  pub object_size : ℕ
  pub object_count : ℕ

-- The first of the pools that has a free slot.
abbrev pub kept : Pool → Option (ℕ × List Pool) → Option (ℕ × List Pool)
kept p none = none
kept p (some (a, ps)) = some (a, p ∷ ps)

abbrev pub here_or :
    Pool → List Pool → Option (ℕ × List Pool) → Option (ℕ × Pool) → Option (ℕ × List Pool)
here_or p ps r none = kept p r
here_or p ps r (some (a, q)) = some (a, q ∷ ps)

unfoldable pub allocate_in : List Pool → Option (ℕ × List Pool)
allocate_in [] = none
allocate_in (p ∷ ps) = here_or p ps (allocate_in ps) (Pool.allocate p)

unfoldable pub deallocate_in : List Pool → ℕ → Bool × List Pool
deallocate_in [] addr = (false, [])
deallocate_in (p ∷ ps) addr =
    if (Pool.deallocate p addr).0
    then (true, (Pool.deallocate p addr).1 ∷ ps)
    else ((deallocate_in ps addr).0, (Pool.deallocate p addr).1 ∷ (deallocate_in ps addr).1)

-- `sizeof(Pool)`.
abbrev pub pool_bytes : ℕ
pool_bytes = 40

abbrev pub object_bytes : ℕ → ℕ → ℕ
object_bytes size n = round_words n * size % 2 ^ 64

-- An address or null, the cache and the memory behind it; none when the fuel is spent.
abbrev pub Reply : Type 0 → Type 0
Reply M = Option (Option ℕ × Cache × M)

module _ {M : Type 0} (al : Allocator M) where
  abbrev pub with_words : ℕ → ℕ → ℕ → ℕ → Option ℕ × M → Option Pool × M
  with_words at bytes size n (none, m) = (none, al.deallocate m (some at) bytes)
  with_words at bytes size n (some w, m) = (Pool.make (some at) (some w) size n, m)

  abbrev pub with_objects : ℕ → ℕ → ℕ → Option ℕ × M → Option Pool × M
  with_objects bytes size n (none, m) = (none, m)
  with_objects bytes size n (some at, m) =
      with_words at bytes size n (al.allocate m (round_words n / 32 * 4))

  -- `Pool::make` with its two allocations.
  unfoldable pub make_pool : ℕ → ℕ → M → Option Pool × M
  make_pool size n m =
      with_objects (object_bytes size n) size n (al.allocate m (object_bytes size n))

  -- A pool is destroyed.
  abbrev pub dropped : Pool → M → M
  dropped p m =
      al.deallocate (al.deallocate m (some p.storage) (p.object_size * p.object_count % 2 ^ 64))
        (some p.words) (p.object_count / 32 * 4)

  -- A pool that finds no room in the row is destroyed. What is left of one that was moved gives null
  -- back to the allocator when the call is over, which is left out.
  abbrev pub added : (Cache → M → Reply M) → Cache → Pool → Arrays.Outcome Pool M → Reply M
  added again c p (true, ps, m) = again (record c { pools = ps }) m
  added again c p (false, ps, m) = some (none, c, dropped p m)

  abbrev pub with_pool : (Cache → M → Reply M) → Cache → Option Pool × M → Reply M
  with_pool again c (none, m) = some (none, c, m)
  with_pool again c (some p, m) = added again c p (Arrays.push_back al pool_bytes c.pools p m)

  abbrev pub or_more : (Cache → M → Reply M) → Cache → M → Option (ℕ × List Pool) → Reply M
  or_more again c m none = with_pool again c (make_pool c.object_size c.object_count m)
  or_more again c m (some (a, ps)) =
      some (some a, record c { pools = record c.pools { items = ps } }, m)

  unfoldable pub allocate : ℕ → Cache → M → Reply M
  allocate zero c m = none
  allocate (suc f) c m = or_more (allocate f) c m (allocate_in c.pools.items)

unfoldable pub deallocate : Cache → ℕ → Bool × Cache
deallocate c addr = (
  (deallocate_in c.pools.items addr).0,
  record c { pools = record c.pools { items = (deallocate_in c.pools.items addr).1 } },
)
