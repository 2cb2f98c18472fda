-- ===== src/Tests/MemoryWitnesses.antt =====
-- The theorems on pools, allocators and arrays at concrete inputs.
use rox.Prelude.{replicate, ◌+◌, ◌/◌, ◌≡◌, refl, arith, true, Option, none, some, [], ◌∷◌, ℕ}
use rox.Memory.Interface.{Allocator}
use rox.Memory.Slots.{IsPool, is_pool}
use rox.Memory.Pool
use rox.Memory.Inline
use rox.Memory.Arena
use rox.Memory.Cache
use rox.Memory.Serves
use rox.Arrays
use rox.Arrays.{push_all, capacity_for, Array}
use rox.Arrays.Grows.{push_all-Appends, resize-Resizes, Appends, Resizes, is_array}
use rox.Bits.{shifted}
use rox.Memory.Chunks.{no_chunks, allocate-Carves, Carves, allocate_stuck}
use rox.Memory.Blocks.{small_none, small, allocate_all-Apart, Apart}
use rox.Memory.Serves.{pools_none, is_cache}
use rox.Memory.Allocates.{allocate-Allocates, Allocates, deallocate-allocate}
use rox.Memory.Pool.{round_words}
use rox.Memory.Inline.{start, allocate_all, round_up}

-- Memory that never runs out, by the first address that is not in use.
abbrev heap : Allocator ℕ
heap = record {
  allocate = λ (m : ℕ) (n : ℕ). (some m, m + n);
  deallocate = λ (m : ℕ) (a : Option ℕ) (n : ℕ). m;
}

-- A pool of 32 objects of 8 bytes, the first of them taken.
abbrev small_pool : Pool.Pool
small_pool = record {
  object_size = 8;
  object_count = 32;
  words = 4096;
  occupied = 1 ∷ [];
  storage = 1024;
}

small_pool-IsPool : IsPool small_pool
small_pool-IsPool = is_pool refl (omega arith) (omega arith)

allocate-Allocates_example : Allocates small_pool (Pool.allocate small_pool)
allocate-Allocates_example = allocate-Allocates small_pool small_pool-IsPool

second_taken : Pool.allocate small_pool ≡ some (1032, Pool.mark small_pool 1)
unfolding Pool.allocate Pool.free_from Pool.test Pool.address shifted
second_taken = refl

deallocate-allocate_example :
    ((Pool.deallocate (Pool.mark small_pool 1) 1032).0 ≡ true)
    × ((j : ℕ)
        → Pool.test (Pool.deallocate (Pool.mark small_pool 1) 1032).1 j ≡ Pool.test small_pool j)
deallocate-allocate_example =
    deallocate-allocate small_pool 1032 (Pool.mark small_pool 1) small_pool-IsPool second_taken

abbrev made_pool : Pool.Pool
made_pool = record {
  object_size = 8;
  object_count = round_words 40;
  words = 4096;
  occupied = replicate (round_words 40 / 32) 0;
  storage = 1024;
}

abbrev empty_cache : Cache.Cache
empty_cache = record {
  pools = record { items = []; capacity = 0; at = none };
  object_size = 8;
  object_count = 32;
}

allocate-Serves_example : Serves.Serves heap empty_cache 16 (Cache.allocate heap 2 empty_cache 16)
allocate-Serves_example = Serves.allocate-Serves heap 0 empty_cache 16 (
    is_cache pools_none (is_array (omega arith)) (omega arith) (omega arith) (omega arith)
      (omega arith) (omega arith))

allocate_all-Apart_example :
    Apart 1024
      (1024 + round_up 64)
      (10 ∷ 32 ∷ 20 ∷ [])
      (allocate_all (start 1024 64) (10 ∷ 32 ∷ 20 ∷ []))
allocate_all-Apart_example =
    allocate_all-Apart (10 ∷ 32 ∷ 20 ∷ []) 1024 64 refl (omega arith)
      (small 10 (omega arith) (small 32 (omega arith) (small 20 (omega arith) small_none)))

abbrev buffer : Inline.Inline
buffer = record { base = 1024; capacity = 64; offset = 16 }

abbrev fuller_buffer : Inline.Inline
fuller_buffer = record { base = 1024; capacity = 64; offset = 32 }

allocate-Carves_example : Carves [] 100 (Arena.allocate heap 2 [] 100 0)
allocate-Carves_example = allocate-Carves heap 0 [] 100 0 no_chunks (omega arith) (omega arith)

allocate_stuck_example : Arena.allocate heap 50 [] 3000000 0 ≡ none
allocate_stuck_example = allocate_stuck heap 50 [] 3000000 0 (λ k b e. cc e) (omega arith) refl

abbrev no_numbers : Array ℕ
no_numbers = record { items = []; capacity = 0; at = none }

push_all-Appends_example :
    Appends heap no_numbers (5 ∷ 6 ∷ []) (push_all heap 8 no_numbers (5 ∷ 6 ∷ []) 16)
push_all-Appends_example =
    push_all-Appends heap 8 no_numbers (5 ∷ 6 ∷ []) 16 (is_array (omega arith)) (omega arith)

resize-Resizes_example : Resizes heap 0 no_numbers 3 (Arrays.resize heap 8 0 no_numbers 3 16)
resize-Resizes_example =
    resize-Resizes heap 8 0 no_numbers 3 16 (is_array (omega arith)) (omega arith)
