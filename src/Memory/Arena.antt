-- ===== src/Memory/Arena.antt =====
-- util/allocator.h, util/allocator.cpp: the allocator over chunks of another, and the one that tries a
-- buffer first.
use rox.Memory.Interface.{Allocator}
use rox.Prelude.{
  zero, suc, ◌+◌, ◌-◌, ◌*◌, ◌%◌, ◌^◌, Bool, false, if◌then◌else◌, Option, none, some, List, [], ◌∷◌,
  ◌==◌, ltb, ℕ,
}
use rox.Memory.Inline.{Inline, round_up}
use rox.Memory.Inline as Inline

-- The address of its bytes, its capacity and its offset.
pub record Chunk : Type 0 where
  pub place : ℕ
  pub capacity : ℕ
  pub offset : ℕ

-- `MIN_CHUNK_SIZE` and `sizeof(Chunk)`.
abbrev pub min_chunk_size : ℕ
min_chunk_size = 2 * 1024 * 1024

abbrev pub header : ℕ
header = 32

-- The chunks, `m_tail` first.
abbrev pub Arena : Type 0
Arena = List Chunk

-- An address or null, the arena and the memory behind it; none when the fuel is spent.
abbrev pub Reply : Type 0 → Type 0
Reply M = Option (Option ℕ × Arena × M)

abbrev pub chunk_size : ℕ → ℕ
chunk_size n = if ltb min_chunk_size n then n else min_chunk_size

abbrev pub new_chunk : ℕ → ℕ → Chunk
new_chunk p n = record { place = p + header; capacity = n; offset = 0 }

-- Whether the bytes fit in the last chunk.
abbrev pub fits : Arena → ℕ → Bool
fits [] n = false
fits (c ∷ cs) n = ltb ((c.offset + n) % 2 ^ 64) c.capacity

abbrev pub taken : Arena → ℕ → Option ℕ × Arena
taken [] n = (none, [])
taken (c ∷ cs) n = (some (c.place + c.offset), record c { offset = (c.offset + n) % 2 ^ 64 } ∷ cs)

module _ {M : Type 0} (al : Allocator M) where
  -- With a chunk more, or null; then the call of itself.
  abbrev pub chunked : (Arena → M → Reply M) → Arena → ℕ → Option ℕ × M → Reply M
  chunked again cs n (none, m) = some (none, cs, m)
  chunked again cs n (some p, m) = again (new_chunk p (chunk_size n) ∷ cs) m

  unfoldable pub allocate : ℕ → Arena → ℕ → M → Reply M
  allocate zero cs n m = none
  allocate (suc f) cs n m =
      if fits cs (round_up n)
      then some ((taken cs (round_up n)).0, (taken cs (round_up n)).1, m)
      else chunked (λ ds k. allocate f ds n k) cs (round_up n)
          (al.allocate m ((header + chunk_size (round_up n)) % 2 ^ 64))

  -- `clear`: every chunk goes back.
  unfoldable pub clear : Arena → M → M
  clear [] m = m
  clear (c ∷ cs) m =
      clear cs (al.deallocate m (some (c.place - header)) ((header + c.capacity) % 2 ^ 64))

-- With no chunk, `m_tail` is null where it is read: the model changes nothing.
unfoldable pub deallocate : Arena → Option ℕ → ℕ → Arena
deallocate cs none n = cs
deallocate [] (some old) n = []
deallocate (c ∷ cs) (some old) n =
    if c.place + c.offset == old
    then record c { offset = (c.offset + 2 ^ 64 - n) % 2 ^ 64 } ∷ cs
    else c ∷ cs

-- `ScratchAllocator`.
pub record Scratch : Type 0 where
  pub buffer : Inline
  pub arena : Arena

abbrev pub ScratchReply : Type 0 → Type 0
ScratchReply M = Option (Option ℕ × Scratch × M)

module _ {M : Type 0} where
  abbrev from_arena : Inline → Reply M → ScratchReply M
  from_arena b none = none
  from_arena b (some (a, cs, m)) = some (a, record { buffer = b; arena = cs }, m)

  abbrev or_arena : Scratch → (Arena → Reply M) → M → Option ℕ × Inline → ScratchReply M
  or_arena s k m (some a, b) = some (some a, record s { buffer = b }, m)
  or_arena s k m (none, b) = from_arena b (k s.arena)

module _ {M : Type 0} (al : Allocator M) where
  unfoldable pub allocate_scratch : ℕ → Scratch → ℕ → M → ScratchReply M
  allocate_scratch f s n m = or_arena s (λ cs. allocate al f cs n m) m (Inline.allocate s.buffer n)

  unfoldable pub clear_scratch : Scratch → M → Scratch × M
  clear_scratch s m = (record { buffer = Inline.clear s.buffer; arena = [] }, clear al s.arena m)

unfoldable pub deallocate_scratch : Scratch → Option ℕ → ℕ → Scratch
deallocate_scratch s old n =
    if Inline.owns s.buffer old n
    then record s { buffer = Inline.deallocate s.buffer old n }
    else record s { arena = deallocate s.arena old n }
