-- ===== src/Memory/Chunks.antt =====
-- What the arena of util/allocator.cpp gives.
use rox.Memory.Inline.{round_up}
use rox.Prelude.{
  Bool-cases, ◌≢◌, zero, suc, ◌+◌, ◌%◌, ◌^◌, ◌≤◌, ◌<◌, ◌≡◌, refl, arith, inl, inr, true, false,
  Option, none, some, [], ◌∷◌, ℕ,
}
use rox.Memory.Arena.{
  chunk_size, header, new_chunk, min_chunk_size, Arena, Chunk, Reply, allocate, chunked, fits,
  taken,
}
use rox.Memory.Interface.{Allocator}

-- A block within the last chunk, and below its offset; or null, with the arena as it was.
pub data Carves {M : Type 0} (cs : Arena) (n : ℕ) : Reply M → Type 0 where
  carves :
      (a : ℕ) (c : Chunk) (ds : Arena) (m : M)
      → c.place ≤ a
      → a + n ≤ c.place + c.offset
      → c.offset < c.capacity
      → Carves cs n (some (some a, c ∷ ds, m))
  carves_none : (m : M) → Carves cs n (some (none, cs, m))

-- The chunks' capacities.
pub data AreChunks : Arena → Type 0 where
  no_chunks : AreChunks []
  chunks :
      (c : Chunk) {cs : Arena}
      → c.capacity < 2 ^ 62
      → c.offset ≤ c.capacity
      → AreChunks cs
      → AreChunks (c ∷ cs)

taken-Carves :
    {M : Type 0} (es cs : Arena) (n : ℕ) (m : M)
    → AreChunks cs
    → n < 2 ^ 62
    → fits cs (round_up n) ≡ true
    → Carves es n (some ((taken cs (round_up n)).0, (taken cs (round_up n)).1, m))
taken-Carves es [] n m w h e = absurd (cc e)
taken-Carves es (c ∷ cs) n m (chunks _ k o w) h e =
    let f : (c.offset + round_up n) % 2 ^ 64 < c.capacity = ground (arith, e) in
    carves _ _ _ m (omega arith) (omega (arith, f)) (omega (arith, f))

module _ {M : Type 0} (al : Allocator M) where
  fits_new :
      (p n : ℕ) (cs : Arena)
      → round_up n < min_chunk_size
      → fits (new_chunk p (chunk_size (round_up n)) ∷ cs) (round_up n) ≡ true
  fits_new p n cs h = ground (arith, h)

  fits_never :
      (p n : ℕ) (cs : Arena)
      → min_chunk_size ≤ round_up n
      → fits (new_chunk p (chunk_size (round_up n)) ∷ cs) (round_up n) ≡ false
  fits_never p n cs h = ground (arith, h)

  allocate_fits :
      (f : ℕ) (es cs : Arena) (n : ℕ) (m : M)
      → AreChunks cs
      → n < 2 ^ 62
      → fits cs (round_up n) ≡ true
      → Carves es n (allocate al (suc f) cs n m)
  unfolding allocate
  allocate_fits f es cs n m w h e = rw e (taken-Carves es cs n m w h e)

  chunked-Carves :
      (f : ℕ) (cs : Arena) (n : ℕ) (r : Option ℕ × M)
      → AreChunks cs
      → n < 2 ^ 62
      → round_up n < min_chunk_size
      → Carves cs n (chunked al (λ ds k. allocate al (suc f) ds n k) cs (round_up n) r)
  chunked-Carves f cs n (none, m) w h l = carves_none m
  chunked-Carves f cs n (some p, m) w h l =
      allocate_fits f cs (new_chunk p (chunk_size (round_up n)) ∷ cs) n m
        (chunks _ (ground (arith, l)) (omega arith) w) h (fits_new p n cs l)

  -- With two units of fuel, a request that rounds up to less than 2 MiB returns from the arena,
  -- over any allocator and with chunks of less than 2 ^ 62 bytes: it gives a block within the
  -- last chunk and below its offset, or null with the arena as it was.
  pub allocate-Carves :
      (f : ℕ) (cs : Arena) (n : ℕ) (m : M)
      → AreChunks cs
      → n < 2 ^ 62
      → round_up n < min_chunk_size
      → Carves cs n (allocate al (suc (suc f)) cs n m)
  unfolding allocate
  allocate-Carves f cs n m w h l = elim (Bool-cases (fits cs (round_up n))) [
    | inl e ↦ rw e (taken-Carves cs cs n m w h e)
    | inr e ↦ rw e (chunked-Carves f cs n _ w h l)
  ]

  chunked-none :
      (k : Arena → M → Reply M) (cs : Arena) (n : ℕ) (r : Option ℕ × M)
      → r.0 ≢ none
      → ((p : ℕ) (m : M) → k (new_chunk p (chunk_size n) ∷ cs) m ≡ none)
      → chunked al k cs n r ≡ none
  chunked-none k cs n (none, m) g h = absurd (g refl)
  chunked-none k cs n (some p, m) g h = h p m

  -- Over an allocator that never refuses, a request that rounds up to 2 MiB or more, and does
  -- not fit in the last chunk, never returns from the arena, whatever the fuel.
  pub allocate_stuck :
      (f : ℕ) (cs : Arena) (n : ℕ) (m : M)
      → ((k : M) (b : ℕ) → (al.allocate k b).0 ≢ none)
      → min_chunk_size ≤ round_up n
      → fits cs (round_up n) ≡ false
      → allocate al f cs n m ≡ none
  unfolding allocate
  allocate_stuck zero cs n m g h e = refl
  allocate_stuck (suc f) cs n m g h e = rw e (
      chunked-none (λ ds k. allocate al f ds n k) cs (round_up n)
        (al.allocate m ((header + chunk_size (round_up n)) % 2 ^ 64)) (g m _)
        (λ p k.
          allocate_stuck f (new_chunk p (chunk_size (round_up n)) ∷ cs) n k g h
            (fits_never p n cs h)))
