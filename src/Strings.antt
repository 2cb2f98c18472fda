-- ===== src/Strings.antt =====
-- util/string.h, util/string.cpp: the builder of strings, over an array of characters. Floats are
-- printed by the C library and are left out.
pub mod Writes
pub mod Numbers
use rox.Prelude.{
  length, get_elem?, set, take, drop, replicate, length-append, length-take, length-drop,
  length-replicate, length-set, get_elem?-set_self, get_elem?-set_ne, get_or, ==_iff, Bool-cases,
  All, ◌≢◌, zero, suc, ◌+◌, ◌-◌, ◌*◌, ◌/◌, ◌%◌, ◌^◌, ◌≤◌, ◌<◌, ◌≡◌, refl, arith, ◌⊎◌, inl, inr,
  Bool, true, false, if◌then◌else◌, Option, none, some, List, [], ◌∷◌, ◌==◌, ltb, leb, ◌&&◌, ◌||◌,
  not, ◌++◌, ◌↔◌, ℕ, ℕ_discrete, dec_lt, ap, sym,
}
use rox.Memory.Interface.{Allocator}
use rox.Arrays.{Array}
use rox.Arrays

pub record Builder : Type 0 where
  pub buffer : Array ℕ
  pub valid : Bool

abbrev pub Built : Type 0 → Type 0
Built M = Bool × Builder × M

-- `buffer[at + i] = view[i]`.
unfoldable pub write : List ℕ → ℕ → List ℕ → List ℕ
write xs at [] = xs
write xs at (c ∷ cs) = write (set xs at c) (suc at) cs

-- How many digits, with fuel.
unfoldable pub measure : ℕ → ℕ → ℕ
measure zero v = 0
measure (suc f) v = if v == 0 then 0 else suc (measure f (v / 10))

-- The digits from the last one on.
unfoldable pub fill : ℕ → List ℕ → ℕ → ℕ → List ℕ
fill zero xs at v = xs
fill (suc n) xs at v = if v == 0 then xs else fill n (set xs (at + n) (48 + v % 10)) at (v / 10)

-- `count` copies of a view, each at the place behind the one before.
unfoldable pub write_times : ℕ → List ℕ → ℕ → List ℕ → List ℕ
write_times zero xs at cs = xs
write_times (suc n) xs at cs = write_times n (write xs at cs) (at + length cs) cs

module _ {M : Type 0} where
  -- What is done with the array once it has room.
  abbrev pub written : Builder → (List ℕ → List ℕ) → Arrays.Outcome ℕ M → Built M
  written b f (true, a, m) = (true, record b { buffer = record a { items = f a.items } }, m)
  written b f (false, a, m) = (false, record { buffer = a; valid = false }, m)

  abbrev pub pushed_char : Arrays.Outcome ℕ M → Built M
  pushed_char (ok, a, m) = (ok, record { buffer = a; valid = ok }, m)

module _ {M : Type 0} (al : Allocator M) where
  abbrev at_end : Builder → ℕ → (List ℕ → List ℕ) → M → Built M
  at_end b n f m =
      written b f (Arrays.resize al 1 0 b.buffer ((length b.buffer.items + n) % 2 ^ 64) m)

  unfoldable pub append_char : Builder → ℕ → M → Built M
  append_char b c m =
      if not b.valid then (false, b, m) else pushed_char (Arrays.push_back al 1 b.buffer c m)

  unfoldable pub append : Builder → List ℕ → M → Built M
  append b cs m =
      if not b.valid
      then (false, b, m)
      else at_end b (length cs) (λ xs. write xs (length b.buffer.items) cs) m

  unfoldable pub append_uint : Builder → ℕ → M → Built M
  append_uint b v m =
      if v == 0
      then append_char b 48 m
      else at_end b (measure v v) (λ xs. fill (measure v v) xs (length b.buffer.items) v) m

  unfoldable pub repeat_char : Builder → ℕ → ℕ → M → Built M
  repeat_char b c n m =
      if not b.valid
      then (false, b, m)
      else at_end b n (λ xs. write xs (length b.buffer.items) (replicate n c)) m

  unfoldable pub repeat : Builder → List ℕ → ℕ → M → Built M
  repeat b cs n m =
      if not b.valid
      then (false, b, m)
      else at_end b (length cs * n % 2 ^ 64) (λ xs. write_times n xs (length b.buffer.items) cs) m
