-- ===== src/Strings/Writes.antt =====
-- What the builder of util/string.cpp writes.
use rox.Memory.Interface.{Refused}
use rox.Prelude.{
  ◌∙◌, take-append-drop, ◌∙◌, length, set, take, drop, replicate, length-append, length-take,
  length-drop, length-replicate, zero, suc, ◌+◌, ◌-◌, ◌*◌, ◌%◌, ◌^◌, ◌<◌, ◌≡◌, refl, arith, Bool,
  true, false, if◌then◌else◌, List, [], ◌∷◌, not, ◌++◌, ℕ, ap, sym,
}
use mathlib.Core.List.{append-nil, append_assoc}
use rox.Arrays.{Array}
use rox.Arrays.Grows.{
  push_back-Appends, Appends, resize-Resizes, take_all, Resizes, IsArray, resizes, resizes_not,
  appends, appends_some, is_array,
}
use rox.Arrays
use rox.Strings.{
  pushed_char, append_char, repeat, repeat_char, append, at_end, Allocator, written, Built, Builder,
  write, write_times,
}

pub set_at : (xs ys : List ℕ) (y v : ℕ) → set (xs ++ (y ∷ ys)) (length xs) v ≡ xs ++ (v ∷ ys)
set_at [] ys y v = refl
set_at (x ∷ xs) ys y v = ap (λ l. x ∷ l) (set_at xs ys y v)

pub write_over :
    (cs zs xs ys : List ℕ)
    → length zs ≡ length cs
    → write (xs ++ (zs ++ ys)) (length xs) cs ≡ xs ++ (cs ++ ys)
unfolding write
write_over [] [] xs ys h = refl
write_over [] (z ∷ zs) xs ys h = absurd (omega arith)
write_over (c ∷ cs) [] xs ys h = absurd (omega arith)
write_over (c ∷ cs) (z ∷ zs) xs ys h =
    let n : suc (length xs) ≡ length (xs ++ (c ∷ [])) =
      omega (arith, length-append {0} xs (c ∷ [])) in
    let next : write ((xs ++ (c ∷ [])) ++ (zs ++ ys)) (length (xs ++ (c ∷ []))) cs
        ≡ (xs ++ (c ∷ [])) ++ (cs ++ ys) =
      write_over cs zs (xs ++ (c ∷ [])) ys (omega arith) in
    rw (set_at xs (zs ++ ys) z c, n, sym (append_assoc xs (c ∷ []) (zs ++ ys)), next)
      (append_assoc xs (c ∷ []) (cs ++ ys))

-- n copies.
unfoldable pub times : ℕ → List ℕ → List ℕ
times zero cs = []
times (suc n) cs = cs ++ times n cs

pub write_times_over :
    (n : ℕ) (cs zs xs : List ℕ)
    → length zs ≡ length cs * n
    → write_times n (xs ++ zs) (length xs) cs ≡ xs ++ times n cs
unfolding write_times times
write_times_over zero cs [] xs h = refl
write_times_over zero cs (z ∷ zs) xs h = absurd (omega arith)
write_times_over (suc n) cs zs xs h =
    let l = length cs in
    let d : length (drop l zs) ≡ l * n = omega (arith, length-drop {0} l zs, h) in
    let t : length (take l zs) ≡ l = omega (arith, length-take {0} l zs, h) in
    let one : write (xs ++ zs) (length xs) cs ≡ (xs ++ cs) ++ drop l zs =
      ap (λ y. write (xs ++ y) (length xs) cs) (sym (take-append-drop l zs))
      ∙ write_over cs (take l zs) xs (drop l zs) t
      ∙ sym (append_assoc xs cs (drop l zs)) in
    let k : length xs + l ≡ length (xs ++ cs) = omega (arith, length-append {0} xs cs) in
    rw (one, k) (write_times_over n cs (drop l zs) (xs ++ cs) d ∙ append_assoc xs cs (times n cs))

-- The text behind what a valid builder had; or a builder that is no longer valid, with what it had,
-- as the allocator has refused; or, where it was not valid, the same builder and memory.
pub data Adds {M : Type 0} (al : Allocator M) (b : Builder) (cs : List ℕ) (m0 : M)
    : Built M → Type 0 where
  adds :
      (d : Builder) (m : M)
      → b.valid ≡ true
      → d.buffer.items ≡ b.buffer.items ++ cs
      → d.valid ≡ true
      → IsArray d.buffer
      → Adds al b cs m0 (true, d, m)
  adds_none :
      (d : Builder) (m : M)
      → b.valid ≡ true
      → Refused al m
      → d.buffer.items ≡ b.buffer.items
      → d.valid ≡ false
      → IsArray d.buffer
      → Adds al b cs m0 (false, d, m)
  adds_invalid : b.valid ≡ false → Adds al b cs m0 (false, b, m0)

written-Adds :
    {M : Type 0} (al : Allocator M) (b : Builder) (n : ℕ) (cs : List ℕ) (f : List ℕ → List ℕ)
    (m0 : M) (r : Arrays.Outcome ℕ M)
    → b.valid ≡ true
    → IsArray b.buffer
    → length cs ≡ n
    → f (b.buffer.items ++ replicate n 0) ≡ b.buffer.items ++ cs
    → Resizes al 0 b.buffer (length b.buffer.items + n) r
    → Adds al b cs m0 (written b f r)
written-Adds al b n cs f m0 _ v w l e (resizes a m i (is_array k)) =
    let z : length b.buffer.items + n - length b.buffer.items ≡ n = omega arith in
    let j : a.items ≡ b.buffer.items ++ replicate n 0 =
      i ∙ (rw (z, take_all b.buffer.items (length b.buffer.items + n) (omega arith))) in
    adds _ m v (ap f j ∙ e) v (
      is_array (
        omega (
          arith,
          ap length (ap f j ∙ e),
          ap length j,
          k,
          length-append {0} b.buffer.items cs,
          length-append {0} b.buffer.items (replicate n 0),
          length-replicate {0} {A = ℕ} n 0,
        )))
written-Adds al b n cs f m0 _ v w l e (resizes_not m h g) = adds_none _ m v g refl refl w

module _ {M : Type 0} (al : Allocator M) where
  pub room-Adds :
      (b : Builder) (n : ℕ) (cs : List ℕ) (f : List ℕ → List ℕ) (m : M)
      → b.valid ≡ true
      → IsArray b.buffer
      → length cs ≡ n
      → length b.buffer.items + n < 2 ^ 62
      → f (b.buffer.items ++ replicate n 0) ≡ b.buffer.items ++ cs
      → Adds al b cs m (at_end al b n f m)
  room-Adds b n cs f m v w l h e =
      let k : (length b.buffer.items + n) % 2 ^ 64 ≡ length b.buffer.items + n = omega arith in
      rw k (
        written-Adds al b n cs f m _ v w l e
          (resize-Resizes al 1 0 b.buffer (length b.buffer.items + n) m w h))

  valid-Adds :
      (b : Builder) (cs : List ℕ) (m : M) (r : Built M)
      → (b.valid ≡ true → Adds al b cs m r)
      → Adds al b cs m (if not b.valid then (false, b, m) else r)
  valid-Adds b cs m r h = by_valid b.valid refl
    where
      by_valid : (v : Bool) → b.valid ≡ v → Adds al b cs m (if not v then (false, b, m) else r)
      by_valid true e = h e
      by_valid false e = adds_invalid e

  write_all : (cs xs : List ℕ) → write (xs ++ replicate (length cs) 0) (length xs) cs ≡ xs ++ cs
  write_all cs xs =
      ap (λ y. write (xs ++ y) (length xs) cs) (sym (append-nil (replicate (length cs) 0)))
      ∙ write_over cs (replicate (length cs) 0) xs [] (length-replicate (length cs) 0)
      ∙ ap (λ y. xs ++ y) (append-nil cs)

  -- To append a view to a builder, with less than 2 ^ 62 characters in all, puts the characters
  -- behind those that a valid builder had and returns true; or, where the allocator has refused
  -- the last request, it returns false with a builder that is no longer valid and has what it
  -- had; to one that was not valid it returns false at once, with builder and memory as they
  -- were.
  pub append-Adds :
      (b : Builder) (cs : List ℕ) (m : M)
      → IsArray b.buffer
      → length b.buffer.items + length cs < 2 ^ 62
      → Adds al b cs m (append al b cs m)
  unfolding append
  append-Adds b cs m w h =
      valid-Adds b cs m _
        (λ v. room-Adds b (length cs) cs _ m v w refl h (write_all cs b.buffer.items))

  pub repeat_char-Adds :
      (b : Builder) (c n : ℕ) (m : M)
      → IsArray b.buffer
      → length b.buffer.items + n < 2 ^ 62
      → Adds al b (replicate n c) m (repeat_char al b c n m)
  unfolding repeat_char
  repeat_char-Adds b c n m w h = valid-Adds b (replicate n c) m _ (λ v.
      room-Adds b n (replicate n c) _ m v w (length-replicate n c) h (
        ap (λ k. write (b.buffer.items ++ replicate k 0) (length b.buffer.items) (replicate n c))
          (sym (length-replicate n c))
        ∙ write_all (replicate n c) b.buffer.items))

  length-times : (n : ℕ) (cs : List ℕ) → length (times n cs) ≡ length cs * n
  unfolding times
  length-times zero cs = omega arith
  length-times (suc n) cs = omega (arith, length-append {0} cs (times n cs), length-times n cs)

  -- Repeats.
  pub repeat-Adds :
      (b : Builder) (cs : List ℕ) (n : ℕ) (m : M)
      → IsArray b.buffer
      → length b.buffer.items + length cs * n < 2 ^ 62
      → Adds al b (times n cs) m (repeat al b cs n m)
  unfolding repeat
  repeat-Adds b cs n m w h =
      let k : length cs * n % 2 ^ 64 ≡ length cs * n = omega arith in
      valid-Adds b (times n cs) m _ (λ v. rw k (
        room-Adds b (length cs * n) (times n cs) _ m v w (length-times n cs) h (
          write_times_over n cs (replicate (length cs * n) 0) b.buffer.items
            (length-replicate (length cs * n) 0))))

  char_Adds :
      (b : Builder) (c : ℕ) (m0 : M) (r : Arrays.Outcome ℕ M)
      → Appends al b.buffer (c ∷ []) r
      → b.valid ≡ true
      → Adds al b (c ∷ []) m0 (pushed_char r)
  char_Adds b c m0 _ (appends a m e w) v = adds _ m v e refl w
  char_Adds b c m0 _ (appends_some a m zero l e w f) v = adds_none _ m v f (e ∙ append-nil _) refl w
  char_Adds b c m0 _ (appends_some a m (suc k) l e w f) v = absurd (omega arith)

  pub append_char-Adds :
      (b : Builder) (c : ℕ) (m : M)
      → IsArray b.buffer
      → length b.buffer.items + 1 < 2 ^ 62
      → Adds al b (c ∷ []) m (append_char al b c m)
  unfolding append_char
  append_char-Adds b c m w h =
      valid-Adds b (c ∷ []) m _ (λ v. char_Adds b c m _ (push_back-Appends al 1 b.buffer c m w h) v)
