-- ===== src/Format/Passes.antt =====
-- The two passes of util/format.h's `format`.
use rox.Prelude.{codes}
use rox.Prelude.{
  length, length-append, zero, suc, ◌+◌, ◌≤◌, ◌<◌, ◌≡◌, refl, arith, Bool, true, false,
  if◌then◌else◌, Option, none, some, List, [], ◌∷◌, ◌==◌, ◌++◌, ℕ,
}
use rox.Format.{
  writing, measuring, onward, write_of, put_write, Write, chars, counted, number_write, int_text,
  pointer_text, put_chars, takes_argument, argument, conversion, format_va, size_argument, step,
  undefined_step, refuses, undefined, puts, returns, Arg, Result, Out, Step, put,
}

-- The two passes at one place: the same length, and as much text as that.
data Agree : Out → Out → Type 0 where
  agree :
      (n : ℕ) (t : List ℕ)
      → length t ≡ n
      → Agree (record { text = none; len = n }) (record { text = some t; len = n })

-- What the passes end with.
pub data Matches : Result → Result → Type 0 where
  matches :
      (b : Bool) (n : ℕ) (t : List ℕ)
      → length t ≡ n
      → Matches
          (returns b (record { text = none; len = n }))
          (returns b (record { text = some t; len = n }))
  both_undefined : Matches undefined undefined

put_chars-Agree : (t : List ℕ) (o p : Out) → Agree o p → Agree (put_chars o t) (put_chars p t)
unfolding put_chars
put_chars-Agree [] o p h = h
put_chars-Agree (c ∷ t) _ _ (agree n s h) =
    put_chars-Agree t _ _
      (agree (n + 1) (s ++ (c ∷ [])) (omega (arith, length-append {0} s (c ∷ []), h)))

-- What is added to the count is the length of the text.
data Counts : Write → Type 0 where
  counts_chars : (t : List ℕ) → Counts (chars t)
  counts : (t : List ℕ) (n : ℕ) → length t ≡ n → Counts (counted t n)

put-Agree : (o p : Out) (w : Write) → Counts w → Agree o p → Agree (put o w) (put p w)
unfolding put
put-Agree o p _ (counts_chars t) h = put_chars-Agree t o p h
put-Agree _ _ _ (counts t k e) (agree n s h) =
    agree (n + k) (s ++ t) (omega (arith, length-append {0} s t, h, e))

data CountsAny : Option Write → Type 0 where
  counts_none : CountsAny none
  counts_some : {w : Write} → Counts w → CountsAny (some w)

if_Counts : (b : Bool) (o : Option Write) → CountsAny o → CountsAny (if b then o else none)
if_Counts true o h = h
if_Counts false o h = counts_none

number_Counts : (o : Option (List ℕ)) → CountsAny (number_write o)
number_Counts none = counts_none
number_Counts (some t) = counts_some (counts_chars t)

pointer_Counts :
    (p : ℕ) (b : Bool) → Counts (if b then counted (codes "nullptr") 7 else chars (pointer_text p))
pointer_Counts p true = counts (codes "nullptr") 7 refl
pointer_Counts p false = counts_chars _

write_of-CountsAny : (k : ℕ) (a : Arg) → CountsAny (write_of k a)
write_of-CountsAny k (Arg.c_string s) = if_Counts (k == b's') _ (counts_some (counts_chars s))
write_of-CountsAny k (Arg.view s) = if_Counts (k == b'S') _ (counts_some (counts s (length s) refl))
write_of-CountsAny k (Arg.int_value v) = if_Counts (k == b'd') _ (number_Counts (int_text v))
write_of-CountsAny k (Arg.uint_value v) = if_Counts (k == b'u') _ (counts_some (counts_chars _))
write_of-CountsAny k (Arg.size_value v) = if_Counts (k == b'z') _ (counts_some (counts_chars _))
write_of-CountsAny k (Arg.pointer p) =
    if_Counts (k == b'p') _ (counts_some (pointer_Counts p (p == 0)))

-- What a round leaves of the format is shorter, and what it writes is counted.
data Shortens (n : ℕ) : Step → Type 0 where
  shortens :
      (w : Write) (cs : List ℕ) (as' : List Arg)
      → Counts w
      → length cs ≤ n
      → Shortens n (puts w cs as')
  ends : Shortens n refuses
  ends_badly : Shortens n undefined_step

either_Shortens :
    (n : ℕ) (b : Bool) (s t : Step) → Shortens n s → Shortens n t → Shortens n (if b then s else t)
either_Shortens n true s t p q = p
either_Shortens n false s t p q = q

argument-Shortens :
    (n k : ℕ) (cs : List ℕ) (as' : List Arg) → length cs ≤ n → Shortens n (argument k cs as')
argument-Shortens n k cs [] h = ends_badly
argument-Shortens n k cs (a ∷ as') h = by_write (write_of k a) (write_of-CountsAny k a)
  where
    by_write : (o : Option Write) → CountsAny o → Shortens n (put_write o cs as')
    by_write _ counts_none = ends_badly
    by_write _ (counts_some {w} c) = shortens w cs as' c h

size_argument-Shortens :
    (n : ℕ) (cs : List ℕ) (as' : List Arg) → length cs ≤ n → Shortens n (size_argument cs as')
size_argument-Shortens n [] as' h = ends_badly
size_argument-Shortens n (c ∷ cs) as' h =
    either_Shortens n (c == b'u') _ _ (argument-Shortens n b'z' cs as' (omega arith)) ends

conversion-Shortens : (cs : List ℕ) (as' : List Arg) → Shortens (length cs) (conversion cs as')
conversion-Shortens [] as' = ends_badly
conversion-Shortens (k ∷ cs) as' =
    let n = suc (length cs) in
    either_Shortens n (k == b'%') _ _ (shortens _ cs as' (counts_chars _) (omega arith)) (
      either_Shortens n (k == b'z') _ _ (size_argument-Shortens n cs as' (omega arith)) (
        either_Shortens n (takes_argument k) _ _ (argument-Shortens n k cs as' (omega arith)) ends))

step-Shortens : (c : ℕ) (cs : List ℕ) (as' : List Arg) → Shortens (length cs) (step c cs as')
unfolding step
step-Shortens c cs as' =
    either_Shortens (length cs) (c == b'%') _ _ (conversion-Shortens cs as')
      (shortens _ cs as' (counts_chars _) (omega arith))

refuses-Matches : (o p : Out) → Agree o p → Matches (returns false o) (returns false p)
refuses-Matches _ _ (agree n t e) = matches false n t e

returns_Matches : (o p : Out) → Agree o p → Matches (returns true o) (returns true p)
returns_Matches _ _ (agree n t e) = matches true n t e

onward-Matches :
    (n : ℕ) (k : List ℕ → List Arg → Out → Result) (o p : Out) (s : Step)
    → Agree o p
    → Shortens n s
    → ((cs : List ℕ) (as' : List Arg) (t : Write)
        → Counts t
        → length cs ≤ n
        → Matches (k cs as' (put o t)) (k cs as' (put p t)))
    → Matches (onward k o s) (onward k p s)
onward-Matches n k o p _ g (shortens t cs as' c l) h = h cs as' t c l
onward-Matches n k o p _ g ends h = refuses-Matches o p g
onward-Matches n k o p _ g ends_badly h = both_undefined

format_va-Agree :
    (f : ℕ) (cs : List ℕ) (as' : List Arg) (o p : Out)
    → length cs < f
    → Agree o p
    → Matches (format_va f cs as' o) (format_va f cs as' p)
unfolding format_va
format_va-Agree zero cs as' o p h g = absurd (omega arith)
format_va-Agree (suc f) [] as' o p h g = returns_Matches o p g
format_va-Agree (suc f) (c ∷ cs) as' o p h g =
    onward-Matches (length cs) (format_va f) o p (step c cs as') g (step-Shortens c cs as')
      (λ ds bs t c l.
        format_va-Agree f ds bs (put o t) (put p t) (omega arith) (put-Agree o p t c g))

-- With more fuel than the format has characters, the pass of `format_va` that measures and the
-- one that writes end alike, with the same result and the same length, and the text that was
-- written has that length; or neither has a meaning in C.
pub format_va-Matches :
    (f : ℕ) (cs : List ℕ) (as' : List Arg)
    → length cs < f
    → Matches (format_va f cs as' measuring) (format_va f cs as' writing)
format_va-Matches f cs as' h = format_va-Agree f cs as' measuring writing h (agree 0 [] refl)
