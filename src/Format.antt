-- ===== src/Format.antt =====
-- util/format.h, util/format.cpp: formatted text, which is measured first and then written.
pub mod Passes
use rox.Prelude.{
  codes, length, get_elem?, set, take, drop, replicate, length-append, length-take, length-drop,
  length-replicate, length-set, get_elem?-set_self, get_elem?-set_ne, get_or, ==_iff, Bool-cases,
  All, ◌≢◌, zero, suc, ◌+◌, ◌-◌, ◌*◌, ◌/◌, ◌%◌, ◌^◌, ◌≤◌, ◌<◌, ◌≡◌, refl, arith, ◌⊎◌, inl, inr,
  Bool, true, false, if◌then◌else◌, Option, none, some, List, [], ◌∷◌, ◌==◌, ltb, leb, ◌&&◌, ◌||◌,
  not, ◌++◌, ◌↔◌, ℕ, ℕ_discrete, dec_lt, ap, sym,
}

-- What the caller passes for a conversion, already normalized. A number is the pattern of its bits.
pub data Arg : Type 0 where
  c_string : List ℕ → Arg
  view : List ℕ → Arg
  int_value : ℕ → Arg
  uint_value : ℕ → Arg
  size_value : ℕ → Arg
  pointer : ℕ → Arg

-- The digits of a number in a base, the last one first, with fuel: `do … while`.
unfoldable pub base_digits : ℕ → ℕ → ℕ → List ℕ
base_digits zero b d = []
base_digits (suc f) b d = d % b ∷ (if d / b == 0 then [] else base_digits f b (d / b))

abbrev pub digit_char : ℕ → ℕ
digit_char d = if ltb d 10 then 48 + d else 87 + d

unfoldable pub backwards : List ℕ → List ℕ → List ℕ
backwards [] done = done
backwards (d ∷ ds) done = backwards ds (digit_char d ∷ done)

unfoldable pub number_text : ℕ → ℕ → List ℕ
number_text b d = backwards (base_digits (suc d) b d) []

abbrev tail {ℓ} : {A : Type ℓ} → List A → List A
tail [] = []
tail (x ∷ xs) = xs

-- A negative `int` by its pattern of 32 bits. The least one cannot be negated.
abbrev pub int_text : ℕ → Option (List ℕ)
int_text v =
    if ltb v (2 ^ 31)
    then some (number_text 10 v)
    else if v == 2 ^ 31
    then none
    else some (45 ∷ number_text 10 (2 ^ 32 - v))

-- `x` and `0` are put on the first two of the places from the one before the digits on, and what is
-- printed starts behind them.
abbrev pub pointer_text : ℕ → List ℕ
pointer_text p = tail (number_text 16 p)

-- What a conversion writes: characters that are counted one by one as they are written, or a text
-- and what is added to the count behind it.
pub data Write : Type 0 where
  chars : List ℕ → Write
  counted : List ℕ → ℕ → Write

abbrev pub number_write : Option (List ℕ) → Option Write
number_write none = none
number_write (some t) = some (chars t)

abbrev pub pointer_write : ℕ → Write
pointer_write p = if p == 0 then counted (codes "nullptr") 7 else chars (pointer_text p)

-- What is written for an argument by a conversion; none where the conversion wants another argument.
abbrev pub write_of : ℕ → Arg → Option Write
write_of k (c_string s) = if k == b's' then some (chars s) else none
write_of k (view s) = if k == b'S' then some (counted s (length s)) else none
write_of k (int_value v) = if k == b'd' then number_write (int_text v) else none
write_of k (uint_value v) = if k == b'u' then some (chars (number_text 10 v)) else none
write_of k (size_value v) = if k == b'z' then some (chars (number_text 10 v)) else none
write_of k (pointer p) = if k == b'p' then some (pointer_write p) else none

-- One round of the loop: what it writes, and what is left of the format and the arguments; an end with
-- false; or no meaning in C, past the end of the format or with another argument.
pub data Step : Type 0 where
  puts : Write → List ℕ → List Arg → Step
  refuses undefined_step : Step

abbrev pub put_write : Option Write → List ℕ → List Arg → Step
put_write none cs as' = undefined_step
put_write (some t) cs as' = puts t cs as'

abbrev pub argument : ℕ → List ℕ → List Arg → Step
argument k cs [] = undefined_step
argument k cs (a ∷ as') = put_write (write_of k a) cs as'

-- `%zu`.
abbrev pub size_argument : List ℕ → List Arg → Step
size_argument [] as' = undefined_step
size_argument (c ∷ cs) as' = if c == b'u' then argument b'z' cs as' else refuses

abbrev pub takes_argument : ℕ → Bool
takes_argument k = (k == b's') || (k == b'S') || (k == b'd') || (k == b'u') || (k == b'p')

abbrev pub conversion : List ℕ → List Arg → Step
conversion [] as' = undefined_step
conversion (k ∷ cs) as' =
    if k == b'%'
    then puts (chars (b'%' ∷ [])) cs as'
    else if k == b'z'
    then size_argument cs as'
    else if takes_argument k
    then argument k cs as'
    else refuses

unfoldable pub step : ℕ → List ℕ → List Arg → Step
step c cs as' = if c == b'%' then conversion cs as' else puts (chars (c ∷ [])) cs as'

-- What is behind `dst`, if it is not null, and `len`.
pub record Out : Type 0 where
  pub text : Option (List ℕ)
  pub len : ℕ

abbrev pub put_behind : Option (List ℕ) → List ℕ → Option (List ℕ)
put_behind none t = none
put_behind (some s) t = some (s ++ t)

-- `if (dst) *dst++ = c;` and `len++;`.
abbrev pub put_char : Out → ℕ → Out
put_char o c = record { text = put_behind o.text (c ∷ []); len = o.len + 1 }

unfoldable pub put_chars : Out → List ℕ → Out
put_chars o [] = o
put_chars o (c ∷ cs) = put_chars (put_char o c) cs

unfoldable pub put : Out → Write → Out
put o (chars t) = put_chars o t
put o (counted t n) = record { text = put_behind o.text t; len = o.len + n }

pub data Result : Type 0 where
  returns : Bool → Out → Result
  undefined out_of_fuel : Result

-- What follows a round.
abbrev pub onward : (List ℕ → List Arg → Out → Result) → Out → Step → Result
onward k o (puts t cs as') = k cs as' (put o t)
onward k o refuses = returns false o
onward k o undefined_step = undefined

-- `format_va`, with fuel.
unfoldable pub format_va : ℕ → List ℕ → List Arg → Out → Result
format_va zero cs as' o = out_of_fuel
format_va (suc f) [] as' o = returns true o
format_va (suc f) (c ∷ cs) as' o = onward (format_va f) o (step c cs as')

abbrev pub measuring : Out
measuring = record { text = none; len = 0 }

abbrev pub writing : Out
writing = record { text = some []; len = 0 }

abbrev pub second_pass : Result → Result → Result
second_pass (returns true o) r = r
second_pass q r = q

-- `format`, with an array that has room: a pass that measures, and one that writes.
unfoldable pub format : List ℕ → List Arg → Result
format cs as' =
    second_pass (format_va (suc (length cs)) cs as' measuring)
      (format_va (suc (length cs)) cs as' writing)
