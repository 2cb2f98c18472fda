-- ===== src/Lexer/Char.antt =====
-- lexer.cpp, the character tests.
-- A byte of the source is a number below 256. `peek` yields an `int` that is a `char` or -1; it is
-- kept as its low byte, so -1 is 255: with a signed `char` the byte 0xff and the end of the data
-- read the same, and no byte from 128 on passes a character test, here as in C.
use rox.Prelude.{ℕ, Bool, ◌&&◌, ◌||◌, List, leb, ◌==◌}

abbrev pub Bytes : Type 0
Bytes = List ℕ

-- The value -1 of `peek`.
abbrev pub eof : ℕ
eof = 255

unfoldable pub is_space : ℕ → Bool
is_space c = c == b' ' || c == b'\t' || c == b'\n' || c == 13

unfoldable pub is_alpha : ℕ → Bool
is_alpha c = (leb b'a' c && leb c b'z') || (leb b'A' c && leb c b'Z')

unfoldable pub is_digit : ℕ → Bool
is_digit c = leb b'0' c && leb c b'9'

unfoldable pub is_bin : ℕ → Bool
is_bin c = c == b'0' || c == b'1'

unfoldable pub is_hex : ℕ → Bool
unfolding is_digit
is_hex c = is_digit c || (leb b'a' c && leb c b'f') || (leb b'A' c && leb c b'F')

unfoldable pub is_alnum : ℕ → Bool
unfolding is_alpha is_digit
is_alnum c = is_alpha c || is_digit c
