-- ===== src/Ctype.antt =====
-- The character classes of <ctype.h> that the programs call, in the C locale. A character is its
-- byte value.
use systemprogramming.Base.{ℕ, Bool, ◌&&◌, ◌||◌, leb, ◌==◌}

pub is_in : ℕ → ℕ → ℕ → Bool
is_in lo hi c = leb lo c && leb c hi

unfoldable pub is_digit : ℕ → Bool
unfolding is_in
is_digit c = is_in b'0' b'9' c

unfoldable pub is_alnum : ℕ → Bool
unfolding is_in is_digit
is_alnum c = is_in b'0' b'9' c || is_in b'A' b'Z' c || is_in b'a' b'z' c

-- Blank, and the five controls from tab to carriage return.
unfoldable pub is_space : ℕ → Bool
unfolding is_in
is_space c = c == b' ' || is_in 9 13 c
