-- ===== src/WordCount/Text.antt =====
-- `is_word_char`, which both programs define alike, and the number of words of a text as its
-- number of word starts, which mentions no thread, slice or chunk.
use systemprogramming.Base.{ℕ, zero, suc, ◌+◌, ◌-◌, ◌≤◌, ◌≡◌, Bool, not, ◌&&◌}
use systemprogramming.Base.{List, arith, ltb, if◌then◌else◌, length, get_or}
use native.Mathlib.Nat.{zero-add, add-zero}
use systemprogramming.Ctype.{is_alnum}

-- The values of an `int`, whose pattern of bits is kept: a sum that is too large goes around.
abbrev pub int_values : ℕ
int_values = 4294967296

unfoldable pub is_word_char : ℕ → Bool
is_word_char c = is_alnum c

-- Whether the byte before position `i` belongs to a word.
abbrev pub word_before : List ℕ → ℕ → Bool
word_before buf i = ltb 0 i && is_word_char (get_or buf (i - 1) 0)

-- Position `i` starts a word: a word character with none before it.
abbrev pub starts_word : List ℕ → ℕ → Bool
starts_word buf i = is_word_char (get_or buf i 0) && not (word_before buf i)

-- The number of word starts among the `n` positions from `i` on.
unfoldable pub word_starts : List ℕ → ℕ → ℕ → ℕ
word_starts buf zero i = 0
word_starts buf (suc n) i = (if starts_word buf i then 1 else 0) + word_starts buf n (i + 1)

-- The number of words of a text.
unfoldable pub words : List ℕ → ℕ
words buf = word_starts buf (length buf) 0

pub word_starts-add :
    (buf : List ℕ) (m n i : ℕ)
    → word_starts buf (m + n) i ≡ word_starts buf m i + word_starts buf n (i + m)
unfolding word_starts
word_starts-add buf zero n i = rw (zero-add n, add-zero i, zero-add (word_starts buf n i))
word_starts-add buf (suc m) n i =
    let e : suc m + n ≡ suc (m + n) = omega arith in
    let f : i + suc m ≡ i + 1 + m = omega arith in
    rw (e, f) (omega (arith, word_starts-add buf m n (i + 1)))

pub word_starts-le : (buf : List ℕ) (n i : ℕ) → word_starts buf n i ≤ n
unfolding word_starts
word_starts-le buf zero i = omega arith
word_starts-le buf (suc n) i = ground (arith, word_starts-le buf n (i + 1))

pub words-le : (buf : List ℕ) → words buf ≤ length buf
unfolding words
words-le buf = word_starts-le buf (length buf) 0
