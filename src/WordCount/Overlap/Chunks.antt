-- ===== src/WordCount/Overlap/Chunks.antt =====
-- The chunks of a file hold its bytes in order, and their counts add up to its words.
use systemprogramming.Base.{
  ℕ, zero, suc, ◌+◌, ◌-◌, ◌≤◌, ◌≡◌, refl, sym, ap, ap₂, ◌∙◌, Bool, true, false, not, ◌&&◌,
}
use systemprogramming.Base.{List, [], ◌∷◌, ◌++◌, append_assoc, arith, if◌then◌else◌}
use systemprogramming.Base.{
  length, get_or, take, drop, take-append-drop, length-append, length-drop,
}
use systemprogramming.WordCount.Text.{is_word_char, word_before, word_starts, words}
use systemprogramming.WordCount.Overlap.{
  Chunk, skip_word, count_loop, count_words_in_chunk, ends_in_word, extend, chunks, produce,
}

-- The words that start in a text, if `b` says whether a word runs into it.
words_after : Bool → List ℕ → ℕ
words_after b [] = 0
words_after b (c ∷ cs) =
    (if is_word_char c && not b then 1 else 0) + words_after (is_word_char c) cs

words_after-append :
    (b : Bool) (xs ys : List ℕ)
    → words_after b (xs ++ ys) ≡ words_after b xs + words_after (ends_in_word b xs) ys
unfolding words_after ends_in_word
words_after-append b [] ys = omega arith
words_after-append b (c ∷ cs) ys = omega (arith, words_after-append (is_word_char c) cs ys)

count_loop-eq : (xs : List ℕ) (b : Bool) (n : ℕ) → count_loop xs b n ≡ n + words_after b xs
unfolding words_after count_loop
count_loop-eq [] b n = omega arith
count_loop-eq (c ∷ cs) b n =
    let w = is_word_char c in ground (arith, count_loop-eq cs w (if w && not b then n + 1 else n))

skip_word-eq : (xs : List ℕ) → words_after false (skip_word xs) ≡ words_after true xs
unfolding words_after skip_word
skip_word-eq [] = refl
skip_word-eq (c ∷ cs) = ground (arith, skip_word-eq cs)

-- A chunk counts the words that start in it.
count_words_in_chunk-eq :
    (c : Chunk) → count_words_in_chunk c ≡ words_after c.starts_inside_word c.bytes
unfolding count_words_in_chunk
count_words_in_chunk-eq c = ground (
  arith,
  count_loop-eq c.bytes false 0,
  count_loop-eq (skip_word c.bytes) false 0,
  skip_word-eq c.bytes,
)

extend-append : (b : Bool) (file : List ℕ) → (extend b file).0 ++ (extend b file).1 ≡ file
unfolding extend
extend-append false file = refl
extend-append true [] = refl
extend-append true (c ∷ cs) = ap (λ t. c ∷ t) (extend-append (is_word_char c) cs)

length-extend : (b : Bool) (file : List ℕ) → length (extend b file).1 ≤ length file
unfolding extend
length-extend false file = omega arith
length-extend true [] = omega arith
length-extend true (c ∷ cs) = omega (arith, length-extend (is_word_char c) cs)

-- All bytes of a list of chunks, in order, and the sum of their counts.
unfoldable pub all_bytes : List Chunk → List ℕ
all_bytes [] = []
all_bytes (c ∷ cs) = c.bytes ++ all_bytes cs

unfoldable pub sum_counts : List Chunk → ℕ
sum_counts [] = 0
sum_counts (c ∷ cs) = count_words_in_chunk c + sum_counts cs

get_or-middle : (pre : List ℕ) (c : ℕ) (cs : List ℕ) → get_or (pre ++ c ∷ cs) (length pre) 0 ≡ c
get_or-middle [] c cs = refl
get_or-middle (p ∷ pre) c cs = get_or-middle pre c cs

ends_in_word-snoc :
    (b : Bool) (pre : List ℕ) (c : ℕ) → ends_in_word b (pre ++ c ∷ []) ≡ is_word_char c
unfolding ends_in_word
ends_in_word-snoc b [] c = refl
ends_in_word-snoc b (p ∷ pre) c = ends_in_word-snoc (is_word_char p) pre c

-- The last byte of a text, by its position.
ends_in_word-eq :
    (b : Bool) (c : ℕ) (cs rest : List ℕ)
    → ends_in_word b (c ∷ cs) ≡ is_word_char (get_or (c ∷ (cs ++ rest)) (length cs) 0)
unfolding ends_in_word
ends_in_word-eq b c [] rest = refl
ends_in_word-eq b c (d ∷ ds) rest = ends_in_word-eq (is_word_char c) d ds rest

word_before-eq :
    (pre rest : List ℕ) → word_before (pre ++ rest) (length pre) ≡ ends_in_word false pre
unfolding ends_in_word
word_before-eq [] rest = refl
word_before-eq (c ∷ cs) rest =
    let e : suc (length cs) - 1 ≡ length cs = omega arith in
    rw e (ground (arith, ends_in_word-eq false c cs rest))

-- The words of the text by position and by recursion.
words_after-eq :
    (pre xs : List ℕ)
    → word_starts (pre ++ xs) (length xs) (length pre) ≡ words_after (ends_in_word false pre) xs
unfolding word_starts words_after
words_after-eq pre [] = refl
words_after-eq pre (c ∷ cs) =
    let next : word_starts (pre ++ c ∷ cs) (length cs) (length pre + 1)
        ≡ words_after (is_word_char c) cs =
      ap₂ (λ t k. word_starts t (length cs) k) (sym (append_assoc pre (c ∷ []) cs))
        (sym (length-append pre (c ∷ [])))
      ∙ words_after-eq (pre ++ c ∷ []) cs
      ∙ ap (λ w. words_after w cs) (ends_in_word-snoc false pre c) in
    rw (next, get_or-middle pre c cs, word_before-eq pre (c ∷ cs)) refl

-- One chunk and the rest of the file.
split_file :
    (first more rest file tail : List ℕ)
    → first ++ tail ≡ file
    → more ++ rest ≡ tail
    → (first ++ more) ++ rest ≡ file
split_file first more rest file tail e f = append_assoc first more rest ∙ ap (λ t. first ++ t) f ∙ e

chunks-eq :
    (room : ℕ) (fuel : ℕ) (b : Bool) (file : List ℕ)
    → length file ≤ fuel
    → (all_bytes (chunks (suc room) fuel b file) ≡ file)
      × (sum_counts (chunks (suc room) fuel b file) ≡ words_after b file)
unfolding chunks all_bytes sum_counts words_after
chunks-eq room zero b [] h = (refl, refl)
chunks-eq room zero b (c ∷ cs) h = absurd (omega arith)
chunks-eq room (suc fuel) b [] h = (refl, refl)
chunks-eq room (suc fuel) b (c ∷ cs) h =
    let first : List ℕ = c ∷ take room cs in
    let last : Bool = ends_in_word false first in
    let more : List ℕ = (extend last (drop room cs)).0 in
    let rest : List ℕ = (extend last (drop room cs)).1 in
    let shorter : length rest ≤ fuel =
      omega (arith, length-extend last (drop room cs), length-drop room cs) in
    let ih = chunks-eq room fuel (ends_in_word false (first ++ more)) rest shorter in
    let whole : (first ++ more) ++ rest ≡ c ∷ cs =
      split_file first more rest (c ∷ cs) (drop room cs)
        (ap (λ t. c ∷ t) (take-append-drop room cs)) (extend-append last (drop room cs)) in
    (
      ap (λ t. (first ++ more) ++ t) ih.0 ∙ whole,
      ap₂ ◌+◌ (count_words_in_chunk-eq (record { bytes = first ++ more; starts_inside_word = b }))
            ih.1
          ∙ sym (words_after-append b (first ++ more) rest)
          ∙ ap (words_after b) whole,
    )

words-eq : (file : List ℕ) → words file ≡ words_after false file
unfolding words ends_in_word
words-eq file = words_after-eq [] file

-- The producer's chunks hold the bytes of the file in order, and their counts add up to the words
-- of the file.
pub produce_lem :
    (file : List ℕ) → (all_bytes (produce file) ≡ file) × (sum_counts (produce file) ≡ words file)
unfolding produce
produce_lem file =
    let e = chunks-eq 65535 (length file) false file (omega arith) in
    (e.0, e.1 ∙ sym (words-eq file))
