-- ===== src/WordCount/Overlap/Tests.antt =====
-- wc_mt_overlap.c at concrete inputs.
use systemprogramming.Base.{
  ℕ, zero, suc, ◌<◌, ◌≤◌, ◌≡◌, refl, true, false, arith, List, [], ◌∷◌, length, replicate,
  length-replicate,
}
use systemprogramming.Ctype.{is_alnum}
use systemprogramming.WordCount.Text.{is_word_char, words, word_starts}
use systemprogramming.WordCount.Overlap.{Chunk, chunk_room, produce, count_words_in_chunk}
use systemprogramming.WordCount.Overlap.Chunks.{all_bytes, sum_counts}
use systemprogramming.WordCount.Overlap.Bounds.{
  All, AllWordChars, run, produce_fits, produce_overflow,
}

-- "ab c"
abbrev text : List ℕ
text = b'a' ∷ b'b' ∷ b' ' ∷ b'c' ∷ []

inside_word : count_words_in_chunk (record { bytes = text; starts_inside_word = true }) ≡ 1
unfolding count_words_in_chunk is_word_char is_alnum
inside_word = refl

produce_runs : produce text ≡ record { bytes = text; starts_inside_word = false } ∷ []
unfolding produce is_word_char is_alnum
produce_runs = refl

produce_fits_example :
    All (λ c. length c.bytes ≤ chunk_room) (produce text)
    × (all_bytes (produce text) ≡ text)
    × (sum_counts (produce text) ≡ 2)
unfolding words word_starts is_word_char is_alnum run
produce_fits_example =
    produce_fits text (omega arith, (omega arith, (omega arith, (omega arith, tt))))

all_a : (n : ℕ) → AllWordChars (replicate n b'a')
unfolding is_word_char is_alnum
all_a zero = tt
all_a (suc n) = (refl, all_a n)

produce_overflow_example :
    (c : Chunk) × (rest : List Chunk) × (produce (replicate 65793 b'a') ≡ c ∷ rest)
    × (chunk_room < length c.bytes)
produce_overflow_example =
    produce_overflow (replicate 65793 b'a') (all_a 65793)
      (omega (arith, length-replicate {A = ℕ} 65793 b'a'))
