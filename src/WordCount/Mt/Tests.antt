-- ===== src/WordCount/Mt/Tests.antt =====
-- wc_mt.c at concrete inputs.
use systemprogramming.Base.{◌≡◌, refl, List, ℕ, ◌∷◌, [], some, none, arith}
use systemprogramming.WordCount.Text.{words, word_starts, is_word_char}
use systemprogramming.WordCount.Mt.{main, total_words, usage, bad_thread_count}
use systemprogramming.WordCount.Mt.Total.{main-words}
use systemprogramming.Ctype.{is_alnum}

-- "ab cd e"
abbrev text : List ℕ
text = b'a' ∷ b'b' ∷ b' ' ∷ b'c' ∷ b'd' ∷ b' ' ∷ b'e' ∷ []

main_runs : main 3 3 (some text) ≡ total_words 3
unfolding main is_word_char is_alnum
main_runs = refl

main_refuses : main 3 17 (some text) ≡ bad_thread_count
unfolding main
main_refuses = refl

main_usage : main 2 3 none ≡ usage
unfolding main
main_usage = refl

main-words_example : main 3 3 (some text) ≡ total_words 3
unfolding words word_starts is_word_char is_alnum
main-words_example = main-words text 3 (omega arith) (omega arith) (omega arith)
