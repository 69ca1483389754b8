-- ===== src/WordCount/Mt.antt =====
-- lab8-lyjae/wc_mt.c: each of `num_threads` threads counts the words of one slice of the buffer,
-- and the slices' ends are moved past the word that they would cut.
pub mod Slices
pub mod Total
mod Tests
use systemprogramming.Base.{
  ℕ, zero, suc, ◌+◌, ◌-◌, ◌*◌, ◌/◌, ◌%◌, ◌≡◌, Bool, true, false, not, ◌&&◌, ◌||◌,
}
use systemprogramming.Base.{Option, none, some, List, [], ◌∷◌, ◌++◌}
use systemprogramming.Base.{ltb, leb, ◌==◌, if◌then◌else◌, length, get_or}
use systemprogramming.WordCount.Text.{int_values, is_word_char}

abbrev pub max_threads : ℕ
max_threads = 16

-- The `for` loop of `count_words`: `rounds` positions from `i` on are left.
pub count_words_loop : List ℕ → ℕ → ℕ → Bool → ℕ → ℕ
count_words_loop buffer zero i in_word count = count
count_words_loop buffer (suc rounds) i in_word count =
    let c = is_word_char (get_or buffer i 0) in
    count_words_loop buffer rounds (i + 1) c
      (if c && not in_word then (count + 1) % int_values else count)

-- `count_words`: the count that a thread leaves in its `ThreadArg`.
pub count_words : List ℕ → ℕ → ℕ → ℕ
unfolding count_words_loop
count_words buffer start end = count_words_loop buffer (end - start) start false 0

-- `while (p < size && is_word_char(buffer[p])) p++`, with at most `rounds` rounds.
pub skip_word : List ℕ → ℕ → ℕ → ℕ → ℕ
skip_word buffer size zero p = p
skip_word buffer size (suc rounds) p =
    let rest = skip_word buffer size rounds (p + 1) in
    if ltb p size && is_word_char (get_or buffer p 0) then rest else p

-- `args[i].start` and `args[i].end` when thread `i` is created. The buffer has `size` bytes and
-- the terminator, so `size - p` rounds bring `p` to the end of the text.
pub slice_start : List ℕ → ℕ → ℕ → ℕ → ℕ
unfolding skip_word
slice_start buffer size num_threads i =
    let start = i * (size / num_threads) in
    if i == 0 then start else skip_word buffer size (size - start) start

pub slice_end : List ℕ → ℕ → ℕ → ℕ → ℕ
unfolding skip_word
slice_end buffer size num_threads i =
    let end = if i == num_threads - 1 then size else (i + 1) * (size / num_threads) in
    if i == num_threads - 1 then end else skip_word buffer size (size - end) end

-- `total += args[i].count` over the threads `0 .. k`, each joined before its count is read.
pub total_count : List ℕ → ℕ → ℕ → ℕ → ℕ
unfolding slice_start slice_end count_words
total_count buffer size num_threads zero = 0
total_count buffer size num_threads (suc k) =
    (total_count buffer size num_threads k
      + count_words buffer (slice_start buffer size num_threads k)
          (slice_end buffer size num_threads k))
    % int_values

-- What `main` does: the three early returns, or the total that it prints.
pub data Outcome : Type 0 where
  usage : Outcome
  bad_thread_count : Outcome
  open_failed : Outcome
  total_words : ℕ → Outcome

-- `main` for `argc`, the value of `atoi(argv[2])` (a negative one is refused like 0), and the
-- contents of the file if it can be opened.
pub main : ℕ → ℕ → Option (List ℕ) → Outcome
unfolding total_count
main argc num_threads file =
    if not (argc == 3)
    then usage
    else if leb num_threads 0 || ltb max_threads num_threads
    then bad_thread_count
    else elim file [
      | none ↦ open_failed
      | some text ↦ total_words (total_count (text ++ 0 ∷ []) (length text) num_threads num_threads)
    ]
