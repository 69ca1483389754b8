-- ===== src/WordCount/Mt/Total.antt =====
-- What wc_mt.c prints: the number of words of the file, whatever the number of threads.
use systemprogramming.Base.{ℕ, zero, suc, ◌+◌, ◌-◌, ◌%◌, ◌≤◌, ◌<◌, ◌≡◌, refl, ap}
use systemprogramming.Base.{some, List, [], ◌∷◌, ◌++◌, arith, length, get_or-append}
use native.Mathlib.Nat.{zero-add}
use systemprogramming.WordCount.Text.{int_values, words, word_starts, word_starts-add}
use systemprogramming.WordCount.Mt.{max_threads, count_words, slice_start, total_count}
use systemprogramming.WordCount.Mt.{main, total_words}
use systemprogramming.WordCount.Mt.Slices.{
  Cut, count_words-eq, slice_start-zero, slice_end-last, slice_end-eq-slice_start, slice_start-Cut,
  slice_start_mono, slice_start-le,
}

-- Counting one more slice that meets the counted positions.
count_words-join :
    (buf : List ℕ) (s e : ℕ)
    → s ≤ e
    → (s < e → Cut buf s)
    → (word_starts buf s 0 % int_values + count_words buf s e) % int_values
      ≡ word_starts buf e 0 % int_values
count_words-join buf s e le cut =
    let total : s + (e - s) ≡ e = omega arith in
    omega (
      arith,
      count_words-eq buf s e cut,
      ap (λ k. word_starts buf k 0) total,
      word_starts-add buf s (e - s) 0,
      ap (λ k. word_starts buf (e - s) k) (zero-add s),
    )

module _ (buf : List ℕ) (size n : ℕ) where
  -- The counts of the first threads make up the word starts before the next slice.
  total_count-prefix :
      (k : ℕ)
      → k < n
      → total_count buf size n k ≡ word_starts buf (slice_start buf size n k) 0 % int_values
  unfolding total_count word_starts
  total_count-prefix zero h = rw (slice_start-zero buf size n) (omega arith)
  total_count-prefix (suc k) h =
      rw (total_count-prefix k (omega arith), slice_end-eq-slice_start buf size n k h)
        (count_words-join buf (slice_start buf size n k) (slice_start buf size n (suc k))
          (slice_start_mono buf size n k h)
          (λ lt.
            slice_start-Cut buf size n k (omega arith)
              (omega (arith, slice_start-le buf size n (suc k) h))))

  total_count-eq :
      (k : ℕ) → n ≡ suc k → total_count buf size n (suc k) ≡ word_starts buf size 0 % int_values
  unfolding total_count
  total_count-eq k e =
      rw (total_count-prefix k (omega arith), slice_end-last buf size n k (omega arith))
        (count_words-join buf (slice_start buf size n k) size
          (slice_start-le buf size n k (omega arith))
          (λ lt. slice_start-Cut buf size n k (omega arith) lt))

word_starts-append :
    (text tail : List ℕ) (n i : ℕ)
    → i + n ≤ length text
    → word_starts (text ++ tail) n i ≡ word_starts text n i
unfolding word_starts
word_starts-append text tail zero i h = refl
word_starts-append text tail (suc n) i h = ground (
  arith,
  get_or-append text tail i 0,
  get_or-append text tail (i - 1) 0,
  word_starts-append text tail n (i + 1),
)

-- For 1 to 16 threads and a file that can be opened and has fewer than 2 ^ 31 words, wc_mt prints the
-- number of words of the file.
pub main-words :
    (text : List ℕ) (num_threads : ℕ)
    → 0 < num_threads
    → num_threads ≤ max_threads
    → words text < 2147483648
    → main 3 num_threads (some text) ≡ total_words (words text)
unfolding main words
main-words text (suc k) pos few small = ground (
  arith,
  total_count-eq (text ++ 0 ∷ []) (length text) (suc k) k,
  word_starts-append text (0 ∷ []) (length text) 0,
)
main-words text zero pos few small = absurd (omega arith)
