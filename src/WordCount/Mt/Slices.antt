-- ===== src/WordCount/Mt/Slices.antt =====
-- The slices of wc_mt.c: they meet end to end, cover the text, and cut no word.
use systemprogramming.Base.{
  ℕ, zero, suc, ◌+◌, ◌-◌, ◌*◌, ◌/◌, ◌%◌, ◌≤◌, ◌<◌, ◌≡◌, refl, sym, ◌∙◌, Bool, false, not, ◌&&◌,
}
use systemprogramming.Base.{◌⊎◌, inl, inr, List, arith, ltb, if◌then◌else◌, get_or, Bool-cases}
use systemprogramming.WordCount.Text.{int_values, is_word_char, word_before, word_starts}
use systemprogramming.WordCount.Mt.{
  count_words_loop, count_words, skip_word, slice_start, slice_end,
}

word_before-suc : (buf : List ℕ) (i : ℕ) → word_before buf (i + 1) ≡ is_word_char (get_or buf i 0)
word_before-suc buf i = let e : i + 1 - 1 ≡ i = omega arith in rw e (ground arith)

-- The loop of a thread counts word starts, if its flag says whether a word runs into position `i`.
count_words_loop-eq :
    (buf : List ℕ) (n i : ℕ) (b : Bool) (count : ℕ)
    → b ≡ word_before buf i
    → count < int_values
    → count_words_loop buf n i b count ≡ (count + word_starts buf n i) % int_values
unfolding count_words_loop word_starts
count_words_loop-eq buf zero i b count e h = omega arith
count_words_loop-eq buf (suc n) i b count e h =
    let c = is_word_char (get_or buf i 0) in
    let next : ℕ = if c && not b then (count + 1) % int_values else count in
    let small : next < int_values = ground arith in
    ground (arith, count_words_loop-eq buf n (i + 1) c next (sym (word_before-suc buf i)) small)

-- A position where no word is running: the start of the text, or a byte outside every word.
abbrev pub Cut : List ℕ → ℕ → Type 0
Cut buf p = (p ≡ 0) ⊎ (is_word_char (get_or buf p 0) ≡ false)

skip_word-ge : (buf : List ℕ) (size n p : ℕ) → p ≤ skip_word buf size n p
unfolding skip_word
skip_word-ge buf size zero p = omega arith
skip_word-ge buf size (suc n) p = ground (arith, skip_word-ge buf size n (p + 1))

skip_word-le : (buf : List ℕ) (size n p : ℕ) → p ≤ size → skip_word buf size n p ≤ size
unfolding skip_word
skip_word-le buf size zero p h = omega arith
skip_word-le buf size (suc n) p h = ground (arith, skip_word-le buf size n (p + 1))

-- With enough rounds the loop ends by its test.
skip_word-stops :
    (buf : List ℕ) (size n p : ℕ)
    → p ≤ size
    → size - p ≤ n
    → (ltb (skip_word buf size n p) size && is_word_char (get_or buf (skip_word buf size n p) 0))
      ≡ false
unfolding skip_word
skip_word-stops buf size zero p h k = ground arith
skip_word-stops buf size (suc n) p h k = ground (arith, skip_word-stops buf size n (p + 1))

-- One round, when the rounds are those that reach the end of the text.
skip_word-step :
    (buf : List ℕ) (size p : ℕ)
    → p < size
    → (skip_word buf size (size - p) p ≡ p)
      ⊎ (skip_word buf size (size - p) p ≡ skip_word buf size (size - (p + 1)) (p + 1))
unfolding skip_word
skip_word-step buf size p h =
    let e : size - p ≡ suc (size - (p + 1)) = omega arith in
    rw e (elim (Bool-cases (ltb p size && is_word_char (get_or buf p 0))) [
      | inl c ↦ rw c (inr refl)
      | inr c ↦ rw c (inl refl)
    ])

-- A later start does not stop earlier.
skip_word_mono :
    (buf : List ℕ) (size d p : ℕ)
    → p + d ≤ size
    → skip_word buf size (size - p) p ≤ skip_word buf size (size - (p + d)) (p + d)
skip_word_mono buf size zero p h = let e : p + 0 ≡ p = omega arith in rw e (omega arith)
skip_word_mono buf size (suc d) p h =
    let e : p + suc d ≡ p + 1 + d = omega arith in
    elim (skip_word-step buf size p (omega arith)) [
      | inl stop ↦ rw stop (omega (arith, skip_word-ge buf size (size - (p + suc d)) (p + suc d)))
      | inr go ↦ rw (go, e) (skip_word_mono buf size d (p + 1) (omega arith))
    ]

count_loop-Cut :
    (buf : List ℕ) (n i : ℕ)
    → (0 < n → Cut buf i)
    → count_words_loop buf n i false 0 ≡ word_starts buf n i % int_values
unfolding count_words_loop word_starts
count_loop-Cut buf zero i cut = omega arith
count_loop-Cut buf (suc n) i cut = elim (cut (omega arith)) [
  | inl first ↦ ground (arith, count_words_loop-eq buf (suc n) i false 0)
  | inr outside ↦ ground (
    arith,
    outside,
    word_before-suc buf i,
    count_words_loop-eq buf n (i + 1) false 0 (sym outside ∙ sym (word_before-suc buf i))
        (omega arith),
  )
]

-- A slice that starts at a cut, or is empty, has the word starts of its positions.
pub count_words-eq :
    (buf : List ℕ) (start end : ℕ)
    → (start < end → Cut buf start)
    → count_words buf start end ≡ word_starts buf (end - start) start % int_values
unfolding count_words
count_words-eq buf start end cut = count_loop-Cut buf (end - start) start (λ h. cut (omega arith))

module _ (buf : List ℕ) (size n : ℕ) where
  abbrev block : ℕ
  block = size / n

  block_bound : (i : ℕ) → i ≤ n → i * block ≤ size
  block_bound i h = grind arith

  slice_start-suc :
      (i : ℕ)
      → slice_start buf size n (suc i) ≡ skip_word buf size (size - suc i * block) (suc i * block)
  unfolding slice_start
  slice_start-suc i = ground arith

  -- The first slice starts at 0.
  pub slice_start-zero : slice_start buf size n 0 ≡ 0
  unfolding slice_start
  slice_start-zero = omega arith

  -- The slice of the last thread ends at the end of the text.
  pub slice_end-last : (i : ℕ) → i ≡ n - 1 → slice_end buf size n i ≡ size
  unfolding slice_end
  slice_end-last i e = ground arith

  -- A slice that is not the last ends where the next one starts.
  pub slice_end-eq-slice_start :
      (i : ℕ) → suc i < n → slice_end buf size n i ≡ slice_start buf size n (suc i)
  unfolding slice_end slice_start
  slice_end-eq-slice_start i h = ground (arith, slice_start-suc i)

  -- A slice starts at a cut, or behind all of the text.
  pub slice_start-Cut :
      (i : ℕ) → i < n → slice_start buf size n i < size → Cut buf (slice_start buf size n i)
  slice_start-Cut zero h inside = inl slice_start-zero
  slice_start-Cut (suc i) h inside = inr (
      ground (
        arith,
        slice_start-suc i,
        block_bound (suc i) (omega arith),
        skip_word-stops buf size (size - suc i * block) (suc i * block),
      ))

  pub slice_start_mono :
      (i : ℕ) → suc i < n → slice_start buf size n i ≤ slice_start buf size n (suc i)
  slice_start_mono zero h = omega (arith, slice_start-zero)
  slice_start_mono (suc i) h =
      let e : suc (suc i) * block ≡ suc i * block + block = omega arith in
      let below : suc i * block + block ≤ size =
        omega (arith, block_bound (suc (suc i)) (omega arith)) in
      rw (slice_start-suc i, slice_start-suc (suc i), e)
        (skip_word_mono buf size block (suc i * block) below)

  pub slice_start-le : (i : ℕ) → i < n → slice_start buf size n i ≤ size
  slice_start-le zero h = omega (arith, slice_start-zero)
  slice_start-le (suc i) h = rw (slice_start-suc i) (
      skip_word-le buf size (size - suc i * block) (suc i * block)
        (block_bound (suc i) (omega arith)))
