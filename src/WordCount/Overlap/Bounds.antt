-- ===== src/WordCount/Overlap/Bounds.antt =====
-- The room that the producer of wc_mt_overlap.c allocates for a chunk, and the files that need more.
use systemprogramming.Base.{
  ℕ, zero, suc, ◌+◌, ◌≤◌, ◌<◌, ◌≡◌, refl, ap, ◌∙◌, Bool, true, false, arith,
}
use systemprogramming.Base.{
  List, [], ◌∷◌, ◌++◌, length, take, drop, length-append, length-take, take-append-drop,
  if◌then◌else◌,
}
use systemprogramming.WordCount.Text.{is_word_char, words}
use systemprogramming.WordCount.Overlap.Chunks.{all_bytes, sum_counts, produce_lem}
use systemprogramming.WordCount.Overlap.{Chunk, chunk_room, ends_in_word, extend, chunks, produce}

-- The number of word characters at the head of a text.
unfoldable pub run : List ℕ → ℕ
run [] = 0
run (c ∷ cs) = if is_word_char c then 1 + run cs else 0

-- No word of the text is longer than `k`.
abbrev pub WordsUpTo : ℕ → List ℕ → Type 0
WordsUpTo k [] = Unit
WordsUpTo k (c ∷ cs) = (run (c ∷ cs) ≤ k) × WordsUpTo k cs

abbrev pub All {ℓ} : {A : Type ℓ} → (A → Type 0) → List A → Type 0
All P [] = Unit
All P (x ∷ xs) = P x × All P xs

abbrev pub AllWordChars : List ℕ → Type 0
AllWordChars = All (λ c. is_word_char c ≡ true)

WordsUpTo-drop : (k n : ℕ) (file : List ℕ) → WordsUpTo k file → WordsUpTo k (drop n file)
WordsUpTo-drop k zero file h = h
WordsUpTo-drop k (suc n) [] h = tt
WordsUpTo-drop k (suc n) (c ∷ cs) h = WordsUpTo-drop k n cs h.1

WordsUpTo-run : (k : ℕ) (file : List ℕ) → WordsUpTo k file → run file ≤ k
unfolding run
WordsUpTo-run k [] h = omega arith
WordsUpTo-run k (c ∷ cs) h = h.0

-- The extension takes the rest of a word, and at most one byte more.
length-extend : (b : Bool) (file : List ℕ) → length (extend b file).0 ≤ run file + 1
unfolding extend run
length-extend false file = omega arith
length-extend true [] = omega arith
length-extend true (c ∷ cs) = ground (arith, length-extend (is_word_char c) cs, extend_false cs)
  where
    extend_false : (cs : List ℕ) → length (extend false cs).0 ≡ 0
    extend_false [] = refl
    extend_false _ = refl

WordsUpTo-extend :
    (k : ℕ) (b : Bool) (file : List ℕ) → WordsUpTo k file → WordsUpTo k (extend b file).1
unfolding extend
WordsUpTo-extend k false file h = h
WordsUpTo-extend k true [] h = tt
WordsUpTo-extend k true (c ∷ cs) h = WordsUpTo-extend k (is_word_char c) cs h.1

chunks_bound :
    (k room fuel : ℕ) (b : Bool) (file : List ℕ)
    → WordsUpTo k file
    → All (λ c. length c.bytes ≤ suc room + k + 1) (chunks (suc room) fuel b file)
unfolding chunks
chunks_bound k room zero b file h = tt
chunks_bound k room (suc fuel) b [] h = tt
chunks_bound k room (suc fuel) b (c ∷ cs) h =
    let first : List ℕ = c ∷ take room cs in
    let last : Bool = ends_in_word false first in
    let more : List ℕ = (extend last (drop room cs)).0 in
    let tail : WordsUpTo k (drop room cs) = WordsUpTo-drop k room cs h.1 in
    (
      omega (
        arith,
        length-append first more,
        length-take room cs,
        length-extend last (drop room cs),
        WordsUpTo-run k (drop room cs) tail,
      ),
      chunks_bound k room fuel (ends_in_word false (first ++ more)) (extend last (drop room cs)).1
          (WordsUpTo-extend k last (drop room cs) tail),
    )

-- If no word of the file is longer than 255 bytes, every chunk fits the room allocated for it.
pub produce_bound :
    (file : List ℕ) → WordsUpTo 255 file → All (λ c. length c.bytes ≤ chunk_room) (produce file)
unfolding produce
produce_bound file h = chunks_bound 255 65535 (length file) false file h

-- If no word of the file is longer than 255 bytes, every chunk fits the room that the producer
-- allocates for it; then the chunks hold the bytes of the file in order, and their counts add up to
-- the words of the file.
pub produce_fits :
    (file : List ℕ)
    → WordsUpTo 255 file
    → All (λ c. length c.bytes ≤ chunk_room) (produce file)
      × (all_bytes (produce file) ≡ file)
      × (sum_counts (produce file) ≡ words file)
produce_fits file short = let e = produce_lem file in (produce_bound file short, e.0, e.1)

ends_in_word-AllWordChars :
    (c : ℕ) (n : ℕ) (cs : List ℕ)
    → is_word_char c ≡ true
    → AllWordChars cs
    → ends_in_word (is_word_char c) (take n cs) ≡ true
unfolding ends_in_word
ends_in_word-AllWordChars c zero cs e h = e
ends_in_word-AllWordChars c (suc n) [] e h = e
ends_in_word-AllWordChars c (suc n) (d ∷ ds) e h = ends_in_word-AllWordChars d n ds h.0 h.1

extend-AllWordChars : (file : List ℕ) → AllWordChars file → (extend true file).0 ≡ file
unfolding extend
extend-AllWordChars [] h = refl
extend-AllWordChars (c ∷ cs) h = ap (λ t. c ∷ t) (rw (h.0) (extend-AllWordChars cs h.1))

AllWordChars-drop : (n : ℕ) (file : List ℕ) → AllWordChars file → AllWordChars (drop n file)
AllWordChars-drop zero file h = h
AllWordChars-drop (suc n) [] h = tt
AllWordChars-drop (suc n) (c ∷ cs) h = AllWordChars-drop n cs h.1

chunks_whole :
    (room fuel : ℕ) (b : Bool) (c : ℕ) (cs : List ℕ)
    → AllWordChars (c ∷ cs)
    → (ch : Chunk) × (rest : List Chunk) × (chunks (suc room) (suc fuel) b (c ∷ cs) ≡ ch ∷ rest)
      × (length ch.bytes ≡ length (c ∷ cs))
unfolding chunks ends_in_word
chunks_whole room fuel b c cs h =
    let last : Bool = ends_in_word (is_word_char c) (take room cs) in
    let more : List ℕ = (extend last (drop room cs)).0 in
    let all : more ≡ drop room cs =
      ap (λ w. (extend w (drop room cs)).0) (ends_in_word-AllWordChars c room cs h.0 h.1)
      ∙ extend-AllWordChars (drop room cs) (AllWordChars-drop room cs h.1) in
    (
      record { bytes = c ∷ (take room cs ++ more); starts_inside_word = b },
      _,
      refl,
      ap (λ t. length (c ∷ (take room cs ++ t))) all
          ∙ ap (λ t. length (c ∷ t)) (take-append-drop room cs),
    )

-- A file of word characters only that is longer than the room of a chunk makes the producer write
-- behind the end of its first buffer.
pub produce_overflow :
    (file : List ℕ)
    → AllWordChars file
    → chunk_room < length file
    → (c : Chunk) × (rest : List Chunk) × (produce file ≡ c ∷ rest) × (chunk_room < length c.bytes)
unfolding produce
produce_overflow [] h long = absurd (omega arith)
produce_overflow (c ∷ cs) h long =
    let (ch, rest, e, l) = chunks_whole 65535 (length cs) false c cs h in
    (ch, rest, e, omega (arith, l))
