-- ===== src/WordCount/Overlap.antt =====
-- lab8-lyjae/wc_mt_overlap.c: a producer cuts the file into chunks at the ends of words, and
-- consumers count the chunks' words. A chunk is the list of its bytes; the room allocated for it is
-- `chunk_room`, and Bounds says which files fit it.
pub mod Chunks
pub mod System
pub mod Bounds
mod Tests
use systemprogramming.Base.{ℕ, zero, suc, ◌+◌, Bool, true, false, not, ◌&&◌}
use systemprogramming.Base.{
  List, [], ◌∷◌, ◌++◌, Option, none, some, if◌then◌else◌, take, drop, length,
}
use systemprogramming.WordCount.Text.{is_word_char}

abbrev pub chunk_size : ℕ
chunk_size = 65536

-- The bytes that the producer allocates for a chunk.
abbrev pub chunk_room : ℕ
chunk_room = 65536 + 256

-- `Chunk`; the length of the list is `size`.
pub record Chunk : Type 0 where
  pub bytes : List ℕ
  pub starts_inside_word : Bool

-- The first loop of `count_words_in_chunk`: the bytes behind the word that it starts in.
pub skip_word : List ℕ → List ℕ
skip_word [] = []
skip_word (c ∷ cs) = let rest = skip_word cs in if is_word_char c then rest else c ∷ cs

-- Its second loop.
pub count_loop : List ℕ → Bool → ℕ → ℕ
count_loop [] in_word count = count
count_loop (c ∷ cs) in_word count =
    let w = is_word_char c in count_loop cs w (if w && not in_word then count + 1 else count)

pub count_words_in_chunk : Chunk → ℕ
unfolding skip_word count_loop
count_words_in_chunk chunk =
    count_loop (if chunk.starts_inside_word then skip_word chunk.bytes else chunk.bytes) false 0

-- `is_word_char(buf[size - 1])`, and `ends` for a chunk with no byte.
pub ends_in_word : Bool → List ℕ → Bool
ends_in_word ends [] = ends
ends_in_word ends (c ∷ cs) = ends_in_word (is_word_char c) cs

-- The `fgetc` loop, given whether the last byte of the buffer belongs to a word: the bytes that it
-- appends, and the rest of the file.
pub extend : Bool → List ℕ → List ℕ × List ℕ
extend false rest = ([], rest)
extend true [] = ([], [])
extend true (c ∷ rest) = let (more, rest') = extend (is_word_char c) rest in (c ∷ more, rest')

-- The producer's loop up to the end of the file: `fread` of `chunk_size` bytes (fewer at the end of
-- the file), the extension, and the flag for the next chunk. One round of fuel for each chunk.
pub chunks : ℕ → ℕ → Bool → List ℕ → List Chunk
unfolding extend ends_in_word
chunks room zero prev file = []
chunks room (suc fuel) prev [] = []
chunks room (suc fuel) prev (c ∷ cs) =
    let first = take room (c ∷ cs) in
    let (more, rest) = extend (ends_in_word false first) (drop room (c ∷ cs)) in
    record { bytes = first ++ more; starts_inside_word = prev }
    ∷ chunks room fuel (ends_in_word false (first ++ more)) rest

-- The chunks that the producer makes of a file.
pub produce : List ℕ → List Chunk
unfolding chunks
produce file = chunks chunk_size (length file) false file
