-- ===== src/WordCount/Overlap/System/Tests.antt =====
-- The threads of wc_mt_overlap.c at concrete inputs.
use systemprogramming.Base.{
  ℕ, ◌≤◌, ◌≡◌, refl, false, arith, List, [], ◌∷◌, set, length, replicate, ◌⊎◌,
}
use systemprogramming.Ctype.{is_alnum}
use systemprogramming.WordCount.Text.{is_word_char, words, word_starts}
use systemprogramming.WordCount.Overlap.{Chunk, chunk_room, produce}
use systemprogramming.WordCount.Overlap.Bounds.{All, run}
use systemprogramming.WordCount.Overlap.System.{
  Shared, no_chunk, put, get_chunk, remove, System, Step, Reach, start, step, hand_over, take_over,
  signal_producer, add, finish, leave, nobody, init, set_done, add_count, wake,
}
use systemprogramming.WordCount.Overlap.System.Result.{AllExited, total_exact, deadlock_free}

-- "ab c"
abbrev text : List ℕ
text = b'a' ∷ b'b' ∷ b' ' ∷ b'c' ∷ []

abbrev a_chunk : Chunk
a_chunk = record { bytes = text; starts_inside_word = false }

-- One chunk in the last slot; the next goes to the first.
abbrev wrapped : Shared
wrapped = record {
  buffer = set (replicate 64 no_chunk) 63 a_chunk;
  next_in = 0;
  next_out = 63;
  count = 1;
  total = 0;
  is_done = false;
}

-- One consumer, from the start to its end.
record Run : Type 0 where
  last : System
  reach : Reach text 1 last

abbrev whole_run : Run
unfolding put produce is_word_char is_alnum set_done wake add_count remove get_chunk signal_producer
whole_run = record {
  last = _;
  reach =
      step
        (step
          (step
            (step (step start (hand_over refl (omega arith) (nobody refl)))
              (take_over 0 refl (omega arith)))
            (add 0 refl))
          (finish refl))
        (leave 0 refl refl refl);
}

total_exact_example :
    All (λ c. length c.bytes ≤ chunk_room) (produce text)
    × (whole_run.last.shared.total ≡ words text)
unfolding put produce is_word_char is_alnum set_done wake add_count remove get_chunk signal_producer
    run words word_starts
total_exact_example =
    total_exact whole_run.reach (omega arith)
      (omega arith, (omega arith, (omega arith, (omega arith, tt)))) (omega arith) (refl, tt)

deadlock_free_example : AllExited (init text 1).consumers ⊎ ((t : System) × Step (init text 1) t)
deadlock_free_example = deadlock_free {n = 1} {s = init text 1} start (omega arith)
