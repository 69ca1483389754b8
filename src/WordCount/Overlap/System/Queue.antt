-- ===== src/WordCount/Overlap/System/Queue.antt =====
-- The circular buffer of wc_mt_overlap.c is a first-in first-out queue of at most 64 chunks.
use systemprogramming.Base.{◌+◌, ◌%◌, ◌≤◌, ◌<◌, ◌≡◌, ◌≢◌, ap₂, ◌∙◌, arith}
use systemprogramming.Base.{List, [], ◌∷◌, ◌++◌, length, set, length-set}
use systemprogramming.Base.Window.{window, window-push, window-pop}
use native.Mathlib.Numerals.{add-one}
use systemprogramming.WordCount.Overlap.{Chunk}
use systemprogramming.WordCount.Overlap.System.{
  Shared, buffer_capacity, no_chunk, put, get_chunk, remove,
}

-- The chunks in the buffer, oldest first.
abbrev pub queued : Shared → List Chunk
queued s = window no_chunk buffer_capacity s.buffer s.next_out s.count

pub record IsRing (s : Shared) : Type 0 where
  pub room : length s.buffer ≡ buffer_capacity
  pub out_in : s.next_out < buffer_capacity
  pub in_eq : s.next_in ≡ (s.next_out + s.count) % buffer_capacity
  pub fits : s.count ≤ buffer_capacity

-- `put` keeps the ring well formed and appends the chunk, if the buffer is not full.
pub put_lem :
    {s : Shared} (c : Chunk)
    → IsRing s
    → s.count ≢ buffer_capacity
    → IsRing (put s c) × (queued (put s c) ≡ queued s ++ c ∷ [])
unfolding put
put_lem {s} c r free = (
  record {
    room = length-set s.buffer s.next_in c ∙ r.room;
    out_in = r.out_in;
    in_eq = omega arith;
    fits = omega arith;
  },
  ap₂ (λ k j. window no_chunk buffer_capacity (set s.buffer k c) s.next_out j) r.in_eq
        (add-one s.count)
      ∙ (window-push no_chunk buffer_capacity s.buffer c s.next_out s.count r.room r.out_in
          (omega arith)),
)

-- Taking a chunk out keeps the ring well formed and yields the oldest chunk, if there is one.
pub remove_lem :
    {s : Shared}
    → IsRing s
    → s.count ≢ 0
    → IsRing (remove s) × (queued s ≡ get_chunk s ∷ queued (remove s))
unfolding remove get_chunk
remove_lem {s} r some_left = (
  record { room = r.room; out_in = omega arith; in_eq = omega arith; fits = omega arith },
  window-pop no_chunk buffer_capacity s.buffer s.next_out s.count (omega arith),
)
