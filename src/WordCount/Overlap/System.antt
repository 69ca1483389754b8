-- ===== src/WordCount/Overlap/System.antt =====
-- The threads of wc_mt_overlap.c. A step is one critical section of `mutex`, or one start or end of
-- a `pthread_cond_wait`; the threads take their steps in any order.
pub mod Queue
pub mod Invariant
pub mod Steps
pub mod Reachable
pub mod Result
mod Tests
use systemprogramming.Base.{ℕ, zero, suc, ◌+◌, ◌-◌, ◌%◌, ◌<◌, ◌≡◌, ◌≢◌, Bool, true, false, ◌⊎◌}
use systemprogramming.Base.{List, [], ◌∷◌, map, some, get_elem?, get_or, set, replicate, sum_by}
use systemprogramming.WordCount.Text.{int_values}
use systemprogramming.WordCount.Overlap.{Chunk, count_words_in_chunk, produce}

abbrev pub buffer_capacity : ℕ
buffer_capacity = 64

-- What a slot holds before its first chunk.
abbrev pub no_chunk : Chunk
no_chunk = record { bytes = []; starts_inside_word = false }

-- The globals that `mutex` guards.
pub record Shared : Type 0 where
  pub buffer : List Chunk
  pub next_in : ℕ
  pub next_out : ℕ
  pub count : ℕ
  pub total : ℕ
  pub is_done : Bool

-- The producer with the chunks that it has still to hand over: before its critical section, inside
-- `pthread_cond_wait(&not_full)`, or past the end of the file.
pub data Producer : Type 0 where
  ready : List Chunk → Producer
  blocked : List Chunk → Producer
  finished : Producer

-- A consumer before its critical section, inside `pthread_cond_wait(&not_empty)`, with a chunk
-- whose count it has still to add, or past its loop.
pub data Consumer : Type 0 where
  looking : Consumer
  waiting : Consumer
  counting : Chunk → Consumer
  exited : Consumer

-- The producer's critical section behind its wait.
pub put : Shared → Chunk → Shared
put s chunk = record s {
  buffer = set s.buffer s.next_in chunk;
  next_in = (s.next_in + 1) % buffer_capacity;
  count = s.count + 1;
}

-- The consumer's first critical section behind its wait: the chunk, and what is left.
pub get_chunk : Shared → Chunk
get_chunk s = get_or s.buffer s.next_out no_chunk

pub remove : Shared → Shared
remove s = record s { next_out = (s.next_out + 1) % buffer_capacity; count = s.count - 1 }

-- Its second critical section.
pub add_count : Shared → Chunk → Shared
add_count s chunk = record s { total = (s.total + count_words_in_chunk chunk) % int_values }

-- The producer's last critical section.
pub set_done : Shared → Shared
set_done s = record s { is_done = true }

-- `pthread_cond_signal(&not_full)`: the producer is the only thread that waits there.
pub signal_producer : Producer → Producer
signal_producer (blocked cs) = ready cs
signal_producer (ready cs) = ready cs
signal_producer finished = finished

-- `pthread_cond_broadcast(&not_empty)`.
pub wake : Consumer → Consumer
wake waiting = looking
wake looking = looking
wake (counting c) = counting c
wake exited = exited

abbrev pub is_waiting : Consumer → ℕ
is_waiting waiting = 1
is_waiting _ = 0

-- `pthread_cond_signal(&not_empty)`: one of the waiting consumers is woken, if there is one.
pub data Signal (cs : List Consumer) : List Consumer → Type 0 where
  nobody : sum_by is_waiting cs ≡ 0 → Signal cs cs
  woken : (i : ℕ) → get_elem? cs i ≡ some waiting → Signal cs (set cs i looking)

pub record System : Type 0 where
  pub shared : Shared
  pub producer : Producer
  pub consumers : List Consumer

-- The steps that the program makes by itself.
pub data Step (s : System) : System → Type 0 where
  wait_full :
      {c : Chunk} {cs : List Chunk}
      → s.producer ≡ ready (c ∷ cs)
      → s.shared.count ≡ buffer_capacity
      → Step s (record s { producer = blocked (c ∷ cs) })
  hand_over :
      {c : Chunk} {cs : List Chunk} {consumers : List Consumer}
      → s.producer ≡ ready (c ∷ cs)
      → s.shared.count ≢ buffer_capacity
      → Signal s.consumers consumers
      → Step s (record { shared = put s.shared c; producer = ready cs; consumers = consumers })
  finish :
      s.producer ≡ ready []
      → Step s (record {
        shared = set_done s.shared;
        producer = finished;
        consumers = map wake s.consumers;
      })
  wait_empty :
      (i : ℕ)
      → get_elem? s.consumers i ≡ some looking
      → s.shared.count ≡ 0
      → s.shared.is_done ≡ false
      → Step s (record s { consumers = set s.consumers i waiting })
  leave :
      (i : ℕ)
      → get_elem? s.consumers i ≡ some looking
      → s.shared.count ≡ 0
      → s.shared.is_done ≡ true
      → Step s (record s { consumers = set s.consumers i exited })
  take_over :
      (i : ℕ)
      → get_elem? s.consumers i ≡ some looking
      → s.shared.count ≢ 0
      → Step s (record {
        shared = remove s.shared;
        producer = signal_producer s.producer;
        consumers = set s.consumers i (counting (get_chunk s.shared));
      })
  add :
      (i : ℕ) {c : Chunk}
      → get_elem? s.consumers i ≡ some (counting c)
      → Step s (record s { shared = add_count s.shared c; consumers = set s.consumers i looking })

-- A spurious wake-up, which `pthread_cond_wait` allows at any time.
pub data Wake (s : System) : System → Type 0 where
  producer_wakes :
      {cs : List Chunk} → s.producer ≡ blocked cs → Wake s (record s { producer = ready cs })
  consumer_wakes :
      (i : ℕ)
      → get_elem? s.consumers i ≡ some waiting
      → Wake s (record s { consumers = set s.consumers i looking })

-- The globals at the start of the program, and the threads that `main` creates.
abbrev pub init : List ℕ → ℕ → System
init file num_consumers = record {
  shared = record {
    buffer = replicate buffer_capacity no_chunk;
    next_in = 0;
    next_out = 0;
    count = 0;
    total = 0;
    is_done = false;
  };
  producer = ready (produce file);
  consumers = replicate num_consumers looking;
}

pub data Reach (file : List ℕ) (num_consumers : ℕ) : System → Type 0 where
  start : Reach file num_consumers (init file num_consumers)
  step : {s t : System} → Reach file num_consumers s → Step s t → Reach file num_consumers t
  spurious : {s t : System} → Reach file num_consumers s → Wake s t → Reach file num_consumers t
