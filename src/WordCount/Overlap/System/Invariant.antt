-- ===== src/WordCount/Overlap/System/Invariant.antt =====
-- The invariant of the threads of wc_mt_overlap.c, and what signals and single consumers do to its
-- sums.
use systemprogramming.Base.{ℕ, ◌+◌, ◌%◌, ◌≤◌, ◌<◌, ◌≡◌, ◌≢◌, refl, true, arith}
use systemprogramming.Base.{List, [], ◌∷◌, ◌++◌, map, some, get_elem?, set, sum_by, sum_by-set}
use systemprogramming.WordCount.Text.{int_values}
use systemprogramming.WordCount.Overlap.{Chunk, count_words_in_chunk}
use systemprogramming.WordCount.Overlap.Chunks.{sum_counts}
use systemprogramming.WordCount.Overlap.System.{
  Producer, ready, blocked, finished, Consumer, looking, waiting, counting, exited, signal_producer,
  wake, is_waiting, Signal, nobody, woken, System, buffer_capacity,
}
use systemprogramming.WordCount.Overlap.System.Queue.{queued, IsRing}

-- The words of the chunk that a consumer still has to add.
abbrev pub held : Consumer → ℕ
held (counting c) = count_words_in_chunk c
held _ = 0

abbrev pub is_active : Consumer → ℕ
is_active looking = 1
is_active (counting _) = 1
is_active _ = 0

abbrev pub has_exited : Consumer → ℕ
has_exited exited = 1
has_exited _ = 0

-- The words of the chunks that the producer has still to hand over.
abbrev pub pending : Producer → ℕ
pending (ready cs) = sum_counts cs
pending (blocked cs) = sum_counts cs
pending finished = 0

pub record Inv (all_words n : ℕ) (s : System) : Type 0 where
  pub ring : IsRing s.shared
  pub words_kept :
      (s.shared.total + sum_by held s.consumers + sum_counts (queued s.shared) + pending s.producer)
        % int_values
      ≡ all_words % int_values
  pub total_bound : s.shared.total < int_values
  pub people :
      sum_by is_active s.consumers + sum_by is_waiting s.consumers + sum_by has_exited s.consumers
      ≡ n
  pub awake : 0 < sum_by is_waiting s.consumers → s.shared.count ≤ sum_by is_active s.consumers
  pub done : s.shared.is_done ≡ true → (s.producer ≡ finished) × (sum_by is_waiting s.consumers ≡ 0)
  pub told : s.producer ≡ finished → s.shared.is_done ≡ true
  pub left : 0 < sum_by has_exited s.consumers → (s.shared.is_done ≡ true) × (s.shared.count ≡ 0)
  pub full : (cs : List Chunk) → s.producer ≡ blocked cs → s.shared.count ≡ buffer_capacity

-- What replacing one consumer does to the sums.
pub record Moved (cs cs' : List Consumer) (u v : Consumer) : Type 0 where
  pub holds : sum_by held cs' + held u ≡ sum_by held cs + held v
  pub active : sum_by is_active cs' + is_active u ≡ sum_by is_active cs + is_active v
  pub waits : sum_by is_waiting cs' + is_waiting u ≡ sum_by is_waiting cs + is_waiting v
  pub gone : sum_by has_exited cs' + has_exited u ≡ sum_by has_exited cs + has_exited v

pub moved :
    (cs : List Consumer) (i : ℕ) {u : Consumer} (v : Consumer)
    → get_elem? cs i ≡ some u
    → Moved cs (set cs i v) u v
moved cs i v e = record {
  holds = sum_by-set held cs i v e;
  active = sum_by-set is_active cs i v e;
  waits = sum_by-set is_waiting cs i v e;
  gone = sum_by-set has_exited cs i v e;
}

pub sum_counts-snoc :
    (cs : List Chunk) (c : Chunk)
    → sum_counts (cs ++ c ∷ []) ≡ sum_counts cs + count_words_in_chunk c
unfolding sum_counts
sum_counts-snoc [] c = omega arith
sum_counts-snoc (x ∷ cs) c = omega (arith, sum_counts-snoc cs c)

pub sum_counts-nil : sum_counts [] ≡ 0
unfolding sum_counts
sum_counts-nil = refl

pub sum_counts-cons :
    (c : Chunk) (cs : List Chunk) → sum_counts (c ∷ cs) ≡ count_words_in_chunk c + sum_counts cs
unfolding sum_counts
sum_counts-cons c cs = refl

-- The sums after a signal to the consumers: one of the waiting becomes active, if one waits.
pub record Signalled (cs cs' : List Consumer) : Type 0 where
  pub holds : sum_by held cs' ≡ sum_by held cs
  pub gone : sum_by has_exited cs' ≡ sum_by has_exited cs
  pub people :
      sum_by is_active cs' + sum_by is_waiting cs' ≡ sum_by is_active cs + sum_by is_waiting cs
  pub roused : 0 < sum_by is_waiting cs' → sum_by is_active cs' ≡ sum_by is_active cs + 1

pub signalled : {cs cs' : List Consumer} → Signal cs cs' → Signalled cs cs'
signalled (nobody e) = record {
  holds = refl;
  gone = refl;
  people = refl;
  roused = λ h. absurd (omega arith);
}
signalled {cs} (woken i e) =
    let m = moved cs i looking e in
    record {
      holds = omega (arith, m.holds);
      gone = omega (arith, m.gone);
      people = omega (arith, m.active, m.waits);
      roused = λ h. omega (arith, m.active);
    }

pub pending-signal : (p : Producer) → pending (signal_producer p) ≡ pending p
unfolding signal_producer
pending-signal (ready cs) = refl
pending-signal (blocked cs) = refl
pending-signal finished = refl

pub signal-finished : (p : Producer) → signal_producer p ≡ finished → p ≡ finished
unfolding signal_producer
signal-finished (ready cs) e = cc
signal-finished (blocked cs) e = cc
signal-finished finished e = refl

pub signal-blocked : (p : Producer) (cs : List Chunk) → signal_producer p ≢ blocked cs
unfolding signal_producer
signal-blocked (ready _) cs e = cc
signal-blocked (blocked _) cs e = cc
signal-blocked finished cs e = cc

-- The sums after a broadcast.
pub record Woken (cs : List Consumer) : Type 0 where
  pub holds : sum_by held (map wake cs) ≡ sum_by held cs
  pub gone : sum_by has_exited (map wake cs) ≡ sum_by has_exited cs
  pub waits : sum_by is_waiting (map wake cs) ≡ 0
  pub active : sum_by is_active (map wake cs) ≡ sum_by is_active cs + sum_by is_waiting cs

pub wake_each :
    (c : Consumer)
    → (held (wake c) ≡ held c)
      × (has_exited (wake c) ≡ has_exited c)
      × (is_waiting (wake c) ≡ 0)
      × (is_active (wake c) ≡ is_active c + is_waiting c)
unfolding wake
wake_each looking = omega arith
wake_each waiting = omega arith
wake_each (counting c) = omega arith
wake_each exited = omega arith

pub wake_all : (cs : List Consumer) → Woken cs
wake_all [] = omega arith
wake_all (c ∷ cs) =
    let h = wake_each c in
    let ih = wake_all cs in
    record {
      holds = omega (arith, h.0, ih.holds);
      gone = omega (arith, h.1, ih.gone);
      waits = omega (arith, h.2, ih.waits);
      active = omega (arith, h.3, ih.active);
    }
