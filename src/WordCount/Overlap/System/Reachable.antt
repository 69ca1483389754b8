-- ===== src/WordCount/Overlap/System/Reachable.antt =====
-- Every state that the threads of wc_mt_overlap.c reach has the invariant.
use systemprogramming.Base.{ℕ, refl, arith}
use systemprogramming.Base.{List, sum_by-replicate, length-replicate}
use systemprogramming.WordCount.Text.{words}
use systemprogramming.WordCount.Overlap.Chunks.{produce_lem}
use systemprogramming.WordCount.Overlap.System.{
  looking, is_waiting, System, Step, wait_full, hand_over, finish, wait_empty, leave, take_over,
  add, Wake, producer_wakes, consumer_wakes, init, Reach, start, step, spurious, buffer_capacity,
  no_chunk,
}
use systemprogramming.WordCount.Overlap.System.Invariant.{
  held, is_active, has_exited, Inv, sum_counts-nil,
}
use systemprogramming.WordCount.Overlap.System.Steps.{
  wait_full-Inv, wait_empty-Inv, leave-Inv, add-Inv, hand_over-Inv, finish-Inv, take_over-Inv,
  producer_wakes-Inv, consumer_wakes-Inv,
}

-- Every step of a thread keeps the invariant.
pub Step-Inv : {W n : ℕ} {s t : System} → Step s t → Inv W n s → Inv W n t
Step-Inv (wait_full p f) inv = wait_full-Inv inv p f
Step-Inv (hand_over p nf sig) inv = hand_over-Inv inv p nf sig
Step-Inv (finish p) inv = finish-Inv inv p
Step-Inv (wait_empty i e z nd) inv = wait_empty-Inv inv i e z nd
Step-Inv (leave i e z d) inv = leave-Inv inv i e z d
Step-Inv (take_over i e ne) inv = take_over-Inv inv i e ne
Step-Inv (add i e) inv = add-Inv inv i e

pub Wake-Inv : {W n : ℕ} {s t : System} → Wake s t → Inv W n s → Inv W n t
Wake-Inv (producer_wakes p) inv = producer_wakes-Inv inv p
Wake-Inv (consumer_wakes i e) inv = consumer_wakes-Inv inv i e

init-Inv : (file : List ℕ) (n : ℕ) → Inv (words file) n (init file n)
init-Inv file n = record {
  ring = record {
    room = length-replicate buffer_capacity no_chunk;
    out_in = omega arith;
    in_eq = refl;
    fits = omega arith;
  };
  total_bound = omega arith;
  words_kept = omega (arith, (produce_lem file).1, sum_by-replicate held n looking, sum_counts-nil);
  people = omega (
    arith,
    sum_by-replicate is_active n looking,
    sum_by-replicate is_waiting n looking,
    sum_by-replicate has_exited n looking,
  );
  awake = λ h. omega arith;
  done = λ e. cc;
  told = λ e. cc;
  left = λ h. absurd (omega (arith, sum_by-replicate has_exited n looking));
  full = λ cs e. cc;
}

pub Reach-Inv : {file : List ℕ} {n : ℕ} {s : System} → Reach file n s → Inv (words file) n s
Reach-Inv {file} {n} start = init-Inv file n
Reach-Inv (step r st) = Step-Inv st (Reach-Inv r)
Reach-Inv (spurious r w) = Wake-Inv w (Reach-Inv r)
