-- ===== src/WordCount/Overlap/System/Steps.antt =====
-- Each kind of step of the threads of wc_mt_overlap.c keeps the invariant.
use systemprogramming.Base.{ℕ, ◌≡◌, ◌≢◌, refl, ap, true, false, arith}
use systemprogramming.Base.{List, [], ◌∷◌, map, some, get_elem?, set}
use systemprogramming.WordCount.Overlap.{Chunk}
use systemprogramming.WordCount.Overlap.Chunks.{sum_counts}
use systemprogramming.WordCount.Overlap.System.{
  ready, blocked, finished, Consumer, looking, waiting, counting, exited, put, get_chunk, remove,
  add_count, set_done, signal_producer, wake, Signal, System, buffer_capacity,
}
use systemprogramming.WordCount.Overlap.System.Queue.{queued, put_lem, remove_lem}
use systemprogramming.WordCount.Overlap.System.Invariant.{
  pending, Inv, moved, sum_counts-snoc, sum_counts-nil, sum_counts-cons, signalled, pending-signal,
  signal-finished, signal-blocked, wake_all,
}

module _ {W n : ℕ} {s : System} (inv : Inv W n s) where
  pub wait_full-Inv :
      {c : Chunk} {cs : List Chunk}
      → s.producer ≡ ready (c ∷ cs)
      → s.shared.count ≡ buffer_capacity
      → Inv W n (record s { producer = blocked (c ∷ cs) })
  wait_full-Inv p f = record {
    ring = inv.ring;
    words_kept = ground (arith, inv.words_kept);
    total_bound = inv.total_bound;
    people = inv.people;
    awake = inv.awake;
    done = λ d. ground (arith, inv.done d);
    told = λ e. cc;
    left = inv.left;
    full = λ cs e. f;
  }

  pub wait_empty-Inv :
      (i : ℕ)
      → get_elem? s.consumers i ≡ some looking
      → s.shared.count ≡ 0
      → s.shared.is_done ≡ false
      → Inv W n (record s { consumers = set s.consumers i waiting })
  wait_empty-Inv i e z nd =
      let m = moved s.consumers i waiting e in
      record {
        ring = inv.ring;
        words_kept = omega (arith, inv.words_kept, m.holds);
        total_bound = inv.total_bound;
        people = omega (arith, inv.people, m.active, m.waits, m.gone);
        awake = λ h. omega arith;
        done = λ d. cc;
        told = inv.told;
        left = λ h. inv.left (omega (arith, m.gone));
        full = inv.full;
      }

  pub leave-Inv :
      (i : ℕ)
      → get_elem? s.consumers i ≡ some looking
      → s.shared.count ≡ 0
      → s.shared.is_done ≡ true
      → Inv W n (record s { consumers = set s.consumers i exited })
  leave-Inv i e z d =
      let m = moved s.consumers i exited e in
      record {
        ring = inv.ring;
        words_kept = omega (arith, inv.words_kept, m.holds);
        total_bound = inv.total_bound;
        people = omega (arith, inv.people, m.active, m.waits, m.gone);
        awake = λ h. omega arith;
        done = λ d'. ((inv.done d).0, omega (arith, (inv.done d).1, m.waits));
        told = inv.told;
        left = λ h. (d, z);
        full = inv.full;
      }

  pub add-Inv :
      (i : ℕ) {c : Chunk}
      → get_elem? s.consumers i ≡ some (counting c)
      → Inv W n (record s { shared = add_count s.shared c; consumers = set s.consumers i looking })
  unfolding add_count
  add-Inv i {c} e =
      let m = moved s.consumers i looking e in
      record {
        ring = record {
          room = inv.ring.room;
          out_in = inv.ring.out_in;
          in_eq = inv.ring.in_eq;
          fits = inv.ring.fits;
        };
        words_kept = omega (arith, inv.words_kept, m.holds);
        total_bound = omega arith;
        people = omega (arith, inv.people, m.active, m.waits, m.gone);
        awake = λ h. omega (arith, inv.awake (omega (arith, m.waits)), m.active);
        done = λ d. ((inv.done d).0, omega (arith, (inv.done d).1, m.waits));
        told = inv.told;
        left = λ h. inv.left (omega (arith, m.gone));
        full = inv.full;
      }

  pub hand_over-Inv :
      {c : Chunk} {cs : List Chunk} {consumers : List Consumer}
      → s.producer ≡ ready (c ∷ cs)
      → s.shared.count ≢ buffer_capacity
      → Signal s.consumers consumers
      → Inv W n (record { shared = put s.shared c; producer = ready cs; consumers = consumers })
  unfolding put
  hand_over-Inv {c} {cs} p nf sig =
      let g = signalled sig in
      let r = put_lem c inv.ring nf in
      record {
        ring = r.0;
        words_kept = omega (
          arith,
          inv.words_kept,
          g.holds,
          ap sum_counts r.1,
          sum_counts-snoc (queued s.shared) c,
          sum_counts-cons c cs,
          ap pending p,
        );
        total_bound = inv.total_bound;
        people = omega (arith, inv.people, g.people, g.gone);
        awake = λ h. omega (arith, g.roused h, inv.awake (omega (arith, g.people, g.roused h)));
        done = λ d. absurd (ground (arith, inv.done d, p));
        told = λ e. cc;
        left = λ h. absurd (ground (arith, inv.left (omega (arith, g.gone)), inv.done, p));
        full = λ cs e. cc;
      }

  pub finish-Inv :
      s.producer ≡ ready []
      → Inv W n (record {
        shared = set_done s.shared;
        producer = finished;
        consumers = map wake s.consumers;
      })
  unfolding set_done
  finish-Inv p =
      let g = wake_all s.consumers in
      record {
        ring = record {
          room = inv.ring.room;
          out_in = inv.ring.out_in;
          in_eq = inv.ring.in_eq;
          fits = inv.ring.fits;
        };
        words_kept = omega (arith, inv.words_kept, g.holds, ap pending p, sum_counts-nil);
        total_bound = inv.total_bound;
        people = omega (arith, inv.people, g.active, g.gone, g.waits);
        awake = λ h. omega (arith, g.waits);
        done = λ d. (refl, g.waits);
        told = λ e. refl;
        left = λ h. (refl, (inv.left (omega (arith, g.gone))).1);
        full = λ cs e. cc;
      }

  pub take_over-Inv :
      (i : ℕ)
      → get_elem? s.consumers i ≡ some looking
      → s.shared.count ≢ 0
      → Inv W n (record {
        shared = remove s.shared;
        producer = signal_producer s.producer;
        consumers = set s.consumers i (counting (get_chunk s.shared));
      })
  unfolding remove signal_producer
  take_over-Inv i e ne =
      let m = moved s.consumers i (counting (get_chunk s.shared)) e in
      let r = remove_lem inv.ring ne in
      record {
        ring = r.0;
        words_kept = omega (
          arith,
          inv.words_kept,
          m.holds,
          ap sum_counts r.1,
          sum_counts-cons (get_chunk s.shared) (queued (remove s.shared)),
          pending-signal s.producer,
        );
        total_bound = inv.total_bound;
        people = omega (arith, inv.people, m.active, m.waits, m.gone);
        awake = λ h. omega (arith, inv.awake (omega (arith, m.waits)), m.active);
        done = λ d. (rw ((inv.done d).0), omega (arith, (inv.done d).1, m.waits));
        told = λ f. inv.told (signal-finished s.producer f);
        left = λ h. absurd (ne (inv.left (omega (arith, m.gone))).1);
        full = λ cs f. absurd (signal-blocked s.producer cs f);
      }

  pub producer_wakes-Inv :
      {cs : List Chunk} → s.producer ≡ blocked cs → Inv W n (record s { producer = ready cs })
  producer_wakes-Inv p = record {
    ring = inv.ring;
    words_kept = omega (arith, inv.words_kept, ap pending p);
    total_bound = inv.total_bound;
    people = inv.people;
    awake = inv.awake;
    done = λ d. absurd (ground (arith, inv.done d, p));
    told = λ e. cc;
    left = inv.left;
    full = λ cs e. cc;
  }

  pub consumer_wakes-Inv :
      (i : ℕ)
      → get_elem? s.consumers i ≡ some waiting
      → Inv W n (record s { consumers = set s.consumers i looking })
  consumer_wakes-Inv i e =
      let m = moved s.consumers i looking e in
      record {
        ring = inv.ring;
        words_kept = omega (arith, inv.words_kept, m.holds);
        total_bound = inv.total_bound;
        people = omega (arith, inv.people, m.active, m.waits, m.gone);
        awake = λ h. omega (arith, inv.awake (omega (arith, m.waits)), m.active);
        done = λ d. ((inv.done d).0, omega (arith, (inv.done d).1, m.waits));
        told = inv.told;
        left = λ h. inv.left (omega (arith, m.gone));
        full = inv.full;
      }
