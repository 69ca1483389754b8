-- ===== src/WebServer/Threads/Invariant.antt =====
-- The invariant of the threads of webserver-mt.c, and that every step keeps it.
use systemprogramming.Base.{
  ℕ, ◌+◌, ◌≤◌, ◌<◌, ◌≡◌, ◌≢◌, refl, sym, ap, ap₂, ◌∙◌, arith, List, [], ◌∷◌, ◌++◌, append-nil,
  append_assoc, some, get_elem?, set, sum_by, sum_by-set, length, length-append,
}
use mathlib.Core.Path.{subst}
use systemprogramming.Base.Window.{length-window}
use systemprogramming.WebServer.Queue.{max_queue, Queue, enqueue, dequeue}
use systemprogramming.WebServer.Queue.Fifo.{
  clients, IsValid, Enqueued, Dequeued, empty-IsValid, enqueue-Enqueued, dequeue-Dequeued,
}
use systemprogramming.WebServer.Threads.{
  Acceptor, accepting, entering, blocked, Worker, looking, waiting, serving, Server,
  signal_acceptor, is_waiting, Signal, nobody, woken, Arrive, arrive, Step, wait_full, hand_over,
  wait_empty, take_over, answer, Wake, acceptor_wakes, worker_wakes, thread_pool_size, init, Reach,
  start, client, step, spurious,
}

abbrev pub is_active : Worker → ℕ
is_active looking = 1
is_active (serving fd) = 1
is_active waiting = 0

-- The client that the acceptor has still to put into the queue.
abbrev pub in_hand : Acceptor → List ℕ
in_hand accepting = []
in_hand (entering fd) = fd ∷ []
in_hand (blocked fd) = fd ∷ []

-- What the threads have still to do, each in steps.
abbrev pub work_of : Worker → ℕ
work_of looking = 1
work_of (serving fd) = 2
work_of waiting = 0

pub record Inv (s : Server) : Type 0 where
  pub valid : IsValid s.queue
  pub order : s.accepted ≡ s.served ++ (clients s.queue ++ in_hand s.acceptor)
  pub people : sum_by is_active s.workers + sum_by is_waiting s.workers ≡ thread_pool_size
  pub awake : 0 < sum_by is_waiting s.workers → s.queue.count ≤ sum_by is_active s.workers
  pub full : (fd : ℕ) → s.acceptor ≡ blocked fd → s.queue.count ≡ max_queue

pub length-clients : (q : Queue) → length (clients q) ≡ q.count
length-clients q = length-window 0 max_queue q.slots q.front q.count

-- What `enqueue` and `dequeue` do where they do not wait.
pub record Entered (q : Queue) (fd : ℕ) (q' : Queue) : Type 0 where
  pub valid : IsValid q'
  pub content : clients q' ≡ clients q ++ fd ∷ []
  pub grown : q'.count ≡ q.count + 1

pub record Left (q : Queue) (fd : ℕ) (q' : Queue) : Type 0 where
  pub valid : IsValid q'
  pub content : clients q ≡ fd ∷ clients q'
  pub shrunk : q.count ≡ q'.count + 1

pub enqueue-Entered : {q q' : Queue} {fd : ℕ} → IsValid q → enqueue q fd ≡ some q' → Entered q fd q'
enqueue-Entered {q} {q'} {fd} v h =
    let e = subst (Enqueued q fd) h (enqueue-Enqueued fd v) in
    record {
      valid = e.0;
      content = e.1;
      grown = omega (
        arith,
        ap length e.1,
        length-append (clients q) (fd ∷ []),
        length-clients q,
        length-clients q',
      );
    }

pub dequeue-Left : {q q' : Queue} {fd : ℕ} → IsValid q → dequeue q ≡ some (fd, q') → Left q fd q'
dequeue-Left {q} {q'} {fd} v h =
    let e = subst (Dequeued q) h (dequeue-Dequeued v) in
    record {
      valid = e.0;
      content = e.1;
      shrunk = omega (arith, ap length e.1, length-clients q, length-clients q');
    }

-- What replacing one worker does to the sums.
pub record Moved (ws ws' : List Worker) (u v : Worker) : Type 0 where
  pub active : sum_by is_active ws' + is_active u ≡ sum_by is_active ws + is_active v
  pub waits : sum_by is_waiting ws' + is_waiting u ≡ sum_by is_waiting ws + is_waiting v
  pub work : sum_by work_of ws' + work_of u ≡ sum_by work_of ws + work_of v

pub moved :
    (ws : List Worker) (i : ℕ) {u : Worker} (v : Worker)
    → get_elem? ws i ≡ some u
    → Moved ws (set ws i v) u v
moved ws i v e = record {
  active = sum_by-set is_active ws i v e;
  waits = sum_by-set is_waiting ws i v e;
  work = sum_by-set work_of ws i v e;
}

-- What a signal does to them.
pub record Signalled (ws ws' : List Worker) : Type 0 where
  pub people :
      sum_by is_active ws' + sum_by is_waiting ws' ≡ sum_by is_active ws + sum_by is_waiting ws
  pub more : 0 < sum_by is_waiting ws → sum_by is_active ws' ≡ sum_by is_active ws + 1
  pub fewer : sum_by is_waiting ws' ≤ sum_by is_waiting ws
  pub work : sum_by work_of ws' ≤ sum_by work_of ws + 1

pub signalled : {ws ws' : List Worker} → Signal ws ws' → Signalled ws ws'
signalled (nobody z) = record {
  people = refl;
  more = λ h. absurd (omega arith);
  fewer = omega arith;
  work = omega arith;
}
signalled {ws} (woken i e) =
    let m = moved ws i looking e in
    record {
      people = omega (arith, m.active, m.waits);
      more = λ h. omega (arith, m.active);
      fewer = omega (arith, m.waits);
      work = omega (arith, m.work);
    }

in_hand-signal : (a : Acceptor) → in_hand (signal_acceptor a) ≡ in_hand a
unfolding signal_acceptor
in_hand-signal accepting = refl
in_hand-signal (entering fd) = refl
in_hand-signal (blocked fd) = refl

signal-unblocked : (a : Acceptor) (fd : ℕ) → signal_acceptor a ≢ blocked fd
unfolding signal_acceptor
signal-unblocked accepting fd e = cc
signal-unblocked (entering x) fd e = cc
signal-unblocked (blocked x) fd e = cc

pub Arrive-Inv : {s t : Server} → Inv s → Arrive s t → Inv t
Arrive-Inv {s} inv (arrive fd a) = record {
  valid = inv.valid;
  order =
      ap (λ l. l ++ fd ∷ []) (inv.order ∙ ap (λ b. s.served ++ (clients s.queue ++ in_hand b)) a)
      ∙ append_assoc s.served (clients s.queue ++ []) (fd ∷ [])
      ∙ ap (λ l. s.served ++ (l ++ fd ∷ [])) (append-nil (clients s.queue));
  people = inv.people;
  awake = inv.awake;
  full = λ x e. cc;
}

pub Step-Inv : {s t : Server} → Inv s → Step s t → Inv t
Step-Inv {s} inv (wait_full {fd} a c) = record {
  valid = inv.valid;
  order = inv.order ∙ ap (λ b. s.served ++ (clients s.queue ++ in_hand b)) a;
  people = inv.people;
  awake = inv.awake;
  full = λ x e. c;
}
Step-Inv {s} inv (hand_over {fd} {q} a h sig) =
    let e = enqueue-Entered inv.valid h in
    let g = signalled sig in
    record {
      valid = e.valid;
      order =
          inv.order
          ∙ ap (λ b. s.served ++ (clients s.queue ++ in_hand b)) a
          ∙ ap (λ l. s.served ++ l) (sym e.content ∙ sym (append-nil (clients q)));
      people = omega (arith, inv.people, g.people);
      awake = λ w.
          let waits : 0 < sum_by is_waiting s.workers = omega (arith, w, g.fewer) in
          omega (arith, inv.awake waits, g.more waits, e.grown);
      full = λ x b. cc;
    }
Step-Inv {s} inv (wait_empty i e z) =
    let m = moved s.workers i waiting e in
    record {
      valid = inv.valid;
      order = inv.order;
      people = omega (arith, inv.people, m.active, m.waits);
      awake = λ w. omega arith;
      full = inv.full;
    }
Step-Inv {s} inv (take_over i {fd} {q} e h) =
    let d = dequeue-Left inv.valid h in
    let m = moved s.workers i (serving fd) e in
    record {
      valid = d.valid;
      order =
          inv.order
          ∙ ap₂ (λ l b. s.served ++ (l ++ b)) d.content (sym (in_hand-signal s.acceptor))
          ∙ sym
              (append_assoc s.served (fd ∷ []) (clients q ++ in_hand (signal_acceptor s.acceptor)));
      people = omega (arith, inv.people, m.active, m.waits);
      awake = λ w. omega (arith, inv.awake (omega (arith, w, m.waits)), m.active, d.shrunk);
      full = λ x b. absurd (signal-unblocked s.acceptor x b);
    }
Step-Inv {s} inv (answer i {fd} e) =
    let m = moved s.workers i looking e in
    record {
      valid = inv.valid;
      order = inv.order;
      people = omega (arith, inv.people, m.active, m.waits);
      awake = λ w. omega (arith, inv.awake (omega (arith, w, m.waits)), m.active);
      full = inv.full;
    }

Wake-Inv : {s t : Server} → Inv s → Wake s t → Inv t
Wake-Inv {s} inv (acceptor_wakes {fd} a) = record {
  valid = inv.valid;
  order = inv.order ∙ ap (λ b. s.served ++ (clients s.queue ++ in_hand b)) a;
  people = inv.people;
  awake = inv.awake;
  full = λ x e. cc;
}
Wake-Inv {s} inv (worker_wakes i e) =
    let m = moved s.workers i looking e in
    record {
      valid = inv.valid;
      order = inv.order;
      people = omega (arith, inv.people, m.active, m.waits);
      awake = λ w. omega (arith, inv.awake (omega (arith, w, m.waits)), m.active);
      full = inv.full;
    }

init-Inv : Inv init
init-Inv = record {
  valid = empty-IsValid;
  order = refl;
  people = refl;
  awake = λ w. omega arith;
  full = λ x e. cc;
}

pub Reach-Inv : {s : Server} → Reach s → Inv s
Reach-Inv start = init-Inv
Reach-Inv (client r a) = Arrive-Inv (Reach-Inv r) a
Reach-Inv (step r a) = Step-Inv (Reach-Inv r) a
Reach-Inv (spurious r a) = Wake-Inv (Reach-Inv r) a
