-- ===== src/WebServer/Threads/Drain.antt =====
-- The server of webserver-mt.c gives each client to a worker, in order, and comes to rest.
use systemprogramming.Base.{
  ℕ, suc, ◌+◌, ◌*◌, ◌≤◌, ◌<◌, ◌≡◌, ◌⊎◌, inl, inr, refl, sym, ap, ap₂, ◌∙◌, arith, List, [], ◌∷◌,
  ◌++◌, append-nil, some, get_elem?, set, sum_by, sum_by_pos, length, dec_lt, Option-cases,
}
use mathlib.Core.Path.{subst}
use systemprogramming.WebServer.Queue.{max_queue, Queue, enqueue, dequeue}
use systemprogramming.WebServer.Queue.Fifo.{
  clients, Enqueued, Dequeued, enqueue-Enqueued, dequeue-Dequeued,
}
use systemprogramming.WebServer.Threads.{
  Acceptor, accepting, entering, blocked, Worker, looking, waiting, serving, Server,
  signal_acceptor, is_waiting, Signal, nobody, woken, Step, wait_full, hand_over, wait_empty,
  take_over, answer, Reach,
}
use systemprogramming.WebServer.Threads.Invariant.{
  is_active, in_hand, work_of, Inv, length-clients, enqueue-Entered, dequeue-Left, moved, signalled,
  Step-Inv, Reach-Inv,
}

-- In every state that the threads can reach, the clients that were accepted are, in the order of
-- their arrival, those that workers got, those in the queue, and the one that the acceptor has still
-- to put there; and at most 16 are in the queue.
pub threads_fifo :
    {s : Server}
    → Reach s
    → (s.accepted ≡ s.served ++ (clients s.queue ++ in_hand s.acceptor))
      × (length (clients s.queue) ≤ max_queue)
threads_fifo {s} r =
    let inv = Reach-Inv r in (inv.order, omega (arith, length-clients s.queue, inv.valid.fits))

-- A bound on the steps that are left.
abbrev pub to_enter : Acceptor → ℕ
to_enter accepting = 0
to_enter (entering fd) = 5
to_enter (blocked fd) = 4

abbrev pub work_left : Server → ℕ
work_left s = to_enter s.acceptor + 3 * s.queue.count + sum_by work_of s.workers

to_enter-signal : (a : Acceptor) → to_enter (signal_acceptor a) ≤ to_enter a + 1
unfolding signal_acceptor
to_enter-signal accepting = omega arith
to_enter-signal (entering fd) = omega arith
to_enter-signal (blocked fd) = omega arith

Step-work_left : {s t : Server} → Inv s → Step s t → work_left t < work_left s
Step-work_left inv (wait_full a c) = omega (arith, ap to_enter a)
Step-work_left inv (hand_over a h sig) =
    omega (arith, ap to_enter a, (enqueue-Entered inv.valid h).grown, (signalled sig).work)
Step-work_left {s} inv (wait_empty i e z) = omega (arith, (moved s.workers i waiting e).work)
Step-work_left {s} inv (take_over i {fd} e h) = omega (
  arith,
  (dequeue-Left inv.valid h).shrunk,
  (moved s.workers i (serving fd) e).work,
  to_enter-signal s.acceptor,
)
Step-work_left {s} inv (answer i e) = omega (arith, (moved s.workers i looking e).work)

-- Some steps of the server with no new client and no wake-up without a signal.
pub data Steps (s : Server) : ℕ → Server → Type 0 where
  none_yet : Steps s 0 s
  then : {k : ℕ} {t u : Server} → Steps s k t → Step t u → Steps s (suc k) u

Step-accepted : {s t : Server} → Step s t → t.accepted ≡ s.accepted
Step-accepted (wait_full a c) = refl
Step-accepted (hand_over a h sig) = refl
Step-accepted (wait_empty i e z) = refl
Step-accepted (take_over i e h) = refl
Step-accepted (answer i e) = refl

-- What a number of steps keeps, and what it uses up.
record Advanced (s : Server) (k : ℕ) (t : Server) : Type 0 where
  inv : Inv t
  fewer : k + work_left t ≤ work_left s
  same : t.accepted ≡ s.accepted

Steps-Advanced : {s t : Server} {k : ℕ} → Inv s → Steps s k t → Advanced s k t
Steps-Advanced h none_yet = record { inv = h; fewer = omega arith; same = refl }
Steps-Advanced h (then r e) =
    let a = Steps-Advanced h r in
    record {
      inv = Step-Inv a.inv e;
      fewer = omega (arith, a.fewer, Step-work_left a.inv e);
      same = Step-accepted e ∙ a.same;
    }

pub AllWaiting : List Worker → Type 0
AllWaiting [] = Unit
AllWaiting (w ∷ ws) = (w ≡ waiting) × AllWaiting ws

idle-AllWaiting : (ws : List Worker) → sum_by is_active ws ≡ 0 → AllWaiting ws
unfolding AllWaiting
idle-AllWaiting [] z = tt
idle-AllWaiting (waiting ∷ ws) z = (refl, idle-AllWaiting ws (omega arith))
idle-AllWaiting (looking ∷ ws) z = absurd (omega arith)
idle-AllWaiting (serving fd ∷ ws) z = absurd (omega arith)

-- Nobody has anything to do: the acceptor waits for a client, the workers wait for the acceptor, and
-- every client was given to a worker.
pub record AtRest (s : Server) : Type 0 where
  pub no_client : s.acceptor ≡ accepting
  pub no_work : AllWaiting s.workers
  pub all_served : s.served ≡ s.accepted

Signal-exists : (ws : List Worker) → (ws' : List Worker) × Signal ws ws'
Signal-exists ws = elim (dec_lt 0 (sum_by is_waiting ws)) [
  | no none_waits ↦ (ws, nobody (omega arith))
  | yes some_waits ↦
      let (i, u, e, p) = sum_by_pos is_waiting ws some_waits in
      (set ws i looking, woken i (e ∙ ap some (the_waiting u p)))
]
  where
    the_waiting : (u : Worker) → 0 < is_waiting u → u ≡ waiting
    the_waiting waiting p = refl
    the_waiting looking p = absurd (omega arith)
    the_waiting (serving fd) p = absurd (omega arith)

-- A worker that does not wait for a signal has a step.
active-Step :
    {s : Server} (i : ℕ) (u : Worker)
    → Inv s
    → get_elem? s.workers i ≡ some u
    → 0 < is_active u
    → (t : Server) × Step s t
active-Step i waiting inv e p = absurd (omega arith)
active-Step i (serving fd) inv e p = (_, answer i e)
active-Step {s} i looking inv e p = elim (Option-cases (dequeue s.queue)) [
  | inr (x, h) ↦ (_, take_over i e h)
  | inl h ↦ (_, wait_empty i e (subst (Dequeued s.queue) h (dequeue-Dequeued inv.valid)))
]

some_active-Step : {s : Server} → Inv s → 0 < sum_by is_active s.workers → (t : Server) × Step s t
some_active-Step {s} inv p =
    let (i, u, e, q) = sum_by_pos is_active s.workers p in active-Step i u inv e q

empty_clients : (q : Queue) → q.count ≡ 0 → clients q ≡ []
empty_clients q z = length_zero (clients q) (length-clients q ∙ z)
  where
    length_zero : (xs : List ℕ) → length xs ≡ 0 → xs ≡ []
    length_zero [] e = refl
    length_zero (x ∷ xs) e = absurd (omega arith)

acceptor-Step :
    {s : Server} → Inv s → (a : Acceptor) → s.acceptor ≡ a → AtRest s ⊎ ((t : Server) × Step s t)
acceptor-Step {s} inv (entering fd) e = inr (elim (Option-cases (enqueue s.queue fd)) [
  | inr (q, h) ↦ (_, hand_over e h (Signal-exists s.workers).1)
  | inl h ↦ (_, wait_full e (subst (Enqueued s.queue fd) h (enqueue-Enqueued fd inv.valid)))
])
acceptor-Step {s} inv (blocked fd) e = inr (
    some_active-Step inv (elim (dec_lt 0 (sum_by is_waiting s.workers)) [
      | yes w ↦ omega (arith, inv.awake w, inv.full fd e)
      | no w ↦ omega (arith, inv.people)
    ]))
acceptor-Step {s} inv accepting e = elim (dec_lt 0 (sum_by is_active s.workers)) [
  | yes busy ↦ inr (some_active-Step inv busy)
  | no quiet ↦
      let none_left : s.queue.count ≡ 0 =
        omega (arith, inv.awake (omega (arith, inv.people, quiet)), quiet) in
      inl (record {
        no_client = e;
        no_work = idle-AllWaiting s.workers (omega (arith, quiet));
        all_served = sym (
            inv.order
            ∙ ap₂ (λ l a. s.served ++ (l ++ in_hand a)) (empty_clients s.queue none_left) e
            ∙ append-nil s.served);
      })
]

-- No deadlock, no lost wake-up and no client that is forgotten: from every state that the threads
-- can reach, with no new client and no wake-up without a signal, every order of the steps ends after
-- at most `work_left` of them; and where none is left, each client that was accepted has been given
-- to a worker and answered, and every thread waits for a new one.
pub threads_drain :
    {s t : Server} {k : ℕ}
    → Reach s
    → Steps s k t
    → (k ≤ work_left s) × (t.accepted ≡ s.accepted) × (AtRest t ⊎ ((u : Server) × Step t u))
threads_drain {s} {t} r steps =
    let a = Steps-Advanced (Reach-Inv r) steps in
    (omega (arith, a.fewer), a.same, acceptor-Step a.inv t.acceptor refl)
