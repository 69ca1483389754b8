-- ===== src/WebServer/Threads.antt =====
-- The threads of lab9-lyjae/webserver-mt.c: the acceptor and the workers, with the two condition
-- variables of the queue. A critical section is one step, and so is the answer to a request, whose
-- contents do not matter here.
mod Invariant
pub mod Drain
mod Tests
use systemprogramming.Base.{
  ℕ, zero, suc, ◌+◌, ◌≡◌, List, [], ◌∷◌, ◌++◌, some, get_elem?, set, replicate, sum_by,
}
use systemprogramming.WebServer.Queue.{max_queue, Queue, empty, enqueue, dequeue}

-- `main` in `accept`, in `enqueue` with a client, or in the `pthread_cond_wait` of `enqueue`.
pub data Acceptor : Type 0 where
  accepting : Acceptor
  entering : ℕ → Acceptor
  blocked : ℕ → Acceptor

-- A worker in `dequeue`, in its `pthread_cond_wait`, or in `handle_request`.
pub data Worker : Type 0 where
  looking : Worker
  waiting : Worker
  serving : ℕ → Worker

-- The globals and the threads; the clients that were accepted so far and those that workers got,
-- both in order.
pub record Server : Type 0 where
  pub queue : Queue
  pub acceptor : Acceptor
  pub workers : List Worker
  pub accepted : List ℕ
  pub served : List ℕ

-- `pthread_cond_signal(&cond_nonfull)`: nobody but the acceptor waits there.
unfoldable pub signal_acceptor : Acceptor → Acceptor
signal_acceptor accepting = accepting
signal_acceptor (entering fd) = entering fd
signal_acceptor (blocked fd) = entering fd

abbrev pub is_waiting : Worker → ℕ
is_waiting waiting = 1
is_waiting _ = 0

-- `pthread_cond_signal(&cond_nonempty)`: one of the workers that wait is woken, if there is one.
pub data Signal (ws : List Worker) : List Worker → Type 0 where
  nobody : sum_by is_waiting ws ≡ 0 → Signal ws ws
  woken : (i : ℕ) → get_elem? ws i ≡ some waiting → Signal ws (set ws i looking)

-- `accept` returns a client.
pub data Arrive (s : Server) : Server → Type 0 where
  arrive :
      (fd : ℕ)
      → s.acceptor ≡ accepting
      → Arrive s (record s { acceptor = entering fd; accepted = s.accepted ++ fd ∷ [] })

-- The steps that the server makes by itself.
pub data Step (s : Server) : Server → Type 0 where
  wait_full :
      {fd : ℕ}
      → s.acceptor ≡ entering fd
      → s.queue.count ≡ max_queue
      → Step s (record s { acceptor = blocked fd })
  hand_over :
      {fd : ℕ} {q : Queue} {ws : List Worker}
      → s.acceptor ≡ entering fd
      → enqueue s.queue fd ≡ some q
      → Signal s.workers ws
      → Step s (record s { queue = q; acceptor = accepting; workers = ws })
  wait_empty :
      (i : ℕ)
      → get_elem? s.workers i ≡ some looking
      → s.queue.count ≡ 0
      → Step s (record s { workers = set s.workers i waiting })
  take_over :
      (i : ℕ) {fd : ℕ} {q : Queue}
      → get_elem? s.workers i ≡ some looking
      → dequeue s.queue ≡ some (fd, q)
      → Step s (record s {
        queue = q;
        acceptor = signal_acceptor s.acceptor;
        workers = set s.workers i (serving fd);
        served = s.served ++ fd ∷ [];
      })
  answer :
      (i : ℕ) {fd : ℕ}
      → get_elem? s.workers i ≡ some (serving fd)
      → Step s (record s { workers = set s.workers i looking })

-- A wake-up without a signal, which `pthread_cond_wait` allows at any time.
pub data Wake (s : Server) : Server → Type 0 where
  acceptor_wakes : {fd : ℕ} → s.acceptor ≡ blocked fd → Wake s (record s { acceptor = entering fd })
  worker_wakes :
      (i : ℕ)
      → get_elem? s.workers i ≡ some waiting
      → Wake s (record s { workers = set s.workers i looking })

abbrev pub thread_pool_size : ℕ
thread_pool_size = 4

-- The globals at the start, and the threads that `main` creates.
abbrev pub init : Server
init = record {
  queue = empty;
  acceptor = accepting;
  workers = replicate thread_pool_size looking;
  accepted = [];
  served = [];
}

pub data Reach : Server → Type 0 where
  start : Reach init
  client : {s t : Server} → Reach s → Arrive s t → Reach t
  step : {s t : Server} → Reach s → Step s t → Reach t
  spurious : {s t : Server} → Reach s → Wake s t → Reach t
