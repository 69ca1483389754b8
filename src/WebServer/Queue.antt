-- ===== src/WebServer/Queue.antt =====
-- The queue of client sockets of lab9-lyjae/webserver-mt.c.
pub mod Fifo
use systemprogramming.Base.{
  ℕ, zero, suc, ◌+◌, ◌-◌, ◌%◌, ◌==◌, Bool, true, false, List, [], ◌∷◌, ◌++◌, Option, none, some,
  if◌then◌else◌, get_or, set, replicate,
}

abbrev pub max_queue : ℕ
max_queue = 16

-- `queue`, `front`, `rear` and `count`.
pub record Queue : Type 0 where
  pub slots : List ℕ
  pub front : ℕ
  pub rear : ℕ
  pub count : ℕ

abbrev pub empty : Queue
empty = record { slots = replicate max_queue 0; front = 0; rear = 0; count = 0 }

-- The critical sections of `enqueue` and `dequeue`; `none` where the thread waits.
unfoldable pub enqueue : Queue → ℕ → Option Queue
enqueue q client_fd =
    if q.count == max_queue
    then none
    else some (record q {
      slots = set q.slots q.rear client_fd;
      rear = (q.rear + 1) % max_queue;
      count = q.count + 1;
    })

unfoldable pub dequeue : Queue → Option (ℕ × Queue)
dequeue q =
    if q.count == 0
    then none
    else some (
      get_or q.slots q.front 0,
      record q { front = (q.front + 1) % max_queue; count = q.count - 1 },
    )

-- What the threads do next: the acceptor with a new client, or a worker.
pub data Turn : Type 0 where
  accepted : ℕ → Turn
  worker : Turn

-- A run of the server in any order of its threads: the clients that entered the queue and those that
-- left it, in order, with the last state. A turn in which the thread would wait changes nothing.
pub record Run : Type 0 where
  pub entered : List ℕ
  pub left : List ℕ
  pub last : Queue

pub turn : Queue → Turn → Run
unfolding enqueue dequeue
turn q (accepted fd) = elim (enqueue q fd) [
  | none ↦ record { entered = []; left = []; last = q }
  | some q' ↦ record { entered = fd ∷ []; left = []; last = q' }
]
turn q worker = elim (dequeue q) [
  | none ↦ record { entered = []; left = []; last = q }
  | some e ↦ record { entered = []; left = e.0 ∷ []; last = e.1 }
]

pub run : Queue → List Turn → Run
unfolding turn
run q [] = record { entered = []; left = []; last = q }
run q (t ∷ ts) =
    let r = turn q t in
    let r' = run r.last ts in
    record { entered = r.entered ++ r'.entered; left = r.left ++ r'.left; last = r'.last }
