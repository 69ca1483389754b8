-- ===== src/WebServer/Threads/Tests.antt =====
-- A client arrives, is put into the queue, and is taken by the first worker.
use systemprogramming.Base.{◌≤◌, ◌≡◌, ◌⊎◌, refl, [], ◌∷◌, ◌++◌, set, replicate, length}
use systemprogramming.WebServer.Queue.{max_queue, Queue, enqueue, dequeue}
use systemprogramming.WebServer.Queue.Fifo.{clients}
use systemprogramming.WebServer.Threads.{
  entering, looking, serving, Server, nobody, arrive, Step, signal_acceptor, hand_over, take_over,
  init, Reach, start, client, step,
}
use systemprogramming.WebServer.Threads.Invariant.{in_hand}
use systemprogramming.WebServer.Threads.Drain.{
  work_left, none_yet, then, AtRest, threads_fifo, threads_drain,
}

-- Client 9 has arrived.
abbrev arrived : Server
arrived = record init { acceptor = entering 9; accepted = 9 ∷ [] }

arrived-Reach : Reach arrived
arrived-Reach = client start (arrive 9 refl)

-- It is in the queue.
abbrev one_client : Queue
one_client = record { slots = set (replicate max_queue 0) 0 9; front = 0; rear = 1; count = 1 }

abbrev queued : Server
queued = record init { queue = one_client; accepted = 9 ∷ [] }

arrived_queued : Step arrived queued
unfolding enqueue
arrived_queued = hand_over refl refl (nobody refl)

threads_fifo_example :
    (queued.accepted ≡ queued.served ++ (clients queued.queue ++ in_hand queued.acceptor))
    × (length (clients queued.queue) ≤ max_queue)
threads_fifo_example = threads_fifo (step arrived-Reach arrived_queued)

-- The first worker has it.
abbrev taken : Server
taken = record init {
  queue = record one_client { front = 1; count = 0 };
  workers = serving 9 ∷ looking ∷ looking ∷ looking ∷ [];
  accepted = 9 ∷ [];
  served = 9 ∷ [];
}

queued_taken : Step queued taken
unfolding dequeue signal_acceptor
queued_taken = take_over 0 refl refl

threads_drain_example :
    (2 ≤ work_left arrived)
    × (taken.accepted ≡ arrived.accepted)
    × (AtRest taken ⊎ ((u : Server) × Step taken u))
threads_drain_example =
    threads_drain arrived-Reach (then (then none_yet arrived_queued) queued_taken)
