-- ===== src/WebServer/Queue/Fifo.antt =====
-- The queue of webserver-mt.c hands every client over once, in the order of arrival.
use systemprogramming.Base.{
  ℕ, ◌+◌, ◌%◌, ◌≤◌, ◌<◌, ◌≡◌, inl, inr, refl, sym, ap, ap₂, ◌∙◌, arith, ◌==◌, Bool-cases, List, [],
  ◌∷◌, ◌++◌, append-nil, append_assoc, Option, none, some, length, set, length-set,
  length-replicate,
}
use systemprogramming.Base.Window.{window, window-push, window-pop, length-window}
use native.Mathlib.Numerals.{add-one}
use systemprogramming.WebServer.Queue.{
  max_queue, Queue, empty, enqueue, dequeue, Turn, accepted, worker, Run, turn, run,
}

-- The waiting clients, oldest first.
abbrev pub clients : Queue → List ℕ
clients q = window 0 max_queue q.slots q.front q.count

pub record IsValid (q : Queue) : Type 0 where
  pub room : length q.slots ≡ max_queue
  pub front_in : q.front < max_queue
  pub rear_eq : q.rear ≡ (q.front + q.count) % max_queue
  pub fits : q.count ≤ max_queue

abbrev pub Enqueued : Queue → ℕ → Option Queue → Type 0
Enqueued q fd none = q.count ≡ max_queue
Enqueued q fd (some q') = IsValid q' × (clients q' ≡ clients q ++ fd ∷ [])

abbrev pub Dequeued : Queue → Option (ℕ × Queue) → Type 0
Dequeued q none = q.count ≡ 0
Dequeued q (some e) = IsValid e.1 × (clients q ≡ e.0 ∷ clients e.1)

pub empty-IsValid : IsValid empty
empty-IsValid = record {
  room = length-replicate {A = ℕ} max_queue 0;
  front_in = omega arith;
  rear_eq = refl;
  fits = omega arith;
}

pub enqueue-Enqueued : {q : Queue} (fd : ℕ) → IsValid q → Enqueued q fd (enqueue q fd)
unfolding enqueue
enqueue-Enqueued {q} fd v = elim (Bool-cases (q.count == max_queue)) [
  | inl e ↦ rw e (ground (arith, e))
  | inr e ↦ rw e (
    record {
      room = length-set q.slots q.rear fd ∙ v.room;
      front_in = v.front_in;
      rear_eq = omega arith;
      fits = ground (arith, e, v.fits);
    },
    ap₂ (λ k j. window 0 max_queue (set q.slots k fd) q.front j) v.rear_eq (add-one q.count)
        ∙ window-push 0 max_queue q.slots fd q.front q.count v.room v.front_in
            (ground (arith, e, v.fits)),
  )
]

pub dequeue-Dequeued : {q : Queue} → IsValid q → Dequeued q (dequeue q)
unfolding dequeue
dequeue-Dequeued {q} v = elim (Bool-cases (q.count == 0)) [
  | inl e ↦ rw e (ground (arith, e))
  | inr e ↦
      let some_wait : 0 < q.count = ground (arith, e) in
      rw e (
        record {
          room = v.room;
          front_in = omega arith;
          rear_eq = omega (arith, v.rear_eq);
          fits = omega arith;
        },
        window-pop 0 max_queue q.slots q.front q.count some_wait,
      )
]

-- What one turn does to the clients that wait.
record Turned (q : Queue) (r : Run) : Type 0 where
  valid : IsValid r.last
  kept : clients q ++ r.entered ≡ r.left ++ clients r.last

turn-Turned : {q : Queue} (t : Turn) → IsValid q → Turned q (turn q t)
unfolding turn
turn-Turned {q} (accepted fd) v = go (enqueue q fd) (enqueue-Enqueued fd v)
  where
    go :
        (o : Option Queue)
        → Enqueued q fd o
        → Turned q (elim o [
          | none ↦ record { entered = []; left = []; last = q }
          | some q' ↦ record { entered = fd ∷ []; left = []; last = q' }
        ])
    go none e = record { valid = v; kept = append-nil (clients q) }
    go (some q') e = record { valid = e.0; kept = sym e.1 }
turn-Turned {q} worker v = go (dequeue q) (dequeue-Dequeued v)
  where
    go :
        (o : Option (ℕ × Queue))
        → Dequeued q o
        → Turned q (elim o [
          | none ↦ record { entered = []; left = []; last = q }
          | some e ↦ record { entered = []; left = e.0 ∷ []; last = e.1 }
        ])
    go none e = record { valid = v; kept = append-nil (clients q) }
    go (some e) d = record { valid = d.0; kept = append-nil (clients q) ∙ d.1 }

run-Turned : (ts : List Turn) {q : Queue} → IsValid q → Turned q (run q ts)
unfolding run
run-Turned [] {q} v = record { valid = v; kept = append-nil (clients q) }
run-Turned (t ∷ ts) {q} v =
    let one = turn-Turned t v in
    let r = turn q t in
    let more = run-Turned ts one.valid in
    let r' = run r.last ts in
    record {
      valid = more.valid;
      kept =
          sym (append_assoc (clients q) r.entered r'.entered)
          ∙ ap (λ l. l ++ r'.entered) one.kept
          ∙ append_assoc r.left (clients r.last) r'.entered
          ∙ ap (λ l. r.left ++ l) more.kept
          ∙ sym (append_assoc r.left r'.left (clients r'.last));
    }

-- From the empty queue, whatever the order of the threads, the clients that entered are those that
-- the workers got and then those that still wait, in the order of arrival; and at most 16 wait.
pub run_fifo :
    (ts : List Turn)
    → let r = run empty ts in
      (r.entered ≡ r.left ++ clients r.last) × (length (clients r.last) ≤ max_queue)
run_fifo ts =
    let h = run-Turned ts empty-IsValid in
    (
      h.kept,
      rw
          (length-window 0 max_queue (run empty ts).last.slots (run empty ts).last.front
            (run empty ts).last.count)
          h.valid.fits,
    )

-- In a well-formed queue an operation is refused only for the reason that the code waits for: a
-- full queue for enqueue, an empty one for dequeue.
pub waits_only :
    {q : Queue} (fd : ℕ)
    → IsValid q
    → (enqueue q fd ≡ none → length (clients q) ≡ max_queue) × (dequeue q ≡ none → clients q ≡ [])
unfolding enqueue dequeue
waits_only {q} fd v = (
  λ e. length-window 0 max_queue q.slots q.front q.count ∙ ground (arith, e),
  λ e.
      let none_wait : q.count ≡ 0 = ground (arith, e) in
      ap (λ k. window 0 max_queue q.slots q.front k) none_wait,
)
