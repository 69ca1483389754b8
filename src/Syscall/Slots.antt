-- ===== src/Syscall/Slots.antt =====
-- A slot of the process table that is used again keeps the counter of its last process.
use systemprogramming.Base.{
  ℕ, zero, suc, ◌+◌, ◌<◌, ◌≡◌, refl, ap, ◌∙◌, arith, true, false, List, [], ◌∷◌, some, get_or, set,
  length, length-set, get_or-set_self, get_or-set_ne,
}
use systemprogramming.Syscall.{
  Trapframe, Proc, no_proc, is_unused, freeproc, find_unused, set_up, allocproc,
}

-- The process of a slot.
abbrev pub slot : List Proc → ℕ → Proc
slot procs i = get_or procs i no_proc

-- The first slot of the table that is not used.
abbrev pub IsFirstUnused : List Proc → ℕ → Type 0
IsFirstUnused procs i =
    (i < length procs)
    × (is_unused (slot procs i).state ≡ true)
    × ((j : ℕ) → j < i → is_unused (slot procs j).state ≡ false)

find_unused_first :
    (procs : List Proc) (b i : ℕ) → IsFirstUnused procs i → find_unused procs b ≡ some (b + i)
unfolding find_unused
find_unused_first [] b i h = absurd (omega (arith, h.0))
find_unused_first (p ∷ ps) b zero h = ground (arith, h.1)
find_unused_first (p ∷ ps) b (suc i) h =
    let rest : IsFirstUnused ps i = (omega (arith, h.0), h.1, λ j lt. h.2 (suc j) (omega arith)) in
    ground (arith, h.2 0 (omega arith), find_unused_first ps (b + 1) i rest)

-- The table when the process of a slot is freed.
abbrev pub free_slot : List Proc → ℕ → List Proc
free_slot procs i = set procs i (freeproc (slot procs i))

free_slot-IsFirstUnused :
    (procs : List Proc) (i : ℕ)
    → i < length procs
    → ((j : ℕ) → j < i → is_unused (slot procs j).state ≡ false)
    → IsFirstUnused (free_slot procs i) i
unfolding freeproc is_unused
free_slot-IsFirstUnused procs i h used = (
  omega (arith, length-set procs i (freeproc (slot procs i))),
  ap (λ (q : Proc). is_unused q.state)
      (get_or-set_self procs i (freeproc (slot procs i)) no_proc h),
  λ j lt.
      ap (λ (q : Proc). is_unused q.state)
        (get_or-set_ne procs (freeproc (slot procs i)) no_proc (omega arith))
      ∙ used j lt,
)

allocproc_first :
    (pid : ℕ) (page : Trapframe) (procs : List Proc) (i : ℕ)
    → IsFirstUnused procs i
    → let r = allocproc pid (some page) true procs in
      (r.1 ≡ some i)
      × ((slot r.0 i).pid ≡ pid)
      × ((slot r.0 i).syscall_count ≡ (slot procs i).syscall_count)
unfolding allocproc set_up
allocproc_first pid page procs i h =
    let p' : Proc = (set_up pid (some page) true (slot procs i)).0 in
    let e : find_unused procs 0 ≡ some i = find_unused_first procs 0 i h ∙ ap some (omega arith) in
    let here = get_or-set_self procs i p' no_proc h.0 in
    rw (e, allocproc) (refl, ap (λ (q : Proc). q.pid) here, ap (λ (q : Proc). q.syscall_count) here)

-- When the process of a slot is freed and no slot before it is free, the next process gets this slot,
-- with a number of its own, and starts with the counter of the process that was freed.
pub reuse-inherits :
    (procs : List Proc) (i pid : ℕ) (page : Trapframe)
    → i < length procs
    → ((j : ℕ) → j < i → is_unused (slot procs j).state ≡ false)
    → let r = allocproc pid (some page) true (free_slot procs i) in
      (r.1 ≡ some i)
      × ((slot r.0 i).pid ≡ pid)
      × ((slot r.0 i).syscall_count ≡ (slot procs i).syscall_count)
unfolding freeproc
reuse-inherits procs i pid page h used =
    let r =
      allocproc_first pid page (free_slot procs i) i (free_slot-IsFirstUnused procs i h used) in
    (
      r.0,
      r.1,
      r.2
          ∙ ap (λ (q : Proc). q.syscall_count)
              (get_or-set_self procs i (freeproc (slot procs i)) no_proc h),
    )
