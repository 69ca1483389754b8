-- ===== src/Syscall/Tests.antt =====
-- The counter at concrete inputs.
use systemprogramming.Base.{◌+◌, ◌≡◌, refl, arith, true, [], ◌∷◌, some}
use systemprogramming.Syscall.{
  Proc, Kernel, Handlers, no_proc, no_registers, u64, is_valid, trap, traps, syscall, syscall_of,
  call, return_value, sys_hello, sys_getsyscallcount, allocproc, running,
}
use systemprogramming.Syscall.Counts.{IsRunning, count_of, result_of, KeepCounter}
use systemprogramming.Syscall.Laws.{traps-count, getsyscallcount-results}
use systemprogramming.Syscall.Slots.{slot, free_slot, reuse-inherits}

abbrev World : Type 0
World = Unit {0}

-- The other calls do nothing and return 0.
abbrev idle : Handlers World
idle n k = (k, 0)

idle_keeps : KeepCounter idle
idle_keeps n k h = record { same_current = refl; in_table = h; same_count = refl }

abbrev test_proc : Proc
test_proc = record no_proc { state = running; pid = 3; syscall_count = 5 }

abbrev kernel : Kernel World
kernel = record { procs = test_proc ∷ []; current = 0; printed = []; world = tt }

current_runs : IsRunning kernel
current_runs = record { in_table = omega arith; fits = omega arith }

traps-count_example : count_of (traps idle (11 ∷ 999 ∷ 22 ∷ []) kernel) ≡ u64 (5 + 2)
unfolding is_valid
traps-count_example = traps-count idle idle_keeps (11 ∷ 999 ∷ 22 ∷ []) kernel current_runs

-- The calls of user/test_sc.c between its first and its second `getsyscallcount`: getpid, sleep, pipe,
-- write and read.
getsyscallcount-results_example :
    let k1 = trap idle 23 kernel in
    (result_of k1 ≡ u64 (5 + 1))
    × (result_of (trap idle 23 (traps idle (11 ∷ 13 ∷ 4 ∷ 16 ∷ 5 ∷ []) k1))
        ≡ u64 (result_of k1 + 5 + 1))
unfolding is_valid
getsyscallcount-results_example =
    getsyscallcount-results idle idle_keeps (11 ∷ 13 ∷ 4 ∷ 16 ∷ 5 ∷ []) kernel current_runs

-- What `test_sc` prints as its total.
total_is_10 :
    result_of (
      traps idle (23 ∷ 11 ∷ 13 ∷ 4 ∷ 16 ∷ 5 ∷ 23 ∷ 999 ∷ 1000 ∷ 42 ∷ 23 ∷ 23 ∷ 23 ∷ 23 ∷ []) kernel)
    ≡ 6 + 10
unfolding traps trap syscall syscall_of call return_value sys_hello sys_getsyscallcount is_valid
total_is_10 = refl

reuse-inherits_example :
    let r = allocproc 4 (some no_registers) true (free_slot (test_proc ∷ []) 0) in
    (r.1 ≡ some 0) × ((slot r.0 0).pid ≡ 4) × ((slot r.0 0).syscall_count ≡ 5)
reuse-inherits_example =
    reuse-inherits (test_proc ∷ []) 0 4 no_registers (omega arith) (λ j lt. absurd (omega arith))
