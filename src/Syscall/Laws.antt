-- ===== src/Syscall/Laws.antt =====
-- What the counter of a process counts.
use systemprogramming.Base.{ℕ, ◌+◌, ◌<◌, ◌≡◌, sym, ap, ◌∙◌, arith, List, length}
use systemprogramming.Syscall.{
  u64, Proc, Kernel, proc_at, set_proc, is_valid, sys_getsyscallcount_number, Handlers,
  sys_getsyscallcount, call, return_value, syscall_of, syscall, trap, traps,
}
use systemprogramming.Syscall.Counts.{
  count_of, IsRunning, KeepCounter, valid_calls, result_of, last_step, u64-u64, set_current,
  length-set_proc, bump, bump-Counts, a7_of, trap-Counts, traps-Counts,
}

module _ {World : Type 0} (handlers : Handlers World) (keep : KeepCounter handlers) where
  -- After any calls of one process that return, its counter is the one before plus the number of the
  -- calls from 1 to 23 among them, modulo 2 ^ 64; other numbers do not count.
  pub traps-count :
      (ns : List ℕ) (k : Kernel World)
      → IsRunning k
      → count_of (traps handlers ns k) ≡ u64 (count_of k + valid_calls ns)
  traps-count ns k r = (traps-Counts handlers keep ns k r).counted

  stored :
      (k : Kernel World) (v : ℕ)
      → k.current < length k.procs
      → result_of (return_value handlers k.current v k) ≡ u64 v
  unfolding return_value
  stored k v h =
      let p = proc_at k k.current in
      ap (λ (q : Proc). q.trapframe.a0)
        (set_current k (record p { trapframe = record p.trapframe { a0 = u64 v } }) h)

  syscall-result :
      (k : Kernel World)
      → k.current < length k.procs
      → a7_of k ≡ sys_getsyscallcount_number
      → result_of (syscall handlers k) ≡ u64 (count_of k + 1)
  unfolding syscall syscall_of is_valid call sys_getsyscallcount
  syscall-result k h e =
      let b = bump-Counts handlers keep k h in
      rw e (
        stored (bump k) (count_of (bump k)) b.in_table
        ∙ ap u64 b.counted
        ∙ u64-u64 (count_of k + 1))

  trap-result :
      (k : Kernel World)
      → k.current < length k.procs
      → result_of (trap handlers sys_getsyscallcount_number k) ≡ u64 (count_of k + 1)
  unfolding trap
  trap-result k h =
      let p = proc_at k k.current in
      let p' : Proc = record p { trapframe = record p.trapframe { a7 = 23 } } in
      let k1 : Kernel World = set_proc k k.current p' in
      let here = set_current k p' h in
      syscall-result k1 (omega (arith, length-set_proc k k.current p'))
        (ap (λ (q : Proc). q.trapframe.a7) here)
      ∙ ap (λ (q : Proc). u64 (q.syscall_count + 1)) here

  -- The call `getsyscallcount` counts itself: it returns the counter before it plus 1. Between two of
  -- them the result grows by the number of the calls from 1 to 23 and by 1 for the second call, modulo
  -- 2 ^ 64.
  pub getsyscallcount-results :
      (ns : List ℕ) (k : Kernel World)
      → IsRunning k
      → let k1 = trap handlers sys_getsyscallcount_number k in
        (result_of k1 ≡ u64 (count_of k + 1))
        × (result_of (trap handlers sys_getsyscallcount_number (traps handlers ns k1))
            ≡ u64 (result_of k1 + valid_calls ns + 1))
  unfolding is_valid
  getsyscallcount-results ns k r =
      let k1 = trap handlers sys_getsyscallcount_number k in
      let c = trap-Counts handlers keep sys_getsyscallcount_number k r.in_table in
      let first = trap-result k r.in_table in
      let counted : count_of k1 ≡ u64 (count_of k + 1) = c.counted in
      let more =
        traps-Counts handlers keep ns k1
          (record { in_table = c.in_table; fits = omega (arith, counted) }) in
      (
        first,
        trap-result (traps handlers ns k1) more.in_table
            ∙ last_step (count_of k1) (count_of (traps handlers ns k1)) (result_of k1)
                (valid_calls ns) more.counted (counted ∙ sym first),
      )
