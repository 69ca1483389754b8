-- ===== src/Syscall/Counts.antt =====
-- What one system call, and a list of them, does to the counter of the process.
use systemprogramming.Base.{
  ℕ, ◌+◌, ◌-◌, ◌^◌, ◌<◌, ◌≡◌, refl, ap, ◌∙◌, arith, Bool, true, false, ◌==◌, leb, ◌%◌, ◌&&◌, List,
  [], ◌∷◌, ◌++◌, if◌then◌else◌, length, length-set, get_or-set_self, Bool-cases, inl, inr,
}
use systemprogramming.Syscall.{
  u64, to_int, Proc, no_proc, Kernel, proc_at, set_proc, is_valid, unknown_call, sys_hello_number,
  sys_getsyscallcount_number, Handlers, sys_hello, sys_getsyscallcount, call, return_value,
  syscall_of, syscall, trap, traps,
}

-- The slot of the running process.
abbrev pub count_of : {World : Type 0} → Kernel World → ℕ
count_of k = (proc_at k k.current).syscall_count

-- The running process has a slot, and its counter is a `uint64`.
pub record IsRunning {World : Type 0} (k : Kernel World) : Type 0 where
  pub in_table : k.current < length k.procs
  pub fits : count_of k < 2 ^ 64

-- A call that returns does so in the same process, and nothing but `syscall` writes its counter.
pub record Returns {World : Type 0} (k k' : Kernel World) : Type 0 where
  pub same_current : k'.current ≡ k.current
  pub in_table : k'.current < length k'.procs
  pub same_count : count_of k' ≡ count_of k

abbrev pub KeepCounter : {World : Type 0} → Handlers World → Type 0
KeepCounter {World} handlers =
    (n : ℕ) (k : Kernel World) → k.current < length k.procs → Returns k (handlers n k).0

-- The numbers that have an entry in the table of the system calls: those from 1 to 23, as an `int`.
abbrev pub has_entry : ℕ → Bool
has_entry n = leb 1 (n % 2 ^ 32) && leb (n % 2 ^ 32) 23

-- The calls of a list that have one.
abbrev pub valid_calls : List ℕ → ℕ
valid_calls [] = 0
valid_calls (n ∷ ns) = (if has_entry n then 1 else 0) + valid_calls ns

is_valid_lem : (n : ℕ) → is_valid n ≡ has_entry n
unfolding is_valid
is_valid_lem n = ground arith

sum_step :
    (b : Bool) (c c1 v : ℕ)
    → c1 ≡ (if b then u64 (c + 1) else c)
    → u64 (c1 + v) ≡ u64 (c + ((if b then 1 else 0) + v))
sum_step true c c1 v e = omega (arith, e)
sum_step false c c1 v e = omega (arith, e)

-- What the process finds in `a0` behind a call.
abbrev pub result_of : {World : Type 0} → Kernel World → ℕ
result_of k = (proc_at k k.current).trapframe.a0

pub u64-u64 : (n : ℕ) → u64 (u64 n) ≡ u64 n
u64-u64 n = omega arith

pub last_step : (c d r v : ℕ) → d ≡ u64 (c + v) → c ≡ r → u64 (d + 1) ≡ u64 (r + v + 1)
last_step c d r v e f = omega (arith, e, f)

module _ {World : Type 0} where
  -- A process of the table in another state keeps the rest.
  pub set_current :
      (k : Kernel World) (p : Proc)
      → k.current < length k.procs
      → proc_at (set_proc k k.current p) k.current ≡ p
  set_current k p h = get_or-set_self k.procs k.current p no_proc h

  pub length-set_proc :
      (k : Kernel World) (i : ℕ) (p : Proc) → length (set_proc k i p).procs ≡ length k.procs
  length-set_proc k i p = length-set k.procs i p

  abbrev pub a7_of : Kernel World → ℕ
  a7_of k = (proc_at k k.current).trapframe.a7

  abbrev pub bump : Kernel World → Kernel World
  bump k =
      let p = proc_at k k.current in
      set_proc k k.current (record p { syscall_count = u64 (p.syscall_count + 1) })

module _ {World : Type 0} (handlers : Handlers World) (keep : KeepCounter handlers) where
  call-Returns :
      (n : ℕ) (k : Kernel World) → k.current < length k.procs → Returns k (call handlers n k).0
  unfolding call sys_hello sys_getsyscallcount
  call-Returns n k h = elim (Bool-cases (n == sys_hello_number)) [
    | inl e ↦ rw e (record { same_current = refl; in_table = h; same_count = refl })
    | inr e ↦ elim (Bool-cases (n == sys_getsyscallcount_number)) [
      | inl f ↦ rw (e, f) (record { same_current = refl; in_table = h; same_count = refl })
      | inr f ↦ rw (e, f) (keep n k h)
    ]
  ]

  return_value-Returns :
      (v : ℕ) (k : Kernel World)
      → k.current < length k.procs
      → Returns k (return_value handlers k.current v k)
  unfolding return_value
  return_value-Returns v k h =
      let p = proc_at k k.current in
      let p' : Proc = record p { trapframe = record p.trapframe { a0 = u64 v } } in
      record {
        same_current = refl;
        in_table = omega (arith, length-set_proc k k.current p');
        same_count = ap (λ (q : Proc). q.syscall_count) (set_current k p' h);
      }

  -- What a call does to the counter of the running process.
  pub record Counts (k k' : Kernel World) (count : ℕ) : Type 0 where
    pub same_current : k'.current ≡ k.current
    pub in_table : k'.current < length k'.procs
    pub counted : count_of k' ≡ count

  then_Counts : {k k1 k2 : Kernel World} {n : ℕ} → Counts k k1 n → Returns k1 k2 → Counts k k2 n
  then_Counts a b = record {
    same_current = b.same_current ∙ a.same_current;
    in_table = b.in_table;
    counted = b.same_count ∙ a.counted;
  }

  pub bump-Counts :
      (k : Kernel World) → k.current < length k.procs → Counts k (bump k) (u64 (count_of k + 1))
  bump-Counts k h =
      let p = proc_at k k.current in
      let p' : Proc = record p { syscall_count = u64 (p.syscall_count + 1) } in
      record {
        same_current = refl;
        in_table = omega (arith, length-set_proc k k.current p');
        counted = ap (λ (q : Proc). q.syscall_count) (set_current k p' h);
      }

  -- The result of a handler is stored for the process that made the call.
  store-Returns :
      (i v : ℕ) (k : Kernel World)
      → k.current ≡ i
      → k.current < length k.procs
      → Returns k (return_value handlers i v k)
  store-Returns i v k e h = rw (← e) (return_value-Returns v k h)

  syscall-Counts :
      (k : Kernel World)
      → k.current < length k.procs
      → Counts k
          (syscall handlers k)
          (if is_valid (a7_of k) then u64 (count_of k + 1) else count_of k)
  unfolding syscall syscall_of
  syscall-Counts k h = elim (Bool-cases (is_valid (a7_of k))) [
    | inl e ↦
        let b = bump-Counts k h in
        let r = call handlers (to_int (a7_of k)) (bump k) in
        let c = call-Returns (to_int (a7_of k)) (bump k) b.in_table in
        rw e (
          then_Counts (then_Counts b c) (store-Returns k.current r.1 r.0 c.same_current c.in_table))
    | inr e ↦
        let told : Kernel World = record k {
          printed = k.printed ++ unknown_call (proc_at k k.current).name (to_int (a7_of k)) ∷ [];
        } in
        let start : Counts k told (count_of k) = record {
          same_current = refl;
          in_table = h;
          counted = refl;
        } in
        rw e (then_Counts start (store-Returns k.current (2 ^ 64 - 1) told refl h))
  ]

  pub trap-Counts :
      (n : ℕ) (k : Kernel World)
      → k.current < length k.procs
      → Counts k (trap handlers n k) (if is_valid n then u64 (count_of k + 1) else count_of k)
  unfolding trap
  trap-Counts n k h =
      let p = proc_at k k.current in
      let p' : Proc = record p { trapframe = record p.trapframe { a7 = n } } in
      let k1 : Kernel World = set_proc k k.current p' in
      let here = set_current k p' h in
      let c = syscall-Counts k1 (omega (arith, length-set_proc k k.current p')) in
      record {
        same_current = c.same_current;
        in_table = c.in_table;
        counted =
            c.counted
            ∙ ap
                (λ (q : Proc).
                  if is_valid q.trapframe.a7 then u64 (q.syscall_count + 1) else q.syscall_count)
                here;
      }

  pub traps-Counts :
      (ns : List ℕ) (k : Kernel World)
      → IsRunning k
      → Counts k (traps handlers ns k) (u64 (count_of k + valid_calls ns))
  unfolding traps
  traps-Counts [] k r = record {
    same_current = refl;
    in_table = r.in_table;
    counted = omega (arith, r.fits);
  }
  traps-Counts (n ∷ ns) k r =
      let k1 = trap handlers n k in
      let c = trap-Counts n k r.in_table in
      let fits : count_of k1 < 2 ^ 64 = ground (arith, c.counted, r.fits) in
      let more = traps-Counts ns k1 (record { in_table = c.in_table; fits = fits }) in
      record {
        same_current = more.same_current ∙ c.same_current;
        in_table = more.in_table;
        counted =
            more.counted
            ∙ sum_step (has_entry n) (count_of k) (count_of k1) (valid_calls ns) (
                c.counted
                ∙ ap (λ b. if b then u64 (count_of k + 1) else count_of k) (is_valid_lem n));
      }
