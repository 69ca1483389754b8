-- ===== src/Syscall.antt =====
-- The counter of system calls that lab3-lyjae adds to xv6: kernel/syscall.c with kernel/sysproc.c, and
-- what kernel/proc.c does to the slots of processes. The other system calls are a parameter.
mod Counts
pub mod Laws
pub mod Slots
mod Tests
use systemprogramming.Base.{
  ℕ, zero, suc, ◌+◌, ◌-◌, ◌%◌, ◌^◌, Bool, true, false, ◌&&◌, ◌==◌, ltb, List, [], ◌∷◌, ◌++◌, Option,
  none, some, if◌then◌else◌, get_or, set,
}

-- `uint64` and `int`, the latter as its bit pattern.
abbrev pub u64 : ℕ → ℕ
u64 n = n % 2 ^ 64

abbrev pub to_int : ℕ → ℕ
to_int n = n % 2 ^ 32

pub data State : Type 0 where
  unused used sleeping runnable running zombie : State

-- The registers of `struct trapframe` that system calls read and write.
pub record Trapframe : Type 0 where
  pub a0 : ℕ
  pub a1 : ℕ
  pub a2 : ℕ
  pub a3 : ℕ
  pub a4 : ℕ
  pub a5 : ℕ
  pub a7 : ℕ

-- `struct proc`, without the lock, the kernel stack, the context, the files and the directory. The
-- pages are flags that say whether they are allocated.
pub record Proc : Type 0 where
  pub state : State
  pub chan : ℕ
  pub killed : ℕ
  pub xstate : ℕ
  pub pid : ℕ
  pub parent : Option ℕ
  pub sz : ℕ
  pub has_pagetable : Bool
  pub has_trapframe : Bool
  pub trapframe : Trapframe
  pub name : List ℕ
  pub syscall_count : ℕ

abbrev pub no_registers : Trapframe
no_registers = record { a0 = 0; a1 = 0; a2 = 0; a3 = 0; a4 = 0; a5 = 0; a7 = 0 }

abbrev pub no_proc : Proc
no_proc = record {
  state = unused;
  chan = 0;
  killed = 0;
  xstate = 0;
  pid = 0;
  parent = none;
  sz = 0;
  has_pagetable = false;
  has_trapframe = false;
  trapframe = no_registers;
  name = [];
  syscall_count = 0;
}

-- What the kernel prints: the name and the number of an unknown call, or the greeting.
pub data Message : Type 0 where
  unknown_call : List ℕ → ℕ → Message
  hello : Message

-- The process table, the slot of the process that runs, what was printed, and the rest of the kernel.
pub record Kernel (World : Type 0) : Type 0 where
  pub procs : List Proc
  pub current : ℕ
  pub printed : List Message
  pub world : World

abbrev pub proc_at : {World : Type 0} → Kernel World → ℕ → Proc
proc_at k i = get_or k.procs i no_proc

abbrev pub set_proc : {World : Type 0} → Kernel World → ℕ → Proc → Kernel World
set_proc k i p = record k { procs = set k.procs i p }

-- `argraw`; `none` is its panic.
pub argraw : Proc → ℕ → Option ℕ
argraw p n =
    if n == 0
    then some p.trapframe.a0
    else if n == 1
    then some p.trapframe.a1
    else if n == 2
    then some p.trapframe.a2
    else if n == 3
    then some p.trapframe.a3
    else if n == 4
    then some p.trapframe.a4
    else if n == 5
    then some p.trapframe.a5
    else none

abbrev pub sys_hello_number : ℕ
sys_hello_number = 22

abbrev pub sys_getsyscallcount_number : ℕ
sys_getsyscallcount_number = 23

-- `NELEM(syscalls)`. The entry of number 0 is the only null pointer.
abbrev pub num_syscalls : ℕ
num_syscalls = 24

-- The test of `syscall`. As an `int`, a pattern from 2 ^ 31 on is negative and fails it, too.
pub is_valid : ℕ → Bool
is_valid a7 = ltb 0 (to_int a7) && ltb (to_int a7) num_syscalls

-- The other system calls, by their numbers: the kernel behind the call, and its result.
abbrev pub Handlers : Type 0 → Type 0
Handlers World = ℕ → Kernel World → Kernel World × ℕ

module _ {World : Type 0} (handlers : Handlers World) where
  pub sys_hello : Kernel World → Kernel World × ℕ
  sys_hello k = (record k { printed = k.printed ++ hello ∷ [] }, 46201)

  pub sys_getsyscallcount : Kernel World → Kernel World × ℕ
  sys_getsyscallcount k = (k, (proc_at k k.current).syscall_count)

  -- `syscalls[num]()`.
  pub call : ℕ → Kernel World → Kernel World × ℕ
  unfolding sys_hello sys_getsyscallcount
  call num k =
      if num == sys_hello_number
      then sys_hello k
      else if num == sys_getsyscallcount_number
      then sys_getsyscallcount k
      else handlers num k

  -- `p->trapframe->a0 = v` for the process of a slot.
  pub return_value : ℕ → ℕ → Kernel World → Kernel World
  return_value i v k =
      let p = proc_at k i in
      set_proc k i (record p { trapframe = record p.trapframe { a0 = u64 v } })

  -- `syscall` for the process of slot `i`, which `myproc` returns.
  pub syscall_of : ℕ → Kernel World → Kernel World
  unfolding call return_value is_valid
  syscall_of i k =
      let p = proc_at k i in
      let num = to_int p.trapframe.a7 in
      if is_valid p.trapframe.a7
      then (let counted = set_proc k i (record p { syscall_count = u64 (p.syscall_count + 1) }) in
          let r = call num counted in return_value i r.1 r.0)
      else return_value i (2 ^ 64 - 1)
          (record k { printed = k.printed ++ unknown_call p.name num ∷ [] })

  pub syscall : Kernel World → Kernel World
  unfolding syscall_of
  syscall k = syscall_of k.current k

  -- A process loads `a7` and makes a system call.
  pub trap : ℕ → Kernel World → Kernel World
  unfolding syscall
  trap a7 k =
      let p = proc_at k k.current in
      syscall (set_proc k k.current (record p { trapframe = record p.trapframe { a7 = a7 } }))

  -- Several calls of one process.
  pub traps : List ℕ → Kernel World → Kernel World
  unfolding trap
  traps [] k = k
  traps (n ∷ ns) k = traps ns (trap n k)

-- `freeproc`.
pub freeproc : Proc → Proc
freeproc p = record p {
  has_trapframe = false;
  has_pagetable = false;
  sz = 0;
  pid = 0;
  parent = none;
  name = [];
  chan = 0;
  killed = 0;
  xstate = 0;
  state = unused;
}

pub is_unused : State → Bool
is_unused unused = true
is_unused _ = false

-- The slot that the loop of `allocproc` finds, from a slot on.
pub find_unused : List Proc → ℕ → Option ℕ
unfolding is_unused
find_unused [] i = none
find_unused (p ∷ ps) i =
    let rest = find_unused ps (i + 1) in if is_unused p.state then some i else rest

-- `allocproc` behind the loop, for a slot: the process number, the page that `kalloc` returns, with
-- what is in it, and whether `proc_pagetable` succeeds. The flag says whether there is a process.
pub set_up : ℕ → Option Trapframe → Bool → Proc → Proc × Bool
unfolding freeproc
set_up pid none good p = (freeproc (record p { pid = pid; state = used }), false)
set_up pid (some page) good p =
    let p' = record p { pid = pid; state = used; has_trapframe = true; trapframe = page } in
    if good then (record p' { has_pagetable = true }, true) else (freeproc p', false)

-- The table and the slot of the new process.
pub allocproc : ℕ → Option Trapframe → Bool → List Proc → List Proc × Option ℕ
unfolding set_up find_unused
allocproc pid page good procs = elim (find_unused procs 0) [
  | none ↦ (procs, none)
  | some i ↦
      let r = set_up pid page good (get_or procs i no_proc) in
      (set procs i r.0, if r.1 then some i else none)
]
