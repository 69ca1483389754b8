-- ===== src/Shell/Exec/Bounds.antt =====
-- The bounds of the tables of the shell, and the descriptors that it never closes.
use systemprogramming.Base.{
  ℕ, ◌+◌, ◌≤◌, ◌≡◌, refl, arith, Bool, true, false, List, [], ◌∷◌, ◌++◌, none, some, length,
  length-append,
}
use systemprogramming.CString.{codes}
use systemprogramming.Shell.Vars.{Vars, max_vars, set_local_var, set_global_var}
use systemprogramming.Shell.Vars.Laws.{assign_bound}
use systemprogramming.Shell.Exec.Tables.{KeepsTables, execute_command-Holds}
use systemprogramming.Shell.Exec.Laws.{AllPlain, scan-redirects}
use systemprogramming.Shell.Exec.{
  max_jobs, Pid, Os, Job, Shell, say, strip_background, join_words, add_job, after_wait, supervise,
  after_fork, after_scan, execute_external_command, execute_command,
}

-- The tables are no longer than their arrays.
pub record Fits (jobs : List Job) (vars : Vars) : Type 0 where
  pub few_jobs : length jobs ≤ max_jobs
  pub few_locals : length vars.locals ≤ max_vars
  pub few_globals : length vars.globals ≤ max_vars

abbrev pub IsBounded : Shell → Type 0
IsBounded s = Fits s.jobs s.vars

length-add_job :
    (pid : Pid) (words : List (List ℕ)) (flag : Bool) (jobs : List Job)
    → length jobs ≤ max_jobs
    → length (add_job pid words flag jobs) ≤ max_jobs
unfolding add_job
length-add_job pid words flag jobs h =
    let job : Job = record { pid = pid; command = join_words words; is_stopped = flag } in
    ground (arith, length-append jobs (job ∷ []))

-- No new job and no assignment lets a table grow past its array.
pub Fits-KeepsTables : KeepsTables Fits
unfolding set_local_var set_global_var
Fits-KeepsTables = record {
  added = λ pid words flag jobs vars b. record {
    few_jobs = length-add_job pid words flag jobs b.few_jobs;
    few_locals = b.few_locals;
    few_globals = b.few_globals;
  };
  assigned = λ name value jobs vars b. record {
    few_jobs = b.few_jobs;
    few_locals = (assign_bound name value vars.locals b.few_locals).0;
    few_globals = b.few_globals;
  };
  exported = λ name value jobs vars b. record {
    few_jobs = b.few_jobs;
    few_locals = b.few_locals;
    few_globals = (assign_bound name value vars.globals b.few_globals).0;
  };
}

module _ (os : Os) where
  open os use {World, open_input, open_output, spawn, wait}

  -- No command lets a table of the shell grow past its array: at most 64 jobs, 64 local and 64 global
  -- variables before it give at most as many after it, whatever the system calls return.
  pub execute_command-IsBounded :
      (w : World) (s : Shell) (args : List (List ℕ))
      → IsBounded s
      → IsBounded (execute_command os w s args).1
  execute_command-IsBounded w s args = execute_command-Holds Fits Fits-KeepsTables os w s args

  open_fds-supervise :
      (w : World) (s : Shell) (background : Bool) (words : List (List ℕ)) (pid : Pid)
      → (supervise os w s background words pid).0.1.open_fds ≡ s.open_fds
  unfolding supervise after_wait say
  open_fds-supervise w s true words pid = refl
  open_fds-supervise w s false words pid = ground arith

  open_fds-after_fork :
      (w : World) (s : Shell) (background : Bool) (words : List (List ℕ)) (child : Pid)
      → (after_fork os w s background words child).0.1.open_fds ≡ s.open_fds
  unfolding after_fork say
  open_fds-after_fork w s background words none = refl
  open_fds-after_fork w s background words (some pid) =
      open_fds-supervise w s background words (some pid)

  -- A command with one `<` before one `>`, whose files can both be opened, in the foreground or
  -- in the background, leaves two more open descriptors in the shell than before, whatever
  -- becomes of the child.
  pub redirects_leak :
      (w : World) (s : Shell) (args before between after : List (List ℕ)) (source target : List ℕ)
      → (strip_background args).0
        ≡ before ++ (codes "<" ∷ source ∷ (between ++ (codes ">" ∷ target ∷ after)))
      → AllPlain before
      → AllPlain between
      → AllPlain after
      → (open_input w source).1 ≡ true
      → (open_output (open_input w source).0 target).1 ≡ true
      → (execute_external_command os w s args).0.1.open_fds ≡ s.open_fds + 2
  unfolding execute_external_command after_scan
  redirects_leak w s args before between after source target e hb hm ha gi go =
      let r = scan-redirects os w before between after source target hb hm ha gi go in
      rw (e, r) (open_fds-after_fork _ _ _ _ _)
