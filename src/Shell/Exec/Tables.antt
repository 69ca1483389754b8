-- ===== src/Shell/Exec/Tables.antt =====
-- What the commands of lab7-lyjae/mini-shell-2.c keep of the tables of the shell: a predicate of the
-- jobs and the variables that a new job and an assignment keep.
use systemprogramming.Base.{
  ℕ, ◌+◌, arith, Bool, true, false, List, [], ◌∷◌, none, some, inl, inr, Option-cases,
}
use systemprogramming.Shell.Vars.{Vars, set_local_var, set_global_var}
use systemprogramming.Shell.Exec.{
  Pid, Os, Job, Message, Shell, Status, returned, stopped, killed, say, say_if, strip_background,
  Scan, planned, no_input, no_output, no_plan, add_job, scan, after_wait, supervise, after_fork,
  after_scan, execute_external_command, say_each, jobs_from, export_one, export_builtin,
  set_builtin, assignment, assign_builtin, execute_command,
}

pub record KeepsTables (P : List Job → Vars → Type 0) : Type 0 where
  pub added :
      (pid : Pid) (words : List (List ℕ)) (flag : Bool) (jobs : List Job) (vars : Vars)
      → P jobs vars
      → P (add_job pid words flag jobs) vars
  pub assigned :
      (name value : List ℕ) (jobs : List Job) (vars : Vars)
      → P jobs vars
      → P jobs (set_local_var vars name value).0
  pub exported :
      (name value : List ℕ) (jobs : List Job) (vars : Vars)
      → P jobs vars
      → P jobs (set_global_var vars name value).0

module _ (P : List Job → Vars → Type 0) where
  abbrev pub Holds : Shell → Type 0
  Holds s = P s.jobs s.vars

  pub say_if-Holds : (c : Bool) (m : Message) (s : Shell) → Holds s → Holds (say_if c m s)
  unfolding say_if say
  say_if-Holds true m s h = h
  say_if-Holds false m s h = h

  say_each-Holds {κ} :
      {A : Type κ} (m : A → Message) (xs : List A) (s : Shell) → Holds s → Holds (say_each m xs s)
  unfolding say_each say
  say_each-Holds m [] s h = h
  say_each-Holds m (x ∷ xs) s h = say_each-Holds m xs (say (m x) s) h

  jobs_from-Holds : (i : ℕ) (js : List Job) (s : Shell) → Holds s → Holds (jobs_from i js s)
  unfolding jobs_from say
  jobs_from-Holds i [] s h = h
  jobs_from-Holds i (j ∷ js) s h = jobs_from-Holds (i + 1) js (say (Message.job_line (i + 1) j) s) h

  set_builtin-Holds : (s : Shell) → Holds s → Holds (set_builtin s)
  unfolding set_builtin
  set_builtin-Holds s h = say_each-Holds _ s.vars.globals _ (say_each-Holds _ s.vars.locals s h)

  module _ (k : KeepsTables P) where
    export_one-Holds : (s : Shell) (arg : List ℕ) → Holds s → Holds (export_one s arg)
    unfolding export_one
    export_one-Holds s arg h = say_if-Holds _ _ _ (k.exported _ _ s.jobs s.vars h)

    export_builtin-Holds :
        (s : Shell) (args : List (List ℕ)) → Holds s → Holds (export_builtin s args)
    unfolding export_builtin
    export_builtin-Holds s [] h = h
    export_builtin-Holds s (a ∷ rest) h =
        export_builtin-Holds (export_one s a) rest (export_one-Holds s a h)

    assign_builtin-Holds :
        (s : Shell) (name value : List ℕ) → Holds s → Holds (assign_builtin s name value)
    unfolding assign_builtin
    assign_builtin-Holds s name value h = say_if-Holds _ _ _ (k.assigned name value s.jobs s.vars h)

    after_wait-Holds :
        (s : Shell) (words : List (List ℕ)) (pid : Pid) (status : Status)
        → Holds s
        → Holds (after_wait words pid status s)
    unfolding after_wait say
    after_wait-Holds s words pid (returned n) h = h
    after_wait-Holds s words pid stopped h = k.added pid words true s.jobs s.vars h
    after_wait-Holds s words pid killed h = h

    module _ (os : Os) where
      open os use {World, wait}

      supervise-Holds :
          (w : World) (s : Shell) (background : Bool) (words : List (List ℕ)) (pid : Pid)
          → Holds s
          → Holds (supervise os w s background words pid).0.1
      unfolding supervise say
      supervise-Holds w s true words pid h = k.added pid words false s.jobs s.vars h
      supervise-Holds w s false words pid h =
          after_wait-Holds (record s { fg_pid = none }) words pid (wait w pid).1 h

      after_fork-Holds :
          (w : World) (s : Shell) (background : Bool) (words : List (List ℕ)) (child : Pid)
          → Holds s
          → Holds (after_fork os w s background words child).0.1
      unfolding after_fork say
      after_fork-Holds w s background words none h = h
      after_fork-Holds w s background words (some pid) h =
          supervise-Holds w s background words (some pid) h

      after_scan-Holds :
          (w : World) (s : Shell) (background : Bool) (r : Scan)
          → Holds s
          → Holds (after_scan os w s background r).0.1
      unfolding after_scan say
      after_scan-Holds w s background (planned p) h =
          after_fork-Holds _ (record s { open_fds = s.open_fds + p.opened }) background p.words _ h
      after_scan-Holds w s background (no_input n) h = h
      after_scan-Holds w s background (no_output n) h = h

      pub execute_external-Holds :
          (w : World) (s : Shell) (args : List (List ℕ))
          → Holds s
          → Holds (execute_external_command os w s args).0.1
      unfolding execute_external_command
      execute_external-Holds w s args h =
          let a = strip_background args in
          let r = scan os w a.0 no_plan in after_scan-Holds r.0 s a.1 r.1 h

      -- A command keeps what new jobs and assignments keep, whatever the system calls return.
      pub execute_command-Holds :
          (w : World) (s : Shell) (args : List (List ℕ))
          → Holds s
          → Holds (execute_command os w s args).1
      unfolding execute_command
      execute_command-Holds w s [] h = h
      execute_command-Holds w s (a ∷ args) h = elim (Option-cases (assignment a)) [
        | inr (x, e) ↦ rw (e, execute_command) (assign_builtin-Holds s x.0 x.1 h)
        | inl e ↦ ground (
          arith,
          e,
          h,
          export_builtin-Holds s args h,
          set_builtin-Holds s h,
          jobs_from-Holds 0 s.jobs s h,
          execute_external-Holds w s (a ∷ args) h,
        )
      ]
