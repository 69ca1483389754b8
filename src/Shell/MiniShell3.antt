-- ===== src/Shell/MiniShell3.antt =====
-- lab7-lyjae/mini-shell-3.c, the shell with the command `fg`. Errors print nothing in it, the result of
-- `fork` is not tested, and a new job is stored with no test of the bound: the list of the jobs is
-- longer than the array of the C code when that writes behind its end.
pub mod Same
pub mod Fg
pub mod Idle
pub mod Session
mod Tests
use systemprogramming.Base.{
  ℕ, ◌+◌, ◌-◌, Bool, true, false, List, [], ◌∷◌, ◌++◌, Option, none, some, if◌then◌else◌, get_or,
  take,
}
use systemprogramming.CString.{codes, str_eq, strchr, strtok, atoi}
use systemprogramming.Shell.Vars.{Vars, get_var_value, assign, setenv}
use systemprogramming.Shell.Parse.{max_args, is_delim, expand_variables}
use systemprogramming.Shell.Exec.{
  Os, Pid, Status, returned, stopped, killed, Job, Shell, background_pid, stopped_pid,
  no_current_job, job_not_found, job_not_stopped, resuming, say, Scan, planned, no_input, no_output,
  no_plan, join_words, strip_background, scan, exit_status, set_builtin, jobs_from, assignment,
}
use systemprogramming.Shell.Resume.{
  no_job, Chosen, no_current, not_found, not_stopped, chosen, choose, mark, has_stopped, resumed,
}
use systemprogramming.Shell.Block.{Line, Program}
use systemprogramming.Shell.Block

unfoldable pub set_local_var : Vars → List ℕ → List ℕ → Vars
unfolding assign
set_local_var s name value = record s { locals = (assign name value s.locals).0 }

unfoldable pub set_global_var : Vars → List ℕ → List ℕ → Vars
unfolding assign setenv
set_global_var s name value = record s {
  globals = (assign name value s.globals).0;
  env = setenv name value s.env;
}

unfoldable pub parse_command : Vars → List ℕ → List (List ℕ)
parse_command s line = take (max_args - 1) (strtok is_delim (expand_variables s line))

unfoldable pub add_job : Pid → List (List ℕ) → Bool → List Job → List Job
add_job pid words is_stopped jobs =
    jobs ++ record { pid = pid; command = join_words words; is_stopped = is_stopped } ∷ []

unfoldable pub after_wait : List (List ℕ) → Pid → Status → Shell → Shell
unfolding add_job
after_wait words pid (returned n) s = s
after_wait words pid stopped s =
    say (stopped_pid pid) (record s { jobs = add_job pid words true s.jobs })
after_wait words pid killed s = s

module _ (os : Os) where
  open os use {World, spawn, wait, continue}

  -- The parent behind `fork`, which a `fork` that fails reaches with the process -1.
  unfoldable pub supervise : World → Shell → Bool → List (List ℕ) → Pid → (World × Shell) × Option ℕ
  unfolding add_job after_wait
  supervise w s true words pid =
      ((w, say (background_pid pid) (record s { jobs = add_job pid words false s.jobs })), some 0)
  supervise w s false words pid =
      let (w', status) = wait w pid in
      ((w', after_wait words pid status (record s { fg_pid = none })), exit_status status)

  unfoldable pub after_scan : World → Shell → Bool → Scan → (World × Shell) × Option ℕ
  unfolding supervise
  after_scan w s background (planned p) =
      let (w', pid) = spawn w true p.input p.output p.words in
      supervise w' (record s { open_fds = s.open_fds + p.opened }) background p.words pid
  after_scan w s background (no_input n) = ((w, record s { open_fds = s.open_fds + n }), none)
  after_scan w s background (no_output n) = ((w, record s { open_fds = s.open_fds + n }), none)

  unfoldable pub execute_external_command :
      World → Shell → List (List ℕ) → (World × Shell) × Option ℕ
  unfolding after_scan
  execute_external_command w s args =
      let (words, background) = strip_background args in
      let (w', result) = scan os w words no_plan in after_scan w' s background result

  -- The rest of `fg` for the job of an index.
  unfoldable pub resume_job : World → Shell → ℕ → World × Shell
  resume_job w s i =
      let job = get_or s.jobs i no_job in
      let s' = say (resuming (i + 1) job) s in
      let (w', status) = wait (continue w job.pid) job.pid in
      let s'' = record s' { jobs = resumed s.jobs i status; fg_pid = none } in
      (w', if has_stopped status then say (stopped_pid job.pid) s'' else s'')

  -- `fg` with its argument, if it has one.
  unfoldable pub fg_builtin : World → Shell → Option (List ℕ) → World × Shell
  unfolding resume_job
  fg_builtin w s none = elim (choose s.jobs none) [
    | chosen i ↦ resume_job w s i
    | no_current ↦ (w, say no_current_job s)
    | not_found ↦ (w, s)
    | not_stopped ↦ (w, s)
  ]
  fg_builtin w s (some arg) = elim (choose s.jobs (some (atoi arg))) [
    | chosen i ↦ resume_job w s i
    | no_current ↦ (w, s)
    | not_found ↦ (w, say (job_not_found arg) s)
    | not_stopped ↦ (w, say (job_not_stopped (atoi arg)) s)
  ]

-- One argument of `export`.
unfoldable pub export_one : Shell → List ℕ → Shell
unfolding set_global_var
export_one s arg =
    let value = get_var_value s.vars arg in
    let (name, v) : List ℕ × List ℕ = elim (strchr arg b'=') [ none ↦ (arg, value) | some e ↦ e ] in
    record s { vars = set_global_var s.vars name v }

unfoldable pub export_builtin : Shell → List (List ℕ) → Shell
unfolding export_one
export_builtin s [] = s
export_builtin s (a ∷ rest) = export_builtin (export_one s a) rest

abbrev pub first : List (List ℕ) → Option (List ℕ)
first [] = none
first (a ∷ rest) = some a

module _ (os : Os) where
  open os use {World}

  unfoldable pub execute_command : World → Shell → List (List ℕ) → World × Shell
  unfolding set_local_var
  execute_command w s [] = (w, s)
  execute_command w s (a ∷ args) = elim (assignment a) [
    | some (name, value) ↦ (w, record s { vars = set_local_var s.vars name value })
    | none ↦
        if str_eq a (codes "exit")
        then (w, record s { has_exited = true })
        else if str_eq a (codes "export")
        then (w, export_builtin s args)
        else if str_eq a (codes "set")
        then (w, set_builtin s)
        else if str_eq a (codes "jobs")
        then (w, jobs_from 0 s.jobs s)
        else if str_eq a (codes "fg")
        then fg_builtin os w s (first args)
        else (execute_external_command os w s (a ∷ args)).0
  ]

abbrev pub mini_shell_3 : Os → Program
mini_shell_3 os = record {
  State = os.World × Shell;
  run_line = λ (w, s) line. execute_command os w s (parse_command s.vars line);
  run_condition = λ (w, s) line. execute_external_command os w s (parse_command s.vars line);
  has_exited = λ (w, s). s.has_exited;
  complain = λ m (w, s). (w, s);
}

module _ (os : Os) where
  open os use {World}

  abbrev pub handle_if_block : World × Shell → Line → List Line → (World × Shell) × List Line
  handle_if_block = Block.handle_if_block (mini_shell_3 os)

  abbrev pub process_line : World × Shell → Line → List Line → (World × Shell) × List Line
  process_line = Block.process_line (mini_shell_3 os)

  abbrev pub main_loop : ℕ → World × Shell → List Line → Option (World × Shell)
  main_loop = Block.main_loop (mini_shell_3 os)
