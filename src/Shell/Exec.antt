-- ===== src/Shell/Exec.antt =====
-- `execute_external_command` and `execute_command` of lab7-lyjae/mini-shell-2.c, over an operating
-- system that is a parameter.
pub mod Laws
pub mod Bounds
pub mod Tables
use systemprogramming.Base.{
  ℕ, zero, suc, ◌+◌, ◌-◌, ◌≤◌, ◌<◌, Bool, true, false, not, ◌&&◌, ◌||◌, ◌==◌, ltb, List, [], ◌∷◌,
  ◌++◌, Option, none, some, if◌then◌else◌, length, map,
}
use systemprogramming.CString.{codes, str_eq, strchr}
use systemprogramming.Shell.Vars.{Vars, Variable, get_var_value, set_local_var, set_global_var}

abbrev pub max_jobs : ℕ
max_jobs = 64

-- What `waitpid` reports of a child with WUNTRACED.
pub data Status : Type 0 where
  returned : ℕ → Status
  stopped : Status
  killed : Status

-- A process; `none` stands for -1, the result of a `fork` that fails.
abbrev pub Pid : Type 0
Pid = Option ℕ

-- The system calls of the shell: opening a file (which creates and empties one for output), `fork`
-- with whether the child, as its shell, ignores SIGINT, the files that it gets as its input and
-- output and the arguments of `execvp`, `waitpid` with WUNTRACED and without, and `kill` with SIGCONT.
-- A failure is `false` or `none`.
pub record Os : Type 1 where
  pub World : Type 0
  pub open_input : World → List ℕ → World × Bool
  pub open_output : World → List ℕ → World × Bool
  pub spawn : World → Bool → Option (List ℕ) → Option (List ℕ) → List (List ℕ) → World × Pid
  pub wait : World → Pid → World × Status
  pub wait_end : World → Pid → World × Status
  pub continue : World → Pid → World

-- `Job`; the position in the list is the index.
pub record Job : Type 0 where
  pub pid : Pid
  pub command : List ℕ
  pub is_stopped : Bool

-- What the shell prints.
pub data Message : Type 0 where
  too_many_locals : Message
  too_many_globals : Message
  too_many_arguments : Message
  input_failed : Message
  output_failed : Message
  fork_failed : Message
  background_pid : Pid → Message
  stopped_pid : Pid → Message
  local_line : List ℕ → List ℕ → Message
  export_line : List ℕ → List ℕ → Message
  job_line : ℕ → Job → Message
  no_current_job : Message
  job_not_found : List ℕ → Message
  job_not_stopped : ℕ → Message
  resuming : ℕ → Job → Message
  then_expected : Message
  block_too_long : Message
  fi_missing : Message

-- The globals of the shell, the descriptors that it has opened and not closed, whether `exit` was
-- called, and what was printed, oldest first.
pub record Shell : Type 0 where
  pub vars : Vars
  pub jobs : List Job
  pub fg_pid : Pid
  pub open_fds : ℕ
  pub has_exited : Bool
  pub printed : List Message

unfoldable pub say : Message → Shell → Shell
say m s = record s { printed = s.printed ++ m ∷ [] }

unfoldable pub say_if : Bool → Message → Shell → Shell
unfolding say
say_if true m s = say m s
say_if false m s = s

-- A last argument `&` is taken off.
unfoldable pub strip_background : List (List ℕ) → List (List ℕ) × Bool
strip_background [] = ([], false)
strip_background (a ∷ []) = if str_eq a (codes "&") then ([], true) else (a ∷ [], false)
strip_background (a ∷ b ∷ rest) =
    let (args, background) = strip_background (b ∷ rest) in (a ∷ args, background)

-- The files of the last `<` and the last `>`, the words that are left, and the opens that were made.
pub record Plan : Type 0 where
  pub input : Option (List ℕ)
  pub output : Option (List ℕ)
  pub words : List (List ℕ)
  pub opened : ℕ

pub data Scan : Type 0 where
  planned : Plan → Scan
  no_input : ℕ → Scan
  no_output : ℕ → Scan

-- `strncat` of the words with a blank between two of them.
unfoldable pub join_words : List (List ℕ) → List ℕ
join_words [] = []
join_words (w ∷ []) = w
join_words (w ∷ v ∷ ws) = w ++ b' ' ∷ join_words (v ∷ ws)

unfoldable pub add_job : Pid → List (List ℕ) → Bool → List Job → List Job
unfolding join_words
add_job pid words is_stopped jobs =
    if ltb (length jobs) max_jobs
    then jobs ++ record { pid = pid; command = join_words words; is_stopped = is_stopped } ∷ []
    else jobs

-- `WIFEXITED(status) ? WEXITSTATUS(status) : -1`, with `none` for -1.
unfoldable pub exit_status : Status → Option ℕ
exit_status (returned n) = some n
exit_status stopped = none
exit_status killed = none

-- A stopped child becomes a job.
unfoldable pub after_wait : List (List ℕ) → Pid → Status → Shell → Shell
after_wait words pid (returned n) s = s
after_wait words pid stopped s =
    say (stopped_pid pid) (record s { jobs = add_job pid words true s.jobs })
after_wait words pid killed s = s

abbrev pub no_plan : Plan
no_plan = record { input = none; output = none; words = []; opened = 0 }

module _ (os : Os) where
  open os use {World, open_input, open_output, spawn, wait}

  -- The loop over the arguments, with the plan so far.
  unfoldable pub scan : World → List (List ℕ) → Plan → World × Scan
  scan w [] p = (w, planned p)
  scan w (a ∷ []) p = (w, planned (record p { words = p.words ++ a ∷ [] }))
  scan w (a ∷ b ∷ rest) p = elim (str_eq a (codes "<")) [
    | true ↦
        let (w', good) = open_input w b in
        elim good [
          | true ↦ scan w' rest (record p { input = some b; opened = p.opened + 1 })
          | false ↦ (w', no_input p.opened)
        ]
    | false ↦ elim (str_eq a (codes ">")) [
      | true ↦
          let (w', good) = open_output w b in
          elim good [
            | true ↦ scan w' rest (record p { output = some b; opened = p.opened + 1 })
            | false ↦ (w', no_output p.opened)
          ]
      | false ↦ scan w (b ∷ rest) (record p { words = p.words ++ a ∷ [] })
    ]
  ]

  -- The parent behind `fork`: a job in the background, or a wait for the child in the foreground.
  unfoldable pub supervise : World → Shell → Bool → List (List ℕ) → Pid → (World × Shell) × Option ℕ
  supervise w s true words pid =
      ((w, say (background_pid pid) (record s { jobs = add_job pid words false s.jobs })), some 0)
  supervise w s false words pid =
      let (w', status) = wait w pid in
      ((w', after_wait words pid status (record s { fg_pid = none })), exit_status status)

  unfoldable pub after_fork :
      World → Shell → Bool → List (List ℕ) → Pid → (World × Shell) × Option ℕ
  after_fork w s background words none = ((w, say fork_failed s), none)
  after_fork w s background words (some pid) = supervise w s background words (some pid)

  -- What follows the loop over the arguments. The descriptors stay open in the parent.
  unfoldable pub after_scan : World → Shell → Bool → Scan → (World × Shell) × Option ℕ
  after_scan w s background (planned p) =
      let (w', child) = spawn w true p.input p.output p.words in
      after_fork w' (record s { open_fds = s.open_fds + p.opened }) background p.words child
  after_scan w s background (no_input n) =
      ((w, say input_failed (record s { open_fds = s.open_fds + n })), none)
  after_scan w s background (no_output n) =
      ((w, say output_failed (record s { open_fds = s.open_fds + n })), none)

  unfoldable pub execute_external_command :
      World → Shell → List (List ℕ) → (World × Shell) × Option ℕ
  execute_external_command w s args =
      let (words, background) = strip_background args in
      let (w', result) = scan w words no_plan in after_scan w' s background result

-- `set`: the local variables, then the exported ones.
unfoldable pub say_each {κ} : {A : Type κ} → (A → Message) → List A → Shell → Shell
say_each m [] s = s
say_each m (a ∷ rest) s = say_each m rest (say (m a) s)

unfoldable pub set_builtin : Shell → Shell
set_builtin s =
    say_each (λ (v : Variable). export_line v.name v.value) s.vars.globals
      (say_each (λ (v : Variable). local_line v.name v.value) s.vars.locals s)

-- `jobs`, from an index on.
unfoldable pub jobs_from : ℕ → List Job → Shell → Shell
jobs_from i [] s = s
jobs_from i (j ∷ js) s = jobs_from (i + 1) js (say (job_line (i + 1) j) s)

-- One argument of `export`.
unfoldable pub export_one : Shell → List ℕ → Shell
export_one s arg =
    let value = get_var_value s.vars arg in
    let (name, v) : List ℕ × List ℕ = elim (strchr arg b'=') [ none ↦ (arg, value) | some e ↦ e ] in
    let (vars, full) = set_global_var s.vars name v in
    say_if full too_many_globals (record s { vars = vars })

unfoldable pub export_builtin : Shell → List (List ℕ) → Shell
export_builtin s [] = s
export_builtin s (a ∷ rest) = export_builtin (export_one s a) rest

-- The command is an assignment if it holds a `=` and does not begin with `-`.
unfoldable pub assignment : List ℕ → Option (List ℕ × List ℕ)
assignment [] = none
assignment (c ∷ cs) = if c == b'-' then none else strchr (c ∷ cs) b'='

unfoldable pub assign_builtin : Shell → List ℕ → List ℕ → Shell
assign_builtin s name value =
    let (vars, full) = set_local_var s.vars name value in
    say_if full too_many_locals (record s { vars = vars })

-- `execute_command`, whose result is the new state.
unfoldable pub execute_command : (os : Os) → os.World → Shell → List (List ℕ) → os.World × Shell
unfolding set_builtin
execute_command os w s [] = (w, s)
execute_command os w s (a ∷ args) = elim (assignment a) [
  | some (name, value) ↦ (w, assign_builtin s name value)
  | none ↦
      if str_eq a (codes "exit")
      then (w, record s { has_exited = true })
      else if str_eq a (codes "export")
      then (w, export_builtin s args)
      else if str_eq a (codes "set")
      then (w, set_builtin s)
      else if str_eq a (codes "jobs")
      then (w, jobs_from 0 s.jobs s)
      else (execute_external_command os w s (a ∷ args)).0
]
