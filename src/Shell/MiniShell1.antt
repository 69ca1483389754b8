-- ===== src/Shell/MiniShell1.antt =====
-- lab7-lyjae/mini-shell-1.c, the shell without jobs. Its variables, its expansion and its messages are
-- those of mini-shell-2.c. The fields `jobs` and `fg_pid` of the state are not part of it, and stay.
pub mod Same
pub mod Session
mod Tests
use systemprogramming.Base.{
  ℕ, ◌+◌, Bool, true, false, List, [], ◌∷◌, Option, none, some, if◌then◌else◌,
}
use systemprogramming.CString.{codes, str_eq}
use systemprogramming.Shell.Parse.{parse_command}
use systemprogramming.Shell.Exec.{
  Os, Pid, Shell, too_many_arguments, input_failed, output_failed, fork_failed, say, say_if, Scan,
  planned, no_input, no_output, no_plan, scan, exit_status, export_builtin, set_builtin, assignment,
  assign_builtin,
}
use systemprogramming.Shell.Block.{Line, Program}
use systemprogramming.Shell.Block

module _ (os : Os) where
  open os use {World, spawn, wait_end}

  -- The parent behind `fork`.
  unfoldable pub after_fork : World → Shell → Pid → (World × Shell) × Option ℕ
  after_fork w s none = ((w, say fork_failed s), none)
  after_fork w s (some pid) =
      let (w', status) = wait_end w (some pid) in ((w', s), exit_status status)

  unfoldable pub after_scan : World → Shell → Scan → (World × Shell) × Option ℕ
  unfolding after_fork
  after_scan w s (planned p) =
      let (w', child) = spawn w false p.input p.output p.words in
      after_fork w' (record s { open_fds = s.open_fds + p.opened }) child
  after_scan w s (no_input n) =
      ((w, say input_failed (record s { open_fds = s.open_fds + n })), none)
  after_scan w s (no_output n) =
      ((w, say output_failed (record s { open_fds = s.open_fds + n })), none)

  unfoldable pub execute_external_command :
      World → Shell → List (List ℕ) → (World × Shell) × Option ℕ
  unfolding after_scan
  execute_external_command w s args =
      let (w', result) = scan os w args no_plan in after_scan w' s result

  unfoldable pub execute_command : World → Shell → List (List ℕ) → World × Shell
  execute_command w s [] = (w, s)
  execute_command w s (a ∷ args) = elim (assignment a) [
    | some (name, value) ↦ (w, assign_builtin s name value)
    | none ↦
        if str_eq a (codes "exit")
        then (w, record s { has_exited = true })
        else if str_eq a (codes "export")
        then (w, export_builtin s args)
        else if str_eq a (codes "set")
        then (w, set_builtin s)
        else (execute_external_command w s (a ∷ args)).0
  ]

abbrev pub mini_shell_1 : Os → Program
mini_shell_1 os = record {
  State = os.World × Shell;
  run_line = λ (w, s) line.
      let (args, ignored) = parse_command s.vars line in
      execute_command os w (say_if ignored too_many_arguments s) args;
  run_condition = λ (w, s) line.
      let (args, ignored) = parse_command s.vars line in
      execute_external_command os w (say_if ignored too_many_arguments s) args;
  has_exited = λ (w, s). s.has_exited;
  complain = λ m (w, s). (w, say m s);
}

module _ (os : Os) where
  open os use {World}

  abbrev pub handle_if_block : World × Shell → Line → List Line → (World × Shell) × List Line
  handle_if_block = Block.handle_if_block (mini_shell_1 os)

  abbrev pub process_line : World × Shell → Line → List Line → (World × Shell) × List Line
  process_line = Block.process_line (mini_shell_1 os)

  abbrev pub main_loop : ℕ → World × Shell → List Line → Option (World × Shell)
  main_loop = Block.main_loop (mini_shell_1 os)
