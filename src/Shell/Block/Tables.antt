-- ===== src/Shell/Block/Tables.antt =====
-- What the commands of lab7-lyjae/mini-shell-2.c keep of the tables of the shell, its loop keeps.
use systemprogramming.Base.{List}
use systemprogramming.Shell.Vars.{Vars}
use systemprogramming.Shell.Parse.{parse_command}
use systemprogramming.Shell.Exec.{Os, Job, say, too_many_arguments}
use systemprogramming.Shell.Exec.Tables.{
  KeepsTables, say_if-Holds, execute_command-Holds, execute_external-Holds,
}
use systemprogramming.Shell.Block.{mini_shell_2}
use systemprogramming.Shell.Block.Runs.{Keeps}

pub mini_shell_2-Keeps :
    (os : Os) (P : List Job → Vars → Type 0)
    → KeepsTables P
    → Keeps (mini_shell_2 os) (λ r. P r.1.jobs r.1.vars)
unfolding say
mini_shell_2-Keeps os P k = record {
  line = λ (w, s) l h.
      let a = parse_command s.vars l in
      execute_command-Holds P k os w _ a.0 (say_if-Holds P a.1 too_many_arguments s h);
  condition = λ (w, s) l h.
      let a = parse_command s.vars l in
      execute_external-Holds P k os w _ a.0 (say_if-Holds P a.1 too_many_arguments s h);
  complaint = λ (w, s) m h. h;
}
