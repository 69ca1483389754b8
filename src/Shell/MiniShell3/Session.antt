-- ===== src/Shell/MiniShell3/Session.antt =====
-- mini-shell-2.c and mini-shell-3.c do the same, up to messages, with a whole script.
use systemprogramming.Base.{
  ℕ, suc, ◌<◌, ◌≡◌, refl, sym, ap, ◌∙◌, arith, Bool, false, List, [], ◌∷◌, some, length,
}
use mathlib.Core.Path.{subst}
use systemprogramming.CString.{codes, str_eq}
use systemprogramming.Shell.Vars.{Vars, Variable}
use systemprogramming.Shell.Parse
use systemprogramming.Shell.Exec.{Os, Shell, max_jobs, too_many_arguments, say, say_if}
use systemprogramming.Shell.Session.{started}
use systemprogramming.Shell.Block.{Line, Program, mini_shell_2, main_loop}
use systemprogramming.Shell.Block.Simulation.{Simulates, AllMeant, main_loop-related}
use systemprogramming.Shell.MiniShell1.Same.{RunsToEnd, IsCommon}
use systemprogramming.Shell.MiniShell1.Session.{processes, idle, say_if-processes}
use systemprogramming.Shell.MiniShell3.Idle.{common-processes, common_external-processes}
use systemprogramming.Shell.Block.Checked.{checked, checked-Simulates}
use systemprogramming.Shell.MiniShell3.{
  parse_command, execute_command, execute_external_command, mini_shell_3,
}
use systemprogramming.Shell.MiniShell3.Same.{
  quiet, quiet_result, outcome, quiet-say_if, ForksSucceed, execute_external_same,
  execute_command-agrees,
}

-- A command that all three shells have: neither in the background, nor `jobs`, nor `fg`.
pub record IsShared (args : List (List ℕ)) : Type 0 where
  pub common : IsCommon args
  pub no_fg : (a : List ℕ) (rest : List (List ℕ)) → args ≡ a ∷ rest → str_eq a (codes "fg") ≡ false

-- Whatever the variables are, the line is such a command.
abbrev pub IsSharedLine : Line → Type 0
IsSharedLine l = (v : Vars) → IsShared (Parse.parse_command v l).0

-- Both split a line in the same way.
parse_command_same : (v : Vars) (l : Line) → parse_command v l ≡ (Parse.parse_command v l).0
unfolding parse_command Parse.parse_command
parse_command_same v l = refl

module _ (os : Os) where
  open os use {World}

  -- The same world, and the same state but for what was printed, with no process in the foreground
  -- and no job.
  abbrev pub Resembles : World × Shell → World × Shell → Type 0
  Resembles x y = (quiet_result x ≡ quiet_result y) × (processes x.1 ≡ idle)

  module _ (ends : RunsToEnd os) (good : ForksSucceed os) where
    no_jobs : (s : Shell) → processes s ≡ idle → length s.jobs < max_jobs
    no_jobs s h =
        let none_left : s.jobs ≡ [] = ap (λ p. p.1) h in omega (arith, ap length none_left)

    line-Resembles :
        (w : World) (s t : Shell) (l : Line)
        → IsSharedLine l
        → quiet s ≡ quiet t
        → processes s ≡ idle
        → Resembles ((mini_shell_2 os).run_line (w, s) l) ((mini_shell_3 os).run_line (w, t) l)
    line-Resembles w s t l ok e h =
        let a = Parse.parse_command s.vars l in
        let s' = say_if a.1 too_many_arguments s in
        let kept : processes s' ≡ idle = say_if-processes a.1 too_many_arguments s ∙ h in
        let same : quiet s' ≡ quiet t = quiet-say_if a.1 too_many_arguments s ∙ e in
        let vars : s.vars ≡ t.vars = ap (λ (r : Shell). r.vars) e in
        let split : a.0 ≡ parse_command t.vars l =
          ap (λ v. (Parse.parse_command v l).0) vars ∙ sym (parse_command_same t.vars l) in
        (
          execute_command-agrees os w s' t a.0 good same (no_jobs s' kept) (ok s.vars).no_fg
              ∙ ap (λ args. quiet_result (execute_command os w t args)) split,
          common-processes os ends w s' a.0 (ok s.vars).common kept,
        )

    condition-Resembles :
        (w : World) (s t : Shell) (l : Line)
        → IsSharedLine l
        → quiet s ≡ quiet t
        → processes s ≡ idle
        → Resembles
            ((mini_shell_2 os).run_condition (w, s) l).0
            ((mini_shell_3 os).run_condition (w, t) l).0
          × (((mini_shell_2 os).run_condition (w, s) l).1
              ≡ ((mini_shell_3 os).run_condition (w, t) l).1)
    condition-Resembles w s t l ok e h =
        let a = Parse.parse_command s.vars l in
        let s' = say_if a.1 too_many_arguments s in
        let kept : processes s' ≡ idle = say_if-processes a.1 too_many_arguments s ∙ h in
        let same : quiet s' ≡ quiet t = quiet-say_if a.1 too_many_arguments s ∙ e in
        let vars : s.vars ≡ t.vars = ap (λ (r : Shell). r.vars) e in
        let split : a.0 ≡ parse_command t.vars l =
          ap (λ v. (Parse.parse_command v l).0) vars ∙ sym (parse_command_same t.vars l) in
        let both =
          execute_external_same os w s' t a.0 good same (no_jobs s' kept)
          ∙ ap (λ args. outcome (execute_external_command os w t args)) split in
        (
          (ap (λ r. r.0) both, common_external-processes os ends w s' a.0 (ok s.vars).common kept),
          ap (λ r. r.1) both,
        )

    in_one_world :
        (x y : World × Shell) (P : World × Shell → World × Shell → Type 0)
        → Resembles x y
        → ((w : World) (s t : Shell) → quiet s ≡ quiet t → processes s ≡ idle → P (w, s) (w, t))
        → P x y
    in_one_world (w, s) (w', t) P h f =
        subst (λ v. P (w, s) (v, t)) (ap (λ r. r.0) h.0) (f w s t (ap (λ r. r.1) h.0) h.1)

    same_commands : Simulates (mini_shell_2 os) (mini_shell_3 os) Resembles IsSharedLine
    unfolding say
    same_commands = record {
      line = λ x y l ok h.
          in_one_world x y
            (λ u v. Resembles ((mini_shell_2 os).run_line u l) ((mini_shell_3 os).run_line v l)) h
            (λ w s t e i. line-Resembles w s t l ok e i);
      condition = λ x y l ok h.
          in_one_world x y
            (λ u v.
              Resembles ((mini_shell_2 os).run_condition u l).0
                ((mini_shell_3 os).run_condition v l).0
              × (((mini_shell_2 os).run_condition u l).1 ≡ ((mini_shell_3 os).run_condition v l).1))
            h (λ w s t e i. condition-Resembles w s t l ok e i);
      complaint = λ x y m h. h;
      exited = λ x y h. ap (λ (r : World × Shell). r.1.has_exited) h.0;
    }

    -- No child is ever stopped, each `fork` succeeds, no signal reaches the shells, and each line of a
    -- script, as it is and as the line of an `if`, gives whatever the variables are a command that does
    -- not end in `&` and is neither `jobs` nor `fg`. Then mini-shell-2.c and mini-shell-3.c, up to the
    -- first line whose expansion does not fit its arrays, or to the end of the script if there is none,
    -- blocks included, make the same calls of the system and have the same state but for what was
    -- printed; such a line is the same one for both.
    pub session-resembles :
        (w : World) (env : List Variable) (script : List Line)
        → AllMeant IsSharedLine script
        → (x y : (World × Shell) × Bool) × (main_loop
              (checked (mini_shell_2 os) (λ r. r.1.vars))
              (suc (length script))
              ((w, started env), false)
              script
            ≡ some x)
          × (main_loop
                (checked (mini_shell_3 os) (λ r. r.1.vars))
                (suc (length script))
                ((w, started env), false)
                script
              ≡ some y)
          × (quiet_result x.0 ≡ quiet_result y.0)
          × (x.1 ≡ y.1)
    session-resembles w env script ok =
        let p : Program = checked (mini_shell_2 os) (λ r. r.1.vars) in
        let q : Program = checked (mini_shell_3 os) (λ r. r.1.vars) in
        let both =
          checked-Simulates (mini_shell_2 os) (mini_shell_3 os) (λ r. r.1.vars) (λ r. r.1.vars)
            Resembles IsSharedLine same_commands
            (λ x y h. ap (λ (z : World × Shell). z.1.vars) h.0) in
        let r =
          main_loop-related p q (λ x y. Resembles x.0 y.0 × (x.1 ≡ y.1)) IsSharedLine both
            (suc (length script)) ((w, started env), false) ((w, started env), false) script
            (omega arith) ok ((refl, refl), refl) in
        (r.0, r.1, r.2, r.3, r.4.0.0, r.4.1)
