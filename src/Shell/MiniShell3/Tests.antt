-- ===== src/Shell/MiniShell3/Tests.antt =====
-- mini-shell-3.c at concrete inputs.
use mathlib.Core.Path.{subst}
use systemprogramming.Shell.Block.{Line, mini_shell_2, main_loop}
use systemprogramming.Shell.Block.Simulation.{AllMeant}
use systemprogramming.Shell.Session.{started}
use systemprogramming.Shell.MiniShell1.Same.{RunsToEnd}
use systemprogramming.Shell.Block.Checked.{checked}
use systemprogramming.Shell.MiniShell3.{mini_shell_3}
use systemprogramming.Shell.MiniShell3.Fg.{Resumes, fg-Resumes}
use systemprogramming.Shell.MiniShell3.Session.{IsShared, IsSharedLine, session-resembles}
use systemprogramming.Shell.Parse.{
  parse_command, expand_from, expand_variables, emit, next_mode, is_delim,
}
use systemprogramming.CString.{strtok, strtok_from, strncpy}
use systemprogramming.Base.{
  ℕ, ◌+◌, ◌≡◌, refl, Bool, true, false, List, [], ◌∷◌, none, some, length, replicate,
}
use systemprogramming.CString.{codes, str_eq, atoi}
use systemprogramming.Ctype.{is_space, is_digit}
use systemprogramming.Shell.Exec.{Os, Shell, returned, strip_background}
use systemprogramming.Shell.Resume.{no_job, choose, resumed}
use systemprogramming.Shell.MiniShell3.{execute_command, fg_builtin, resume_job}
use systemprogramming.Shell.MiniShell3.Same.{quiet_result}

-- Every call succeeds, and every child ends with status 0.
abbrev ending_os : Os
ending_os = record {
  World = ℕ;
  open_input = λ w f. (w, true);
  open_output = λ w f. (w, true);
  spawn = λ w g i o args. (w, some 7);
  wait = λ w pid. (w + 1, returned 0);
  wait_end = λ w pid. (w + 1, returned 0);
  continue = λ w pid. w;
}

abbrev with_jobs : ℕ → Shell
with_jobs n = record {
  vars = record { locals = []; globals = []; env = [] };
  jobs = replicate n (record no_job { is_stopped = true });
  fg_pid = none;
  open_fds = 0;
  has_exited = false;
  printed = [];
}

abbrev sleep_args : List (List ℕ)
sleep_args = codes "sleep" ∷ codes "&" ∷ []

-- `fg 2` runs the second job to its end.
second_job : length (fg_builtin ending_os 0 (with_jobs 3) (some (codes "2"))).1.jobs ≡ 2
unfolding fg_builtin resume_job choose resumed atoi is_space is_digit
second_job = refl

abbrev script : List Line
script = codes "if true" ∷ codes "then" ∷ codes "echo hi" ∷ codes "fi" ∷ []

ends : RunsToEnd ending_os
ends = record { same_wait = λ w pid. refl; never_stops = λ w pid e. cc }

apart :
    (b a : List ℕ) (more rest : List (List ℕ)) (word : List ℕ)
    → str_eq b word ≡ false
    → b ∷ more ≡ a ∷ rest
    → str_eq a word ≡ false
apart b a more rest word n e = let same : b ≡ a = cc in subst (λ x. str_eq x word ≡ false) same n

shared :
    (b : List ℕ) (more : List (List ℕ))
    → strip_background (b ∷ more) ≡ (b ∷ more, false)
    → str_eq b (codes "jobs") ≡ false
    → str_eq b (codes "fg") ≡ false
    → IsShared (b ∷ more)
shared b more f n g = record {
  common = record { foreground = f; no_jobs = λ a rest e. apart b a more rest (codes "jobs") n e };
  no_fg = λ a rest e. apart b a more rest (codes "fg") g e;
}

empty-IsShared : IsShared []
unfolding strip_background
empty-IsShared = record {
  common = record { foreground = refl; no_jobs = λ a rest e. cc };
  no_fg = λ a rest e. cc;
}

script_lines : AllMeant IsSharedLine script
unfolding strip_background str_eq parse_command expand_variables expand_from emit next_mode is_delim
    strtok strtok_from strncpy
script_lines = (
  ((λ v. shared _ _ refl refl refl), λ v. shared _ _ refl refl refl),
  (
    ((λ v. shared _ _ refl refl refl), λ v. shared _ _ refl refl refl),
    (
      ((λ v. shared _ _ refl refl refl), λ v. shared _ _ refl refl refl),
      (((λ v. shared _ _ refl refl refl), λ v. empty-IsShared), tt),
    ),
  ),
)

session-resembles_example :
    (x y : (ℕ × Shell) × Bool) × (main_loop
        (checked (mini_shell_2 ending_os) (λ r. r.1.vars))
        5
        ((0, started []), false)
        script
      ≡ some x)
    × (main_loop
          (checked (mini_shell_3 ending_os) (λ r. r.1.vars))
          5
          ((0, started []), false)
          script
        ≡ some y)
    × (quiet_result x.0 ≡ quiet_result y.0)
    × (x.1 ≡ y.1)
session-resembles_example =
    session-resembles ending_os ends (λ w i o ws. (7, refl)) 0 [] script script_lines

fg-Resumes_example :
    Resumes ending_os 0 (with_jobs 3) (execute_command ending_os 0 (with_jobs 3) (codes "fg" ∷ []))
fg-Resumes_example = fg-Resumes ending_os 0 (with_jobs 3)
