-- ===== src/Shell/MiniShell1/Tests.antt =====
-- mini-shell-1.c at concrete inputs.
use mathlib.Core.Path.{subst}
use systemprogramming.Base.{ℕ, ◌+◌, ◌≡◌, refl, Bool, true, false, List, [], ◌∷◌, some}
use systemprogramming.CString.{codes, str_eq, strtok, strtok_from, strncpy}
use systemprogramming.Shell.Block.{Line, mini_shell_2, main_loop}
use systemprogramming.Shell.Block.Simulation.{AllMeant}
use systemprogramming.Shell.Session.{started}
use systemprogramming.Shell.MiniShell1.Session.{IsCommonLine, session-same}
use systemprogramming.Shell.Parse.{
  parse_command, expand_from, expand_variables, emit, next_mode, is_delim,
}
use systemprogramming.Shell.Exec.{Os, Shell, returned, strip_background}
use systemprogramming.Shell.MiniShell1.{mini_shell_1}
use systemprogramming.Shell.MiniShell1.Same.{RunsToEnd, IsBlindToSigint, IsCommon}
use systemprogramming.Shell.Block.Checked.{checked}

-- Every call succeeds, and every child ends with status 0.
abbrev ending_os : Os
ending_os = record {
  World = ℕ;
  open_input = λ w f. (w, true);
  open_output = λ w f. (w, true);
  spawn = λ w g i o args. (w, some 7);
  wait = λ w pid. (w + 1, returned 0);
  wait_end = λ w pid. (w + 1, returned 0);
  continue = λ w pid. w;
}

ends : RunsToEnd ending_os
ends = record { same_wait = λ w pid. refl; never_stops = λ w pid e. cc }

blind : IsBlindToSigint ending_os
blind = record { same_spawn = λ w i o ws. refl }

-- A script with a block.
abbrev script : List Line
script = codes "if true" ∷ codes "then" ∷ codes "echo hi" ∷ codes "fi" ∷ []

commonly :
    (b : List ℕ) (more : List (List ℕ))
    → strip_background (b ∷ more) ≡ (b ∷ more, false)
    → str_eq b (codes "jobs") ≡ false
    → IsCommon (b ∷ more)
commonly b more f n = record {
  foreground = f;
  no_jobs =
      λ a rest e. let same : b ≡ a = cc in subst (λ x. str_eq x (codes "jobs") ≡ false) same n;
}

empty-IsCommon : IsCommon []
unfolding strip_background
empty-IsCommon = record { foreground = refl; no_jobs = λ a rest e. cc }

script_lines : AllMeant IsCommonLine script
unfolding strip_background str_eq parse_command expand_variables expand_from emit next_mode is_delim
    strtok strtok_from strncpy
script_lines = (
  ((λ v. commonly _ _ refl refl), λ v. commonly _ _ refl refl),
  (
    ((λ v. commonly _ _ refl refl), λ v. commonly _ _ refl refl),
    (
      ((λ v. commonly _ _ refl refl), λ v. commonly _ _ refl refl),
      (((λ v. commonly _ _ refl refl), λ v. empty-IsCommon), tt),
    ),
  ),
)

session-same_example :
    (x : (ℕ × Shell) × Bool) × (main_loop
        (checked (mini_shell_2 ending_os) (λ r. r.1.vars))
        5
        ((0, started []), false)
        script
      ≡ some x)
    × (main_loop
          (checked (mini_shell_1 ending_os) (λ r. r.1.vars))
          5
          ((0, started []), false)
          script
        ≡ some x)
session-same_example = session-same ending_os ends blind 0 [] script script_lines
