-- ===== src/Shell/Tests.antt =====
-- The shell at concrete inputs.
use systemprogramming.Base.{
  ℕ, zero, suc, ◌+◌, ◌≡◌, refl, arith, true, false, List, [], ◌∷◌, ◌++◌, none, some, replicate,
}
use systemprogramming.Ctype.{is_alnum, is_space}
use systemprogramming.CString.{codes, str_eq, strtok, strncpy}
use systemprogramming.Shell.Exec.{Job, returned, stopped}
use systemprogramming.Shell.Vars.{Vars, find, get_var_value, set_local_var, set_global_var}
use systemprogramming.Shell.Vars.Laws.{get-set_global}
use systemprogramming.Shell.Parse.{
  is_name_char, expand_variables, parse_command, is_delim, is_blank_line,
}
use systemprogramming.Shell.Exec.{
  Os, returned, stopped, Shell, execute_external_command, strip_background, say, block_too_long,
}
use systemprogramming.Shell.Exec.Bounds.{IsBounded, redirects_leak}
use systemprogramming.Shell.Block.{Line, mini_shell_2, handle_if_block, first_token_is}
use systemprogramming.Shell.Assign.{newline, assigned-reference}
use systemprogramming.Shell.Block.Laws.{
  AllBody, RanIf, handle_if_block-closed, handle_if_block-overfull,
}

abbrev a : List ℕ
a = codes "a"

-- Every call succeeds, each child has the pid 7, and it is stopped the first time.
abbrev test_os : Os
test_os = record {
  World = ℕ;
  open_input = λ w f. (w, true);
  open_output = λ w f. (w, true);
  spawn = λ w g i o args. (w, some 7);
  wait = λ w pid. (w + 1, elim w [ zero ↦ stopped | suc n ↦ returned 0 ]);
  wait_end = λ w pid. (w + 1, returned 0);
  continue = λ w pid. w + 1;
}

abbrev no_vars : Vars
no_vars = record { locals = []; globals = []; env = [] }

abbrev fresh : Shell
fresh = record {
  vars = no_vars;
  jobs = [];
  fg_pid = none;
  open_fds = 0;
  has_exited = false;
  printed = [];
}

expands :
    expand_variables (set_local_var no_vars a (codes "xyz")).0 (codes "b$a-$q.") ≡ codes "bxyz-."
unfolding expand_variables set_local_var get_var_value str_eq strncpy is_alnum
expands = refl

parses : (parse_command no_vars (codes "ls  -l\n")).0 ≡ codes "ls" ∷ codes "-l" ∷ []
unfolding parse_command get_var_value strtok strncpy is_alnum
parses = refl

get-set_global_example :
    (find a (set_global_var no_vars a (codes "v")).0.env ≡ some (codes "v"))
    × ((v : List ℕ)
        → find a [] ≡ some v
        → get_var_value (set_global_var no_vars a (codes "v")).0 a ≡ v)
get-set_global_example = get-set_global no_vars a (codes "v") (λ e. cc)

abbrev sort_args : List (List ℕ)
sort_args = codes "sort" ∷ codes "<" ∷ codes "in" ∷ codes "-r" ∷ codes ">" ∷ codes "out" ∷ []

redirects_leak_example : (execute_external_command test_os 0 fresh sort_args).0.1.open_fds ≡ 0 + 2
unfolding str_eq strip_background
redirects_leak_example =
    redirects_leak test_os 0 fresh sort_args (codes "sort" ∷ []) (codes "-r" ∷ []) [] (codes "in")
      (codes "out") refl ((refl, refl), tt) ((refl, refl), tt) tt refl refl

fresh-IsBounded : IsBounded fresh
fresh-IsBounded = omega arith

abbrev block_result : (ℕ × Shell) × List Line
block_result =
    handle_if_block (mini_shell_2 test_os) (1, fresh) (codes "if true")
      (codes "then" ∷ (codes "a=1" ∷ codes "fi" ∷ codes "set" ∷ []))

handle_if_block-closed_example :
    RanIf (mini_shell_2 test_os) (1, fresh) (codes "true") (codes "a=1" ∷ []) block_result.0
    × (block_result.1 ≡ codes "set" ∷ [])
unfolding first_token_is is_blank_line is_space is_delim strtok str_eq strncpy
handle_if_block-closed_example =
    handle_if_block-closed (mini_shell_2 test_os) (1, fresh) (codes "if true") (codes "then")
      (codes "a=1" ∷ []) (codes "fi") (codes "set" ∷ []) refl ((refl, refl), tt) (omega arith)
      (refl, refl)

all_body : (n : ℕ) → AllBody (replicate n a)
unfolding first_token_is is_blank_line is_space is_delim strtok str_eq
all_body zero = tt
all_body (suc n) = ((refl, refl), all_body n)

handle_if_block-overfull_example :
    handle_if_block
      (mini_shell_2 test_os)
      (1, fresh)
      (codes "if true")
      (codes "then" ∷ (replicate 32 a ++ a ∷ codes "rm" ∷ []))
    ≡ ((1, say block_too_long fresh), codes "rm" ∷ [])
unfolding first_token_is is_blank_line is_space is_delim strtok str_eq
handle_if_block-overfull_example =
    handle_if_block-overfull (mini_shell_2 test_os) (1, fresh) (codes "if true") (codes "then")
      (replicate 32 a) a (codes "rm" ∷ []) refl (all_body 32) refl (refl, refl)

abbrev two_jobs : List Job
two_jobs =
    record { pid = some 7; command = codes "vi"; is_stopped = true }
    ∷ record { pid = some 8; command = codes "cc"; is_stopped = false }
    ∷ []

assigned-reference_example :
    let after =
      (mini_shell_2 test_os).run_line (0, fresh) (codes "a" ++ (b'=' ∷ (codes "xyz" ++ newline))) in
    (after.0 ≡ 0)
    × (parse_command after.1.vars (codes "echo" ++ (b' ' ∷ b'$' ∷ (codes "a" ++ newline)))
        ≡ (codes "echo" ∷ codes "xyz" ∷ [], false))
unfolding is_name_char is_alnum is_delim set_local_var
assigned-reference_example =
    assigned-reference test_os 0 fresh 97 [] 120 (codes "yz") 101 (codes "cho") (refl, tt)
      (omega arith) (refl, refl, (refl, refl, (refl, refl, tt))) (omega arith) refl
      (refl, refl, (refl, refl, (refl, refl, (refl, refl, tt)))) (omega arith)
