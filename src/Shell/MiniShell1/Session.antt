-- ===== src/Shell/MiniShell1/Session.antt =====
-- mini-shell-1.c and mini-shell-2.c do the same with a whole script.
use systemprogramming.Base.{
  ℕ, suc, ◌≡◌, refl, sym, ap, ap₂, ◌∙◌, arith, Bool, true, false, List, [], ◌∷◌, none, some, length,
  Option-cases, inl, inr,
}
use systemprogramming.Shell.Vars.{Vars, Variable, set_global_var, set_local_var}
use systemprogramming.Shell.Parse.{parse_command}
use systemprogramming.Shell.Exec.{
  Os, Pid, Job, Shell, Message, too_many_arguments, say, say_if, Scan, planned, no_input, no_output,
  say_each, set_builtin, export_one, export_builtin, assignment, assign_builtin,
}
use systemprogramming.Shell.Session.{started}
use systemprogramming.Shell.Block.{Line, Program, mini_shell_2, main_loop}
use systemprogramming.Shell.Block.Checked.{checked, checked-Simulates}
use systemprogramming.Shell.Block.Simulation.{Simulates, AllMeant, main_loop-related}
use systemprogramming.Shell.MiniShell1.{
  after_fork, after_scan, execute_external_command, execute_command, mini_shell_1,
}
use systemprogramming.Shell.MiniShell1.Same.{
  RunsToEnd, IsBlindToSigint, IsCommon, execute_external_same, execute_command-same,
}

-- Whatever the variables are, the line is a command that mini-shell-1.c has, too.
abbrev pub IsCommonLine : Line → Type 0
IsCommonLine l = (v : Vars) → IsCommon (parse_command v l).0

-- What the commands that both shells have leave alone.
abbrev pub processes : Shell → Pid × List Job
processes s = (s.fg_pid, s.jobs)

abbrev pub idle : Pid × List Job
idle = (none, [])

pub say_if-processes : (b : Bool) (m : Message) (s : Shell) → processes (say_if b m s) ≡ processes s
unfolding say_if say
say_if-processes true m s = refl
say_if-processes false m s = refl

say_each-processes {κ} :
    {A : Type κ} (m : A → Message) (xs : List A) (s : Shell)
    → processes (say_each m xs s) ≡ processes s
unfolding say_each say
say_each-processes m [] s = refl
say_each-processes m (x ∷ xs) s = say_each-processes m xs (say (m x) s)

export_one-processes : (s : Shell) (a : List ℕ) → processes (export_one s a) ≡ processes s
unfolding export_one set_global_var
export_one-processes s a = say_if-processes _ _ _

pub export_builtin-processes :
    (args : List (List ℕ)) (s : Shell) → processes (export_builtin s args) ≡ processes s
unfolding export_builtin
export_builtin-processes [] s = refl
export_builtin-processes (a ∷ args) s =
    export_builtin-processes args (export_one s a) ∙ export_one-processes s a

pub assign_builtin-processes :
    (s : Shell) (n v : List ℕ) → processes (assign_builtin s n v) ≡ processes s
unfolding assign_builtin set_local_var
assign_builtin-processes s n v = say_if-processes _ _ _

pub set_builtin-processes : (s : Shell) → processes (set_builtin s) ≡ processes s
unfolding set_builtin
set_builtin-processes s =
    say_each-processes (λ (v : Variable). Message.export_line v.name v.value) s.vars.globals _
    ∙ say_each-processes (λ (v : Variable). Message.local_line v.name v.value) s.vars.locals s

module _ (os : Os) where
  open os use {World}

  after_fork-processes :
      (w : World) (s : Shell) (pid : Pid) → processes ((after_fork os w s pid).0.1) ≡ processes s
  unfolding after_fork say
  after_fork-processes w s none = refl
  after_fork-processes w s (some pid) = refl

  after_scan-processes :
      (w : World) (s : Shell) (r : Scan) → processes ((after_scan os w s r).0.1) ≡ processes s
  unfolding after_scan say
  after_scan-processes w s (planned p) = after_fork-processes _ _ _
  after_scan-processes w s (no_input n) = refl
  after_scan-processes w s (no_output n) = refl

  external-processes :
      (w : World) (s : Shell) (args : List (List ℕ))
      → processes ((execute_external_command os w s args).0.1) ≡ processes s
  unfolding execute_external_command
  external-processes w s args = after_scan-processes _ s _

  execute_command-processes :
      (w : World) (s : Shell) (args : List (List ℕ))
      → processes ((execute_command os w s args).1) ≡ processes s
  unfolding execute_command
  execute_command-processes w s [] = refl
  execute_command-processes w s (a ∷ args) = elim (Option-cases (assignment a)) [
    | inr (x, e) ↦ rw (e, execute_command) (assign_builtin-processes s x.0 x.1)
    | inl e ↦ ground (
      arith,
      e,
      export_builtin-processes args s,
      set_builtin-processes s,
      external-processes w s (a ∷ args),
    )
  ]

  -- The same state, with no process in the foreground and no job.
  abbrev Alike : World × Shell → World × Shell → Type 0
  Alike x y = (x ≡ y) × (processes y.1 ≡ idle)

  module _ (ends : RunsToEnd os) (blind : IsBlindToSigint os) where
    line-Alike :
        (x : World × Shell) (l : Line)
        → IsCommonLine l
        → processes x.1 ≡ idle
        → Alike ((mini_shell_2 os).run_line x l) ((mini_shell_1 os).run_line x l)
    line-Alike (w, s) l ok h =
        let a = parse_command s.vars l in
        let s' = say_if a.1 too_many_arguments s in
        let kept : processes s' ≡ idle = say_if-processes a.1 too_many_arguments s ∙ h in
        let fg : s'.fg_pid ≡ none = ap (λ p. p.0) kept in
        (
          execute_command-same os ends blind w s' a.0 fg (ok s.vars),
          execute_command-processes w s' a.0 ∙ kept,
        )

    condition-Alike :
        (x : World × Shell) (l : Line)
        → IsCommonLine l
        → processes x.1 ≡ idle
        → Alike ((mini_shell_2 os).run_condition x l).0 ((mini_shell_1 os).run_condition x l).0
          × (((mini_shell_2 os).run_condition x l).1 ≡ ((mini_shell_1 os).run_condition x l).1)
    condition-Alike (w, s) l ok h =
        let a = parse_command s.vars l in
        let s' = say_if a.1 too_many_arguments s in
        let kept : processes s' ≡ idle = say_if-processes a.1 too_many_arguments s ∙ h in
        let fg : s'.fg_pid ≡ none = ap (λ p. p.0) kept in
        let same = execute_external_same os ends blind w s' a.0 fg (ok s.vars).foreground in
        ((ap (λ r. r.0) same, external-processes w s' a.0 ∙ kept), ap (λ r. r.1) same)

    same_commands : Simulates (mini_shell_2 os) (mini_shell_1 os) Alike IsCommonLine
    unfolding say
    same_commands = record {
      line = λ x y l ok h.
          let r = line-Alike y l ok h.1 in
          (ap (λ (z : World × Shell). (mini_shell_2 os).run_line z l) h.0 ∙ r.0, r.1);
      condition = λ x y l ok h.
          let r = condition-Alike y l ok h.1 in
          let e = ap (λ (z : World × Shell). (mini_shell_2 os).run_condition z l) h.0 in
          ((ap (λ c. c.0) e ∙ r.0.0, r.0.1), ap (λ c. c.1) e ∙ r.1);
      complaint = λ x y m h. (ap (λ (z : World × Shell). (z.0, say m z.1)) h.0, h.1);
      exited = λ x y h. ap (λ (z : World × Shell). z.1.has_exited) h.0;
    }

    -- No child is ever stopped, a command does the same whether or not it starts with SIGINT ignored, no
    -- signal reaches the shells, and each line of a script, as it is and as the line of an `if`, gives
    -- whatever the variables are a command that does not end in `&` and is not `jobs`. Then
    -- mini-shell-1.c and mini-shell-2.c, up to the first line whose expansion does not fit its arrays,
    -- or to the end of the script if there is none, blocks included, have the same state: the same
    -- calls of the system, the same variables and the same messages.
    pub session-same :
        (w : World) (env : List Variable) (script : List Line)
        → AllMeant IsCommonLine script
        → (x : (World × Shell) × Bool) × (main_loop
              (checked (mini_shell_2 os) (λ r. r.1.vars))
              (suc (length script))
              ((w, started env), false)
              script
            ≡ some x)
          × (main_loop
                (checked (mini_shell_1 os) (λ r. r.1.vars))
                (suc (length script))
                ((w, started env), false)
                script
              ≡ some x)
    session-same w env script ok =
        let p : Program = checked (mini_shell_2 os) (λ r. r.1.vars) in
        let q : Program = checked (mini_shell_1 os) (λ r. r.1.vars) in
        let both =
          checked-Simulates (mini_shell_2 os) (mini_shell_1 os) (λ r. r.1.vars) (λ r. r.1.vars)
            Alike IsCommonLine same_commands (λ x y h. ap (λ (z : World × Shell). z.1.vars) h.0) in
        let r =
          main_loop-related p q (λ x y. Alike x.0 y.0 × (x.1 ≡ y.1)) IsCommonLine both
            (suc (length script)) ((w, started env), false) ((w, started env), false) script
            (omega arith) ok ((refl, refl), refl) in
        (r.0, r.2, r.3 ∙ ap some (sym (ap₂ (λ a b. (a, b)) r.4.0.0 r.4.1)))
