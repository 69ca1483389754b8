-- ===== src/Shell/MiniShell1/Same.antt =====
-- mini-shell-1.c and mini-shell-2.c do the same with the commands that both have.
use systemprogramming.Base.{
  ℕ, ◌+◌, ◌≡◌, ◌≢◌, refl, sym, ap, ◌∙◌, arith, Bool, true, false, List, [], ◌∷◌, Option, none, some,
  Option-cases, inl, inr,
}
use systemprogramming.CString.{codes, str_eq}
use systemprogramming.Shell.Exec
use systemprogramming.Shell.Exec.{
  Os, Pid, Shell, Status, returned, stopped, killed, Scan, planned, no_input, no_output, no_plan,
  scan, after_wait, supervise, strip_background, assignment, exit_status,
}
use systemprogramming.Shell.MiniShell1.{
  after_fork, after_scan, execute_external_command, execute_command,
}

-- No child is stopped, and then WUNTRACED makes no difference to `waitpid`.
pub record RunsToEnd (os : Os) : Type 0 where
  pub same_wait : (w : os.World) (pid : Pid) → os.wait w pid ≡ os.wait_end w pid
  pub never_stops : (w : os.World) (pid : Pid) → (os.wait w pid).1 ≢ stopped

-- A command that mini-shell-1.c has, too: it is not `jobs`, and it does not end in `&`.
pub record IsCommon (args : List (List ℕ)) : Type 0 where
  pub foreground : strip_background args ≡ (args, false)
  pub no_jobs :
      (a : List ℕ) (rest : List (List ℕ)) → args ≡ a ∷ rest → str_eq a (codes "jobs") ≡ false

pub after_wait_same :
    (words : List (List ℕ)) (pid : Pid) (status : Status) (s : Shell)
    → status ≢ stopped
    → after_wait words pid status s ≡ s
unfolding after_wait
after_wait_same words pid (returned n) s h = refl
after_wait_same words pid stopped s h = absurd (h refl)
after_wait_same words pid killed s h = refl

-- A command does the same whether it starts with SIGINT ignored, as under mini-shell-2.c, or not, as
-- under mini-shell-1.c: none is sent SIGINT and none looks at what is done with it.
pub record IsBlindToSigint (os : Os) : Type 0 where
  pub same_spawn :
      (w : os.World) (i o : Option (List ℕ)) (ws : List (List ℕ))
      → os.spawn w true i o ws ≡ os.spawn w false i o ws

module _ (os : Os) (ends : RunsToEnd os) (blind : IsBlindToSigint os) where
  open os use {World, wait, wait_end}

  supervise_same :
      (w : World) (s : Shell) (words : List (List ℕ)) (pid : ℕ)
      → s.fg_pid ≡ none
      → supervise os w s false words (some pid) ≡ after_fork os w s (some pid)
  unfolding supervise after_fork
  supervise_same w s words pid h =
      let st : Status = (wait w (some pid)).1 in
      let alone : Shell = record s { fg_pid = none } in
      ap (λ t. (((wait w (some pid)).0, t), exit_status st))
        (after_wait_same words (some pid) st alone (ends.never_stops w (some pid)))
      ∙ ap (λ p. (((wait w (some pid)).0, record s { fg_pid = p }), exit_status st)) (sym h)
      ∙ ap (λ r. ((r.0, s), exit_status r.1)) (ends.same_wait w (some pid))

  after_fork_same :
      (w : World) (s : Shell) (words : List (List ℕ)) (child : Pid)
      → s.fg_pid ≡ none
      → Exec.after_fork os w s false words child ≡ after_fork os w s child
  unfolding Exec.after_fork after_fork
  after_fork_same w s words none h = refl
  after_fork_same w s words (some pid) h = supervise_same w s words pid h

  after_scan_same :
      (w : World) (s : Shell) (r : Scan)
      → s.fg_pid ≡ none
      → Exec.after_scan os w s false r ≡ after_scan os w s r
  unfolding Exec.after_scan after_scan
  after_scan_same w s (planned p) h =
      let s' : Shell = record s { open_fds = s.open_fds + p.opened } in
      ap (λ (c : os.World × Pid). Exec.after_fork os c.0 s' false p.words c.1)
        (blind.same_spawn w p.input p.output p.words)
      ∙ after_fork_same (os.spawn w false p.input p.output p.words).0 s' p.words
          (os.spawn w false p.input p.output p.words).1 h
  after_scan_same w s (no_input n) h = refl
  after_scan_same w s (no_output n) h = refl

  pub execute_external_same :
      (w : World) (s : Shell) (args : List (List ℕ))
      → s.fg_pid ≡ none
      → strip_background args ≡ (args, false)
      → Exec.execute_external_command os w s args ≡ execute_external_command os w s args
  unfolding Exec.execute_external_command execute_external_command
  execute_external_same w s args h e =
      ap
        (λ (r : List (List ℕ) × Bool).
          Exec.after_scan os (scan os w r.0 no_plan).0 s r.1 (scan os w r.0 no_plan).1)
        e
      ∙ after_scan_same (scan os w args no_plan).0 s (scan os w args no_plan).1 h

  -- Where no child is stopped and SIGINT makes no difference to the children, a command that is not `jobs` and does not end in `&` has the same effect
  -- in mini-shell-1.c and in mini-shell-2.c with no foreground process: the same calls of the system,
  -- the same state, and the same messages.
  pub execute_command-same :
      (w : World) (s : Shell) (args : List (List ℕ))
      → s.fg_pid ≡ none
      → IsCommon args
      → Exec.execute_command os w s args ≡ execute_command os w s args
  unfolding Exec.execute_command execute_command
  execute_command-same w s [] h c = refl
  execute_command-same w s (a ∷ args) h c = elim (Option-cases (assignment a)) [
    | inr (x, e) ↦ rw (e, execute_command, Exec.execute_command) refl
    | inl e ↦ ground (
      arith,
      e,
      c.no_jobs a args refl,
      ap (λ r. r.0) (execute_external_same w s (a ∷ args) h c.foreground),
    )
  ]
