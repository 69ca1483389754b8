-- ===== src/Shell/MiniShell3/Idle.antt =====
-- Commands of mini-shell-2.c that leave the shell with no process in the foreground and no job.
use systemprogramming.Base.{
  ℕ, ◌≡◌, refl, ap, ◌∙◌, arith, Bool, false, List, [], ◌∷◌, Option, none, some, Option-cases, inl,
  inr,
}
use systemprogramming.Shell.Exec.{
  Os, Pid, Shell, Scan, planned, no_input, no_output, no_plan, scan, say, supervise, after_fork,
  after_scan, execute_external_command, execute_command, assignment,
}
use systemprogramming.Shell.MiniShell1.Same.{RunsToEnd, IsCommon, after_wait_same}
use systemprogramming.Shell.MiniShell1.Session.{
  processes, idle, export_builtin-processes, set_builtin-processes, assign_builtin-processes,
}

module _ (os : Os) (ends : RunsToEnd os) where
  open os use {World, wait, spawn}

  supervise-idle :
      (w : World) (s : Shell) (words : List (List ℕ)) (pid : Pid)
      → processes s ≡ idle
      → processes ((supervise os w s false words pid).0.1) ≡ idle
  unfolding supervise
  supervise-idle w s words pid h =
      ap processes (
        after_wait_same words pid (wait w pid).1 (record s { fg_pid = none })
          (ends.never_stops w pid))
      ∙ ap (λ r. (none, r.1)) h

  after_fork-idle :
      (w : World) (s : Shell) (words : List (List ℕ)) (pid : Pid)
      → processes s ≡ idle
      → processes ((after_fork os w s false words pid).0.1) ≡ idle
  unfolding after_fork say
  after_fork-idle w s words none h = h
  after_fork-idle w s words (some pid) h = supervise-idle w s words (some pid) h

  after_scan-idle :
      (w : World) (s : Shell) (r : Scan)
      → processes s ≡ idle
      → processes ((after_scan os w s false r).0.1) ≡ idle
  unfolding after_scan say
  after_scan-idle w s (planned p) h = after_fork-idle _ _ _ _ h
  after_scan-idle w s (no_input n) h = h
  after_scan-idle w s (no_output n) h = h

  pub common_external-processes :
      (w : World) (s : Shell) (args : List (List ℕ))
      → IsCommon args
      → processes s ≡ idle
      → processes ((execute_external_command os w s args).0.1) ≡ idle
  unfolding execute_external_command
  common_external-processes w s args c h =
      let done : List (List ℕ) × Bool → (World × Shell) × Option ℕ =
        λ r. after_scan os (scan os w r.0 no_plan).0 s r.1 (scan os w r.0 no_plan).1 in
      ap (λ r. processes ((done r).0.1)) c.foreground ∙ after_scan-idle _ s _ h

  -- A command that both have leaves mini-shell-2.c without jobs, too.
  pub common-processes :
      (w : World) (s : Shell) (args : List (List ℕ))
      → IsCommon args
      → processes s ≡ idle
      → processes ((execute_command os w s args).1) ≡ idle
  unfolding execute_command
  common-processes w s [] c h = h
  common-processes w s (a ∷ args) c h = elim (Option-cases (assignment a)) [
    | inr (x, e) ↦ rw (e, execute_command) (assign_builtin-processes s x.0 x.1 ∙ h)
    | inl e ↦ ground (
      arith,
      e,
      h,
      c.no_jobs a args refl,
      export_builtin-processes args s,
      set_builtin-processes s,
      common_external-processes w s (a ∷ args) c h,
    )
  ]
