-- ===== src/Shell/MiniShell3/Same.antt =====
-- mini-shell-3.c and mini-shell-2.c do the same, up to messages, while the table of the jobs has room.
use systemprogramming.Base.{
  ℕ, ◌+◌, ◌<◌, ◌≡◌, refl, sym, ap, ◌∙◌, arith, Bool, true, false, List, [], ◌∷◌, Option, none, some,
  if◌then◌else◌, Option-cases, inl, inr, length, length-append,
}
use systemprogramming.CString.{codes, str_eq}
use systemprogramming.Shell.Vars
use systemprogramming.Shell.Vars.{Vars, Variable, get_var_value}
use systemprogramming.Shell.Exec
use systemprogramming.Shell.Exec.{
  Os, Pid, Shell, Job, Message, Status, returned, stopped, killed, Plan, Scan, planned, no_input,
  no_output, no_plan, scan, strip_background, assignment, exit_status, max_jobs, say, say_if,
  say_each, set_builtin, jobs_from, join_words,
}
use systemprogramming.Shell.MiniShell3.{
  set_local_var, set_global_var, add_job, after_wait, supervise, after_scan,
  execute_external_command, export_one, export_builtin, execute_command,
}

-- The state but for what was printed.
abbrev pub quiet : Shell → Shell
quiet s = record s { printed = [] }

-- The state with other messages.
abbrev pub printing : List Message → Shell → Shell
printing q s = record s { printed = q }

abbrev pub quiet_result : {W : Type 0} → W × Shell → W × Shell
quiet_result (w, s) = (w, quiet s)

quiet-say : (m : Message) (s : Shell) → quiet (say m s) ≡ quiet s
unfolding say
quiet-say m s = refl

pub quiet-say_if : (b : Bool) (m : Message) (s : Shell) → quiet (say_if b m s) ≡ quiet s
unfolding say_if say
quiet-say_if true m s = refl
quiet-say_if false m s = refl

add_job_same :
    (pid : Pid) (words : List (List ℕ)) (flag : Bool) (jobs : List Job)
    → length jobs < max_jobs
    → Exec.add_job pid words flag jobs ≡ add_job pid words flag jobs
unfolding Exec.add_job add_job
add_job_same pid words flag jobs h = ground arith

-- What mini-shell-2.c does to the state, whatever was printed before.
export_one_same :
    (s t : Shell) (arg : List ℕ)
    → quiet s ≡ quiet t
    → quiet (Exec.export_one s arg) ≡ quiet (export_one t arg)
unfolding Exec.export_one export_one Vars.set_global_var set_global_var
export_one_same s t arg e = quiet-say_if _ _ _ ∙ ap (λ (r : Shell). quiet (export_one r arg)) e

export_builtin_same :
    (args : List (List ℕ)) (s t : Shell)
    → quiet s ≡ quiet t
    → quiet (Exec.export_builtin s args) ≡ quiet (export_builtin t args)
unfolding Exec.export_builtin export_builtin
export_builtin_same [] s t e = e
export_builtin_same (a ∷ args) s t e =
    export_builtin_same args (Exec.export_one s a) (export_one t a) (export_one_same s t a e)

quiet-say_each {κ} :
    {A : Type κ} (m : A → Message) (xs : List A) (s : Shell) → quiet (say_each m xs s) ≡ quiet s
unfolding say_each
quiet-say_each m [] s = refl
quiet-say_each m (x ∷ xs) s = quiet-say_each m xs (say (m x) s) ∙ quiet-say (m x) s

quiet-set_builtin : (s : Shell) → quiet (set_builtin s) ≡ quiet s
unfolding set_builtin
quiet-set_builtin s = quiet-say_each _ s.vars.globals _ ∙ quiet-say_each _ s.vars.locals s

quiet-jobs_from : (i : ℕ) (js : List Job) (s : Shell) → quiet (jobs_from i js s) ≡ quiet s
unfolding jobs_from
quiet-jobs_from i [] s = refl
quiet-jobs_from i (j ∷ js) s = quiet-jobs_from (i + 1) js _ ∙ quiet-say _ s

assign_same :
    (s t : Shell) (name value : List ℕ)
    → quiet s ≡ quiet t
    → quiet (Exec.assign_builtin s name value)
      ≡ quiet (record t { vars = set_local_var t.vars name value })
unfolding Exec.assign_builtin Vars.set_local_var set_local_var
assign_same s t name value e =
    quiet-say_if _ _ _
    ∙ ap (λ (r : Shell). quiet (record r { vars = set_local_var r.vars name value })) e

after_wait_same :
    (words : List (List ℕ)) (pid : Pid) (status : Status) (s t : Shell)
    → quiet s ≡ quiet t
    → length s.jobs < max_jobs
    → quiet (Exec.after_wait words pid status s) ≡ quiet (after_wait words pid status t)
unfolding Exec.after_wait after_wait say
after_wait_same words pid (returned n) s t e h = e
after_wait_same words pid killed s t e h = e
after_wait_same words pid stopped s t e h =
    ap (λ js. quiet (record s { jobs = js })) (add_job_same pid words true s.jobs h)
    ∙ ap (λ (r : Shell). quiet (record r { jobs = add_job pid words true r.jobs })) e

abbrev pub outcome : {W : Type 0} → (W × Shell) × Option ℕ → (W × Shell) × Option ℕ
outcome (r, status) = (quiet_result r, status)

branch :
    {W : Type 0} (b : Bool) (x y x' y' : W × Shell)
    → quiet_result x ≡ quiet_result x'
    → quiet_result y ≡ quiet_result y'
    → quiet_result (if b then x else y) ≡ quiet_result (if b then x' else y')
branch true x y x' y' e f = e
branch false x y x' y' e f = f

module _ (os : Os) where
  open os use {World, spawn, wait}

  supervise_same :
      (w : World) (s t : Shell) (background : Bool) (words : List (List ℕ)) (pid : Pid)
      → quiet s ≡ quiet t
      → length s.jobs < max_jobs
      → outcome (Exec.supervise os w s background words pid)
        ≡ outcome (supervise os w t background words pid)
  unfolding Exec.supervise supervise say
  supervise_same w s t true words pid e h =
      ap (λ (r : Shell). ((w, r), some 0))
        (ap (λ js. quiet (record s { jobs = js })) (add_job_same pid words false s.jobs h)
          ∙ ap (λ (r : Shell). quiet (record r { jobs = add_job pid words false r.jobs })) e)
  supervise_same w s t false words pid e h =
      let st = (wait w pid).1 in
      ap (λ (r : Shell). (((wait w pid).0, r), exit_status st))
        (after_wait_same words pid st (record s { fg_pid = none }) (record t { fg_pid = none })
          (ap (λ (r : Shell). quiet (record r { fg_pid = none })) e) h)

  -- `fork` succeeds whatever it is called for.
  abbrev pub ForksSucceed : Type 0
  ForksSucceed =
      (w : World) (i o : Option (List ℕ)) (ws : List (List ℕ))
      → (pid : ℕ) × ((spawn w true i o ws).1 ≡ some pid)

  after_scan_same :
      (w : World) (s t : Shell) (background : Bool) (r : Scan)
      → ForksSucceed
      → quiet s ≡ quiet t
      → length s.jobs < max_jobs
      → outcome (Exec.after_scan os w s background r) ≡ outcome (after_scan os w t background r)
  unfolding Exec.after_scan after_scan Exec.after_fork say
  after_scan_same w s t background (planned p) good e h =
      let c = spawn w true p.input p.output p.words in
      let (pid, f) = good w p.input p.output p.words in
      let s' : Shell = record s { open_fds = s.open_fds + p.opened } in
      let t' : Shell = record t { open_fds = t.open_fds + p.opened } in
      ap (λ q. outcome (Exec.after_fork os c.0 s' background p.words q)) f
      ∙ supervise_same c.0 s' t' background p.words (some pid)
          (ap (λ (r : Shell). quiet (record r { open_fds = r.open_fds + p.opened })) e) h
      ∙ ap (λ q. outcome (supervise os c.0 t' background p.words q)) (sym f)
  after_scan_same w s t background (no_input n) good e h =
      ap (λ (r : Shell). ((w, quiet (record r { open_fds = r.open_fds + n })), none)) e
  after_scan_same w s t background (no_output n) good e h =
      ap (λ (r : Shell). ((w, quiet (record r { open_fds = r.open_fds + n })), none)) e

  pub execute_external_same :
      (w : World) (s t : Shell) (args : List (List ℕ))
      → ForksSucceed
      → quiet s ≡ quiet t
      → length s.jobs < max_jobs
      → outcome (Exec.execute_external_command os w s args)
        ≡ outcome (execute_external_command os w t args)
  unfolding Exec.execute_external_command execute_external_command
  execute_external_same w s t args good e h =
      let a = strip_background args in
      let r = scan os w a.0 no_plan in after_scan_same r.0 s t a.1 r.1 good e h

  -- While there are fewer than 64 jobs and `fork` succeeds, a command other than `fg` does the same in
  -- mini-shell-2.c and mini-shell-3.c from states that differ in what was printed only: the same calls
  -- of the system, and again states that differ in what was printed only.
  pub execute_command-agrees :
      (w : World) (s t : Shell) (args : List (List ℕ))
      → ForksSucceed
      → quiet s ≡ quiet t
      → length s.jobs < max_jobs
      → ((a : List ℕ) (rest : List (List ℕ)) → args ≡ a ∷ rest → str_eq a (codes "fg") ≡ false)
      → quiet_result (Exec.execute_command os w s args) ≡ quiet_result (execute_command os w t args)
  unfolding Exec.execute_command execute_command
  execute_command-agrees w s t [] good e h c = ap (λ r. (w, r)) e
  execute_command-agrees w s t (a ∷ args) good e h c = elim (Option-cases (assignment a)) [
    | inr (x, f) ↦
        rw (f, execute_command, Exec.execute_command) (ap (λ r. (w, r)) (assign_same s t x.0 x.1 e))
    | inl f ↦
        let other = c a args refl in
        rw (f, execute_command, Exec.execute_command)
          (branch (str_eq a (codes "exit")) _ _ _ _
            (ap (λ (r : Shell). (w, quiet (record r { has_exited = true }))) e)
            (branch (str_eq a (codes "export")) _ _ _ _
              (ap (λ r. (w, r)) (export_builtin_same args s t e))
              (branch (str_eq a (codes "set")) _ _ _ _
                (ap (λ r. (w, r)) (quiet-set_builtin s ∙ e ∙ sym (quiet-set_builtin t)))
                (branch (str_eq a (codes "jobs")) _ _ _ _
                  (ap (λ r. (w, r))
                    (quiet-jobs_from 0 s.jobs s ∙ e ∙ sym (quiet-jobs_from 0 t.jobs t)))
                  (rw other (ap (λ r. r.0) (execute_external_same w s t (a ∷ args) good e h)))))))
  ]

  -- In mini-shell-3.c a background command always adds a job, so that the 65th is stored behind the
  -- end of the array.
  pub background-grows :
      (w : World) (s : Shell) (args : List (List ℕ)) (p : Plan)
      → (strip_background args).1 ≡ true
      → (scan os w (strip_background args).0 no_plan).1 ≡ planned p
      → length (execute_external_command os w s args).0.1.jobs ≡ length s.jobs + 1
  unfolding execute_external_command after_scan supervise add_job say
  background-grows w s args p b e =
      let job : Job = record {
        pid =
            (spawn (scan os w (strip_background args).0 no_plan).0 true p.input p.output p.words).1;
        command = join_words p.words;
        is_stopped = false;
      } in
      rw (b, e) (length-append s.jobs (job ∷ []))
