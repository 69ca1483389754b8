-- ===== src/Shell/MiniShell3/Fg.antt =====
-- The command `fg` of mini-shell-3.c without an argument.
use systemprogramming.Base.{
  ℕ, suc, ◌+◌, ◌<◌, ◌≡◌, ◌⊎◌, inl, inr, refl, ◌∙◌, Bool, true, false, if◌then◌else◌, List, [], ◌∷◌,
  ◌++◌, none, Option-cases, get_or, take, drop, length,
}
use systemprogramming.CString.{codes, str_eq, strchr}
use systemprogramming.Shell.Exec.{
  Os, Shell, Job, Pid, Status, returned, stopped, killed, no_current_job, stopped_pid, resuming,
  say, assignment,
}
use systemprogramming.Shell.Resume.{
  no_job, is_stopped_at, last_stopped, no_current, chosen, choose, has_stopped, resumed,
  choose-current, resumed-jobs,
}
use systemprogramming.Shell.MiniShell3.{resume_job, fg_builtin, execute_command}

-- The job is stopped, and none behind it is.
pub record IsCurrent (jobs : List Job) (i : ℕ) : Type 0 where
  pub in_table : i < length jobs
  pub is_stopped : is_stopped_at jobs i ≡ true
  pub none_behind : (j : ℕ) → i < j → j < length jobs → is_stopped_at jobs j ≡ false

-- The jobs behind a wait for the process of a job.
abbrev pub jobs_left : List Job → ℕ → Status → List Job
jobs_left jobs i stopped = jobs
jobs_left jobs i (returned n) = take i jobs ++ drop (suc i) jobs
jobs_left jobs i killed = take i jobs ++ drop (suc i) jobs

choose_cases :
    (jobs : List Job) → (choose jobs none ≡ no_current) ⊎ ((i : ℕ) × (choose jobs none ≡ chosen i))
unfolding choose
choose_cases jobs = elim (Option-cases (last_stopped jobs (length jobs))) [
  | inl e ↦ inl (rw (e, choose) refl)
  | inr (i, e) ↦ inr (i, rw (e, choose) refl)
]

resumed-jobs_left :
    (jobs : List Job) (i : ℕ) (status : Status)
    → IsCurrent jobs i
    → resumed jobs i status ≡ jobs_left jobs i status
resumed-jobs_left jobs i stopped c = (resumed-jobs jobs i c.in_table c.is_stopped).0
resumed-jobs_left jobs i (returned n) c = (resumed-jobs jobs i c.in_table c.is_stopped).1 n
resumed-jobs_left jobs i killed c = (resumed-jobs jobs i c.in_table c.is_stopped).2

if_jobs : (b : Bool) (s t : Shell) → s.jobs ≡ t.jobs → (if b then s else t).jobs ≡ t.jobs
if_jobs true s t e = e
if_jobs false s t e = refl

if_fg_pid : (b : Bool) (s t : Shell) → s.fg_pid ≡ t.fg_pid → (if b then s else t).fg_pid ≡ t.fg_pid
if_fg_pid true s t e = e
if_fg_pid false s t e = refl

module _ (os : Os) where
  open os use {World, wait, continue}

  -- What `fg` does: the message, or the two calls for the process of the current job and the jobs
  -- behind them.
  abbrev pub Resumes : World → Shell → World × Shell → Type 0
  Resumes w s r =
      (((j : ℕ) → j < length s.jobs → is_stopped_at s.jobs j ≡ false)
        × (r ≡ (w, say no_current_job s)))
      ⊎ ((i : ℕ) × IsCurrent s.jobs i
          × (let pid = (get_or s.jobs i no_job).pid in
              let waited = wait (continue w pid) pid in
              (r.0 ≡ waited.0) × (r.1.jobs ≡ jobs_left s.jobs i waited.1) × (r.1.fg_pid ≡ none)))

  resume_job-Resumes :
      (w : World) (s : Shell) (i : ℕ) → IsCurrent s.jobs i → Resumes w s (resume_job os w s i)
  unfolding resume_job say
  resume_job-Resumes w s i c =
      let pid : Pid = (get_or s.jobs i no_job).pid in
      let status : Status = (wait (continue w pid) pid).1 in
      let rest : Shell = record (say (resuming (i + 1) (get_or s.jobs i no_job)) s) {
        jobs = resumed s.jobs i status;
        fg_pid = none;
      } in
      inr (
        i,
        c,
        (
          refl,
          if_jobs (has_stopped status) (say (stopped_pid pid) rest) rest refl
              ∙ resumed-jobs_left s.jobs i status c,
          if_fg_pid (has_stopped status) (say (stopped_pid pid) rest) rest refl,
        ),
      )

  -- `fg` without an argument: if no job is stopped, it prints that there is no current job and does
  -- nothing else; if one is, it continues the process of the last stopped one and waits for it, and
  -- then the table is as before if the process was stopped again, or without this job and with the
  -- others in their order if it has ended.
  pub fg-Resumes : (w : World) (s : Shell) → Resumes w s (execute_command os w s (codes "fg" ∷ []))
  unfolding execute_command fg_builtin str_eq assignment strchr
  fg-Resumes w s = elim (choose_cases s.jobs) [
    | inl e ↦ inl ((choose-current s.jobs).0 e, rw (e, execute_command, fg_builtin) refl)
    | inr (i, e) ↦
        let c = (choose-current s.jobs).1 i e in
        rw (e, execute_command, fg_builtin)
          (resume_job-Resumes w s i
            (record { in_table = c.0; is_stopped = c.1; none_behind = c.2 }))
  ]
