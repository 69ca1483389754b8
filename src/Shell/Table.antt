-- ===== src/Shell/Table.antt =====
-- The table of jobs over a whole run of lab7-lyjae/mini-shell-2.c.
use systemprogramming.Base.{◌≤◌, ◌≡◌, List, ◌++◌, length}
use systemprogramming.Shell.Exec.{Shell, Job, max_jobs}

-- The table was `old` and at most got more jobs at its end, up to the 64 that there is room for.
pub record HasGrown (old jobs : List Job) : Type 0 where
  pub more : List Job
  pub same : jobs ≡ old ++ more
  pub fits : length old ≤ max_jobs → length jobs ≤ max_jobs
