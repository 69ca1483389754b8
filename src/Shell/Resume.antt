-- ===== src/Shell/Resume.antt =====
-- The choice of a job by the command `fg` of lab7-lyjae/mini-shell-3.c, and what becomes of it.
use systemprogramming.Base.{
  ℕ, zero, suc, ◌-◌, ◌<◌, ◌≡◌, inl, inr, refl, ap, ◌∙◌, arith, Bool, true, false, ◌||◌, ltb, List,
  [], ◌∷◌, ◌++◌, Option, none, some, if◌then◌else◌, length, get_or, set, take, drop, Bool-cases,
  dec_lt,
}
use systemprogramming.Shell.Exec.{Job, Status, returned, stopped, killed}

abbrev pub no_job : Job
no_job = record { pid = none; command = []; is_stopped = false }

abbrev pub is_stopped_at : List Job → ℕ → Bool
is_stopped_at jobs i = (get_or jobs i no_job).is_stopped

-- `for (i = n - 1; i >= 0; i--) if (jobs[i].stopped) break`.
unfoldable pub last_stopped : List Job → ℕ → Option ℕ
last_stopped jobs zero = none
last_stopped jobs (suc i) =
    let before = last_stopped jobs i in if is_stopped_at jobs i then some i else before

-- What is wrong with the arguments of `fg`, or the index of the job.
pub data Chosen : Type 0 where
  no_current : Chosen
  not_found : Chosen
  not_stopped : Chosen
  chosen : ℕ → Chosen

-- The argument is the value of `atoi`, a negative one taken as 0.
unfoldable pub choose : List Job → Option ℕ → Chosen
unfolding last_stopped
choose jobs none = elim (last_stopped jobs (length jobs)) [ none ↦ no_current | some i ↦ chosen i ]
choose jobs (some n) =
    if ltb n 1 || ltb (length jobs) n
    then not_found
    else if is_stopped_at jobs (n - 1)
    then chosen (n - 1)
    else not_stopped

-- `for (i = idx; i < job_count - 1; i++) jobs[i] = jobs[i + 1]; job_count--`.
unfoldable pub remove_job : List Job → ℕ → List Job
remove_job [] i = []
remove_job (j ∷ js) zero = js
remove_job (j ∷ js) (suc i) = j ∷ remove_job js i

abbrev pub mark : Bool → List Job → ℕ → List Job
mark flag jobs i = set jobs i (record (get_or jobs i no_job) { is_stopped = flag })

abbrev pub has_stopped : Status → Bool
has_stopped stopped = true
has_stopped (returned n) = false
has_stopped killed = false

-- The jobs after a job was resumed, for what `waitpid` reports of it.
unfoldable pub resumed : List Job → ℕ → Status → List Job
unfolding remove_job
resumed jobs i status =
    let jobs' = mark false jobs i in
    if has_stopped status then mark true jobs' i else remove_job jobs' i

abbrev LastStopped : List Job → ℕ → Option ℕ → Type 0
LastStopped jobs n none = (j : ℕ) → j < n → is_stopped_at jobs j ≡ false
LastStopped jobs n (some i) =
    (i < n)
    × (is_stopped_at jobs i ≡ true)
    × ((j : ℕ) → i < j → j < n → is_stopped_at jobs j ≡ false)

last_stopped-LastStopped : (jobs : List Job) (n : ℕ) → LastStopped jobs n (last_stopped jobs n)
unfolding last_stopped
last_stopped-LastStopped jobs zero = λ j h. absurd (omega arith)
last_stopped-LastStopped jobs (suc n) = elim (Bool-cases (is_stopped_at jobs n)) [
  | inl e ↦ rw e (omega arith, e, λ j a b. absurd (omega arith))
  | inr e ↦ rw e (further (last_stopped jobs n) (last_stopped-LastStopped jobs n) e)
]
  where
    at_or_before :
        (j : ℕ)
        → is_stopped_at jobs n ≡ false
        → (j < n → is_stopped_at jobs j ≡ false)
        → j < suc n
        → is_stopped_at jobs j ≡ false
    at_or_before j e rest h = elim (dec_lt j n) [
      | yes lt ↦ rest lt
      | no ge ↦ let same : j ≡ n = omega arith in ap (is_stopped_at jobs) same ∙ e
    ]

    further :
        (o : Option ℕ)
        → LastStopped jobs n o
        → is_stopped_at jobs n ≡ false
        → LastStopped jobs (suc n) o
    further none l e = λ j h. at_or_before j e (l j) h
    further (some i) l e = (omega (arith, l.0), l.1, λ j a h. at_or_before j e (l.2 j a) h)

-- `fg` without an argument takes the stopped job of the greatest number, and reports that there is no
-- current job exactly when no job is stopped.
pub choose-current :
    (jobs : List Job)
    → (choose jobs none ≡ no_current → (j : ℕ) → j < length jobs → is_stopped_at jobs j ≡ false)
      × ((i : ℕ)
          → choose jobs none ≡ chosen i
          → (i < length jobs)
            × (is_stopped_at jobs i ≡ true)
            × ((j : ℕ) → i < j → j < length jobs → is_stopped_at jobs j ≡ false))
unfolding choose
choose-current jobs =
    go (last_stopped jobs (length jobs)) (last_stopped-LastStopped jobs (length jobs))
  where
    go :
        (o : Option ℕ)
        → LastStopped jobs (length jobs) o
        → (elim o [ none ↦ no_current | some i ↦ chosen i ] ≡ no_current
            → LastStopped jobs (length jobs) none)
          × ((i : ℕ)
              → elim o [ none ↦ no_current | some i ↦ chosen i ] ≡ chosen i
              → LastStopped jobs (length jobs) (some i))
    go none l = (λ e. l, λ i e. cc)
    go (some k) l = (λ e. cc, λ i e. let same : k ≡ i = cc in rw (← same) l)

mark_back :
    (jobs : List Job) (i : ℕ)
    → i < length jobs
    → is_stopped_at jobs i ≡ true
    → mark true (mark false jobs i) i ≡ jobs
mark_back [] i h e = absurd (omega arith)
mark_back (j ∷ js) zero h e = rw (← e) refl
mark_back (j ∷ js) (suc i) h e = ap (λ t. j ∷ t) (mark_back js i (omega arith) e)

remove-mark :
    (jobs : List Job) (i : ℕ) → remove_job (mark false jobs i) i ≡ take i jobs ++ drop (suc i) jobs
unfolding remove_job
remove-mark [] zero = refl
remove-mark [] (suc i) = refl
remove-mark (j ∷ js) zero = refl
remove-mark (j ∷ js) (suc i) = ap (λ t. j ∷ t) (remove-mark js i)

-- A stopped job that is resumed and stops again leaves the table as it was; one that ends is taken out,
-- and the others keep their order.
pub resumed-jobs :
    (jobs : List Job) (i : ℕ)
    → i < length jobs
    → is_stopped_at jobs i ≡ true
    → (resumed jobs i stopped ≡ jobs)
      × ((n : ℕ) → resumed jobs i (returned n) ≡ take i jobs ++ drop (suc i) jobs)
      × (resumed jobs i killed ≡ take i jobs ++ drop (suc i) jobs)
unfolding resumed
resumed-jobs jobs i h e = (mark_back jobs i h e, λ n. remove-mark jobs i, remove-mark jobs i)
