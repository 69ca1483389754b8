-- ===== src/Shell/Signals.antt =====
-- The signals of lab7-lyjae/mini-shell-2.c and mini-shell-3.c: `main` ignores SIGINT and handles
-- SIGTSTP, a child resets SIGTSTP only. No process is put in a group of its own, so a key of the
-- terminal reaches the shell and all its children. The rules of POSIX used are: `fork` copies what a
-- process does about a signal, `execvp` keeps what is ignored and resets what is handled, and the
-- default is to stop for SIGTSTP and to end for SIGINT. The commands leave both signals as they get
-- them, and the shell itself was started by a shell with job control, so its group is not an orphaned
-- one, whose members SIGTSTP does not stop.
pub mod Children
pub mod Reach
pub mod Keys
mod Tests
use systemprogramming.Base.{
  ℕ, ◌≡◌, Bool, true, false, ◌||◌, ◌==◌, List, [], ◌∷◌, Option, none, some, if◌then◌else◌,
}

pub data Disposition : Type 0 where
  default ignored handled : Disposition

-- How far a child is: behind `fork`, behind `signal(SIGTSTP, SIG_DFL)`, behind `execvp`.
pub data Stage : Type 0 where
  forked reset executed : Stage

pub record Child : Type 0 where
  pub pid : ℕ
  pub in_background : Bool
  pub stage : Stage
  pub sigint : Disposition
  pub sigtstp : Disposition
  pub is_stopped : Bool
  pub has_ended : Bool

-- Where the shell is: at a line, behind `fork` or `kill(pid, SIGCONT)`, behind `fg_pid = pid`, and
-- behind `waitpid`.
pub data Place : Type 0 where
  idle : Place
  starting : ℕ → Place
  waiting : ℕ → Place
  returning : ℕ → Place

pub record Group : Type 0 where
  pub place : Place
  pub fg_pid : Option ℕ
  pub children : List Child

-- What `main` sets for the shell itself.
abbrev pub shell_sigint : Disposition
shell_sigint = ignored

abbrev pub shell_sigtstp : Disposition
shell_sigtstp = handled

abbrev pub start_group : Group
start_group = record { place = idle; fg_pid = none; children = [] }

-- `fork`.
abbrev pub new_child : ℕ → Bool → Child
new_child pid in_background = record {
  pid = pid;
  in_background = in_background;
  stage = forked;
  sigint = shell_sigint;
  sigtstp = shell_sigtstp;
  is_stopped = false;
  has_ended = false;
}

-- `signal(SIGTSTP, SIG_DFL)` in the child.
abbrev pub reset_child : Child → Child
reset_child c = record c { stage = reset; sigtstp = default }

abbrev pub exec_disposition : Disposition → Disposition
exec_disposition default = default
exec_disposition ignored = ignored
exec_disposition handled = default

abbrev pub exec_child : Child → Child
exec_child c = record c {
  stage = executed;
  sigint = exec_disposition c.sigint;
  sigtstp = exec_disposition c.sigtstp;
}

abbrev pub end_child : Child → Child
end_child c = record c { has_ended = true }

-- `kill(pid, SIGCONT)` before a job goes on in the foreground.
abbrev pub continue_child : Child → Child
continue_child c = record c { is_stopped = false; in_background = false }

-- SIGINT and SIGTSTP in a child. The handler that a child has before its reset finds -1 in its copy
-- of `fg_pid`, and does nothing.
abbrev pub interrupt : Child → Child
interrupt c = elim c.sigint [ default ↦ end_child c | ignored ↦ c | handled ↦ c ]

abbrev pub suspend : Child → Child
suspend c = elim c.sigtstp [
  | default ↦ record c { is_stopped = if c.has_ended then c.is_stopped else true }
  | ignored ↦ c
  | handled ↦ c
]

unfoldable pub each : (Child → Child) → List Child → List Child
each f [] = []
each f (c ∷ cs) = f c ∷ each f cs

-- The child of a process number.
unfoldable pub at_pid : ℕ → (Child → Child) → List Child → List Child
at_pid p f [] = []
at_pid p f (c ∷ cs) = (if c.pid == p then f c else c) ∷ at_pid p f cs

-- The keys of the terminal; `sigtstp_handler` comes after the children got the signal themselves.
abbrev pub press_c : Group → Group
press_c g = record g { children = each interrupt g.children }

abbrev pub sigtstp_handler : Option ℕ → List Child → List Child
sigtstp_handler none cs = cs
sigtstp_handler (some p) cs = at_pid p suspend cs

abbrev pub press_z : Group → Group
press_z g = record g { children = sigtstp_handler g.fg_pid (each suspend g.children) }

abbrev pub All : (Child → Type 0) → List Child → Type 0
All P [] = Unit
All P (c ∷ cs) = P c × All P cs

-- What holds of the children of a number.
abbrev pub AllAt : ℕ → (Child → Type 0) → List Child → Type 0
AllAt p P cs = All (λ c. (c.pid == p) ≡ true → P c) cs

-- No child has this number.
abbrev pub IsFresh : ℕ → List Child → Type 0
IsFresh p cs = All (λ c. (c.pid == p) ≡ false) cs

-- `waitpid` takes an ended child away.
unfoldable pub reap : ℕ → List Child → List Child
reap p [] = []
reap p (c ∷ cs) =
    let rest = reap p cs in
    if c.pid == p then (if c.has_ended then rest else c ∷ rest) else c ∷ rest

abbrev pub IsHalted : Child → Type 0
IsHalted c = (c.is_stopped || c.has_ended) ≡ true

abbrev pub after_fork_place : ℕ → Bool → Place
after_fork_place pid true = idle
after_fork_place pid false = starting pid

-- One step of the shell, of a child, or of the user.
pub data Step : Group → Group → Type 0 where
  forks :
      (g : Group) (pid : ℕ) (background : Bool)
      → g.place ≡ idle
      → IsFresh pid g.children
      → Step g (record g {
        place = after_fork_place pid background;
        children = new_child pid background ∷ g.children;
      })
  resumes :
      (g : Group) (pid : ℕ)
      → g.place ≡ idle
      → Step g (record g { place = starting pid; children = at_pid pid continue_child g.children })
  takes_over :
      (g : Group) (pid : ℕ)
      → g.place ≡ starting pid
      → Step g (record g { place = waiting pid; fg_pid = some pid })
  waits :
      (g : Group) (pid : ℕ)
      → g.place ≡ waiting pid
      → AllAt pid IsHalted g.children
      → Step g (record g { place = returning pid; children = reap pid g.children })
  gives_back :
      (g : Group) (pid : ℕ)
      → g.place ≡ returning pid
      → Step g (record g { place = idle; fg_pid = none })
  resets :
      (g : Group) (pid : ℕ)
      → AllAt pid (λ c. c.stage ≡ forked) g.children
      → Step g (record g { children = at_pid pid reset_child g.children })
  executes :
      (g : Group) (pid : ℕ)
      → AllAt pid (λ c. c.stage ≡ reset) g.children
      → Step g (record g { children = at_pid pid exec_child g.children })
  ends : (g : Group) (pid : ℕ) → Step g (record g { children = at_pid pid end_child g.children })
  pressed_c : (g : Group) → Step g (press_c g)
  pressed_z : (g : Group) → Step g (press_z g)

pub data Reachable : Group → Type 0 where
  started : Reachable start_group
  stepped : (g h : Group) → Reachable g → Step g h → Reachable h
