-- ===== src/Pipe.antt =====
-- lab9-lyjae/pipe.c: two commands with a pipe between them. A process is its table of descriptors; what
-- a descriptor refers to is one of the two ends of the pipe or some other file. `strncpy` stores no
-- terminator for a command of 256 bytes or more, which is not modelled.
mod Slots
pub mod Ends
mod Tests
use systemprogramming.Base.{
  ℕ, zero, suc, ◌+◌, ◌-◌, Bool, true, false, ◌==◌, ltb, List, [], ◌∷◌, ◌++◌, Option, none, some,
  if◌then◌else◌, get_or, set, take,
}
use systemprogramming.CString.{strtok, strncpy}

abbrev pub max_args : ℕ
max_args = 16

-- `strtok(input, " ")` up to the room of `argv`.
pub parse_command : List ℕ → List (List ℕ)
parse_command input = take (max_args - 1) (strtok (λ c. c == b' ') input)

pub data File : Type 0 where
  read_end : File
  write_end : File
  other_file : ℕ → File

abbrev pub Table : Type 0
Table = List (Option File)

-- What a descriptor refers to.
abbrev pub file_of : Table → ℕ → Option File
file_of t fd = get_or t fd none

pub close : Table → ℕ → Table
close t fd = set t fd none

-- `dup2(from, to)`, which changes nothing where `from` is closed.
pub dup2 : Table → ℕ → ℕ → Table
dup2 t from to = elim (file_of t from) [ none ↦ t | some f ↦ set t to (some f) ]

-- The lowest descriptor that is free, from one on.
pub lowest_free : Table → ℕ → Option ℕ
lowest_free [] fd = none
lowest_free (none ∷ t) fd = some fd
lowest_free (some f ∷ t) fd = lowest_free t (fd + 1)

-- `pipe(pipefd)`: the table, and the descriptors of the two ends.
pub pipe : Table → Option (Table × ℕ × ℕ)
unfolding lowest_free
pipe t = elim (lowest_free t 0) [
  | none ↦ none
  | some r ↦
      let t' = set t r (some read_end) in
      elim (lowest_free t' 0) [ none ↦ none | some w ↦ some (set t' w (some write_end), r, w) ]
]

-- The child of the first command up to `execvp`: its output goes to the pipe.
pub first_child : Table → ℕ → ℕ → Table
unfolding close dup2
first_child t r w = close (dup2 (close t r) w 1) w

-- The child of the second command: its input comes from the pipe.
pub second_child : Table → ℕ → ℕ → Table
unfolding close dup2
second_child t r w = close (dup2 (close t w) r 0) r

-- The parent behind the two calls of `fork`.
pub parent : Table → ℕ → ℕ → Table
unfolding close
parent t r w = close (close t r) w

-- A process that executes a command: its descriptors and its arguments.
pub record Process : Type 0 where
  pub table : Table
  pub args : List (List ℕ)

-- The two children, where `fork` succeeds, and the descriptors of the parent while it waits.
pub data Outcome : Type 0 where
  usage : Outcome
  pipe_failed : Outcome
  started : (first : Process) → (second : Process) → (waiting : Table) → Outcome

-- `main` behind the call of `pipe`: the two children and the parent.
pub start_both : List ℕ → List ℕ → Option (Table × ℕ × ℕ) → Outcome
unfolding first_child second_child parent parse_command
start_both c1 c2 none = pipe_failed
start_both c1 c2 (some (t, r, w)) =
    started (record { table = first_child t r w; args = parse_command (strncpy 256 c1) })
      (record { table = second_child t r w; args = parse_command (strncpy 256 c2) }) (parent t r w)

-- `main`, for the arguments behind the name of the program.
pub main : Table → List (List ℕ) → Outcome
unfolding pipe start_both
main t [] = usage
main t (c ∷ []) = usage
main t (c1 ∷ c2 ∷ more) = start_both c1 c2 (pipe t)
