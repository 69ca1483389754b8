-- ===== src/Shell/Block.antt =====
-- `handle_if_block`, `process_line` and the loops of `main` of lab7-lyjae/mini-shell-2.c, which
-- mini-shell-1.c and mini-shell-3.c repeat. The input
-- is the list of the lines that `fgets` will return.
pub mod Laws
pub mod Runs
pub mod Tables
pub mod Simulation
pub mod Checked
use systemprogramming.Base.{
  ℕ, zero, suc, ◌+◌, ◌-◌, Bool, true, false, List, [], ◌∷◌, ◌++◌, Option, none, some, if◌then◌else◌,
  length, take, drop,
}
use systemprogramming.CString.{codes, str_eq, strtok, strncpy}
use systemprogramming.Shell.Parse.{max_line, is_delim, is_blank_line, parse_command}
use systemprogramming.Shell.Exec.{
  Os, Shell, Message, then_expected, block_too_long, fi_missing, too_many_arguments, say, say_if,
  execute_external_command, execute_command,
}

abbrev pub Line : Type 0
Line = List ℕ

abbrev pub max_block_lines : ℕ
max_block_lines = 32

abbrev is_word : List ℕ → List Line → Bool
is_word word [] = false
is_word word (t ∷ ts) = str_eq t word

-- Whether the first token of a line is this word.
unfoldable pub first_token_is : List ℕ → Line → Bool
first_token_is word line = is_word word (strtok is_delim line)

pub data Block : Type 0 where
  closed : List Line → List Line → Block
  overfull : List Line → Block
  open_ended : Block

-- The loop that reads the block with room for some more lines: the lines before `fi` and the input
-- behind it, or the input that is left when the room is used up.
unfoldable pub read_block : ℕ → List Line → List Line → Block
read_block room lines [] = open_ended
read_block room lines (line ∷ input) = elim (is_blank_line line) [
  | true ↦ read_block room lines input
  | false ↦ elim (first_token_is (codes "fi") line) [
    | true ↦ closed lines input
    | false ↦ elim room [
      | zero ↦ overfull input
      | suc less ↦ read_block less (lines ++ line ∷ []) input
    ]
  ]
]

unfoldable pub starts_with_if : Line → Bool
starts_with_if line = str_eq (take 3 line) (codes "if ")

-- A shell, as far as blocks and the loop of `main` see it: the three programs differ in these. The
-- state has the world in it; `run_line` is `parse_command` and `execute_command`, `run_condition` is
-- `parse_command` and `execute_external_command`, and `complain` is what is done about a message.
pub record Program : Type 1 where
  pub State : Type 0
  pub run_line : State → Line → State
  pub run_condition : State → Line → State × Option ℕ
  pub has_exited : State → Bool
  pub complain : Message → State → State

module _ (p : Program) where
  open p use {State, run_line, run_condition, has_exited, complain}

  -- The lines of a block, in order; `exit` ends the process.
  unfoldable pub run_lines : State → List Line → State
  run_lines s [] = s
  run_lines s (line ∷ lines) = elim (has_exited s) [
    | true ↦ s
    | false ↦ run_lines (run_line s line) lines
  ]

  -- The body of a block behind its condition, which is run if the condition returned 0.
  unfoldable pub after_condition : State → Option ℕ → List Line → State
  after_condition s (some zero) lines = run_lines s lines
  after_condition s (some (suc n)) lines = s
  after_condition s none lines = s

  -- The condition, an external command, and the block.
  unfoldable pub run_if : State → Line → List Line → State
  run_if s cond lines = let (s', status) = run_condition s cond in after_condition s' status lines

  -- What follows the loop that reads the block.
  unfoldable pub after_block : State → Line → Block → State × List Line
  after_block s if_line (closed lines rest) =
      (run_if s (strncpy (max_line - 1) (drop 3 if_line)) lines, rest)
  after_block s if_line (overfull rest) = (complain block_too_long s, rest)
  after_block s if_line open_ended = (complain fi_missing s, [])

  -- The state, and the input that is left.
  unfoldable pub handle_if_block : State → Line → List Line → State × List Line
  unfolding after_block
  handle_if_block s if_line [] = (complain then_expected s, [])
  handle_if_block s if_line (line ∷ input) =
      if first_token_is (codes "then") line
      then after_block s if_line (read_block max_block_lines [] input)
      else (complain then_expected s, input)

  unfoldable pub process_line : State → Line → List Line → State × List Line
  process_line s line input =
      if is_blank_line line
      then (s, input)
      else if starts_with_if line
      then handle_if_block s line input
      else (run_line s line, input)

  -- The loop of `main` over the lines of a script or of the terminal, one round of fuel for each
  -- line that it reads; `none` if the fuel runs out.
  unfoldable pub main_loop : ℕ → State → List Line → Option State
  main_loop zero s input = none
  main_loop (suc fuel) s [] = some s
  main_loop (suc fuel) s (line ∷ input) = elim (has_exited s) [
    | true ↦ some s
    | false ↦ let (s', rest) = process_line s line input in main_loop fuel s' rest
  ]

-- mini-shell-2.c.
abbrev pub mini_shell_2 : Os → Program
mini_shell_2 os = record {
  State = os.World × Shell;
  run_line = λ (w, s) line.
      let (args, ignored) = parse_command s.vars line in
      execute_command os w (say_if ignored too_many_arguments s) args;
  run_condition = λ (w, s) line.
      let (args, ignored) = parse_command s.vars line in
      execute_external_command os w (say_if ignored too_many_arguments s) args;
  has_exited = λ (w, s). s.has_exited;
  complain = λ m (w, s). (w, say m s);
}
