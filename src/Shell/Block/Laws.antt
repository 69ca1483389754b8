-- ===== src/Shell/Block/Laws.antt =====
-- The `if` block of the shell, and the end of its loop.
use systemprogramming.Base.{
  ℕ, zero, suc, ◌≤◌, ◌<◌, ◌≡◌, inl, inr, refl, arith, true, false, List, [], ◌∷◌, ◌++◌, append-nil,
  append_assoc, ◌≢◌, Option, none, take, some, length, drop, Bool-cases,
}
use systemprogramming.CString.{codes, strncpy}
use systemprogramming.Shell.Parse.{is_blank_line}
use systemprogramming.Shell.Exec.{block_too_long}
use systemprogramming.Shell.Block.{
  Program, Line, max_block_lines, first_token_is, Block, closed, overfull, open_ended, read_block,
  run_lines, after_condition, run_if, after_block, handle_if_block, process_line, main_loop,
}

-- A line of the body of a block: not blank, and not `fi`.
abbrev pub IsBody : Line → Type 0
IsBody line = (is_blank_line line ≡ false) × (first_token_is (codes "fi") line ≡ false)

abbrev pub AllBody : List Line → Type 0
AllBody [] = Unit
AllBody (l ∷ ls) = IsBody l × AllBody ls

-- The line that closes a block.
abbrev pub IsFi : Line → Type 0
IsFi line = (is_blank_line line ≡ false) × (first_token_is (codes "fi") line ≡ true)

read_block-closed :
    (room : ℕ) (acc body : List Line) (fi : Line) (rest : List Line)
    → AllBody body
    → IsFi fi
    → length body ≤ room
    → read_block room acc (body ++ fi ∷ rest) ≡ closed (acc ++ body) rest
unfolding read_block
read_block-closed room acc [] fi rest b f h = ground (arith, f.0, f.1, append-nil acc)
read_block-closed zero acc (l ∷ ls) fi rest b f h = absurd (omega arith)
read_block-closed (suc room) acc (l ∷ ls) fi rest b f h = ground (
  arith,
  b.0,
  append_assoc acc (l ∷ []) ls,
  read_block-closed room (acc ++ l ∷ []) ls fi rest b.1 f (omega arith),
)

read_block-overfull :
    (room : ℕ) (acc body : List Line) (more : Line) (rest : List Line)
    → AllBody body
    → IsBody more
    → length body ≡ room
    → read_block room acc (body ++ more ∷ rest) ≡ overfull rest
unfolding read_block
read_block-overfull room acc [] more rest b m h = ground (arith, m.0, m.1)
read_block-overfull zero acc (l ∷ ls) more rest b m h = absurd (omega arith)
read_block-overfull (suc room) acc (l ∷ ls) more rest b m h =
    ground (arith, b.0, read_block-overfull room (acc ++ l ∷ []) ls more rest b.1 m (omega arith))

-- The input that is left behind a block.
abbrev left : Block → List Line
left (closed lines rest) = rest
left (overfull rest) = rest
left open_ended = []

length-read_block :
    (room : ℕ) (acc input : List Line) → length (left (read_block room acc input)) ≤ length input
unfolding read_block
length-read_block room acc [] = omega arith
length-read_block zero acc (l ∷ input) = ground (arith, length-read_block zero acc input)
length-read_block (suc room) acc (l ∷ input) =
    ground
      (arith, length-read_block (suc room) acc input, length-read_block room (acc ++ l ∷ []) input)

-- The lines of a list, one after the other from a state, until the program has exited.
pub data Ran (p : Program) : p.State → List Line → p.State → Type 0 where
  at_end : (s : p.State) → Ran p s [] s
  exited : (s : p.State) (ls : List Line) → p.has_exited s ≡ true → Ran p s ls s
  ran :
      (s t : p.State) (l : Line) (ls : List Line)
      → p.has_exited s ≡ false
      → Ran p (p.run_line s l) ls t
      → Ran p s (l ∷ ls) t

-- The condition, and the lines if it returned 0.
pub data RanIf (p : Program) : p.State → Line → List Line → p.State → Type 0 where
  held :
      (s t : p.State) (cond : Line) (ls : List Line)
      → (p.run_condition s cond).1 ≡ some 0
      → Ran p (p.run_condition s cond).0 ls t
      → RanIf p s cond ls t
  failed :
      (s : p.State) (cond : Line) (ls : List Line)
      → (p.run_condition s cond).1 ≢ some 0
      → RanIf p s cond ls (p.run_condition s cond).0

module _ (p : Program) where
  open p use {State, complain}

  run_lines-Ran : (s : State) (ls : List Line) → Ran p s ls (run_lines p s ls)
  unfolding run_lines
  run_lines-Ran s [] = at_end s
  run_lines-Ran s (l ∷ ls) = elim (Bool-cases (p.has_exited s)) [
    | inl e ↦ rw (e, run_lines) (exited s (l ∷ ls) e)
    | inr e ↦ rw (e, run_lines) (ran s _ l ls e (run_lines-Ran (p.run_line s l) ls))
  ]

  run_if-RanIf : (s : State) (cond : Line) (ls : List Line) → RanIf p s cond ls (run_if p s cond ls)
  unfolding run_if after_condition
  run_if-RanIf s cond ls = by_status (p.run_condition s cond).1 refl
    where
      by_status :
          (o : Option ℕ)
          → (p.run_condition s cond).1 ≡ o
          → RanIf p s cond ls (after_condition p (p.run_condition s cond).0 o ls)
      by_status (some zero) e = held s _ cond ls e (run_lines-Ran (p.run_condition s cond).0 ls)
      by_status (some (suc n)) e = failed s cond ls (λ z. cc)
      by_status none e = failed s cond ls (λ z. cc)

  -- A block of at most 32 lines, none blank and none `fi`, with `then` before it and `fi` behind it: the
  -- text behind `if ` is run as the condition; if it returns 0, exactly these lines are run in their
  -- order, up to a line that exits, and otherwise none; and the input goes on behind `fi`.
  pub handle_if_block-closed :
      (s : State) (if_line then_line : Line) (body : List Line) (fi : Line) (rest : List Line)
      → first_token_is (codes "then") then_line ≡ true
      → AllBody body
      → length body ≤ max_block_lines
      → IsFi fi
      → let result = handle_if_block p s if_line (then_line ∷ (body ++ fi ∷ rest)) in
        RanIf p s (take 1023 (drop 3 if_line)) body result.0 × (result.1 ≡ rest)
  unfolding handle_if_block strncpy
  handle_if_block-closed s if_line then_line body fi rest t b h f =
      let e = read_block-closed max_block_lines [] body fi rest b f h in
      rw (t, e) (run_if-RanIf s (take 1023 (drop 3 if_line)) body, refl)

  -- A block that begins with `then` and has a 33rd line, with no blank line and no `fi` among the 33,
  -- is refused with a message, and nothing is run; but the input goes on behind that line, so that
  -- the rest of the block is read as commands of its own.
  pub handle_if_block-overfull :
      (s : State) (if_line then_line : Line) (body : List Line) (more : Line) (rest : List Line)
      → first_token_is (codes "then") then_line ≡ true
      → AllBody body
      → length body ≡ max_block_lines
      → IsBody more
      → handle_if_block p s if_line (then_line ∷ (body ++ more ∷ rest))
        ≡ (complain block_too_long s, rest)
  unfolding handle_if_block
  handle_if_block-overfull s if_line then_line body more rest t b h m =
      let e = read_block-overfull max_block_lines [] body more rest b m h in rw (t, e) refl

  after_block-left :
      (s : State) (if_line : Line) (b : Block) → (after_block p s if_line b).1 ≡ left b
  unfolding after_block
  after_block-left s if_line (closed lines rest) = refl
  after_block-left s if_line (overfull rest) = refl
  after_block-left s if_line open_ended = refl

  pub length-process_line :
      (s : State) (line : Line) (input : List Line)
      → length (process_line p s line input).1 ≤ length input
  unfolding process_line handle_if_block
  length-process_line s line [] = ground arith
  length-process_line s line (next ∷ input) = ground (
    arith,
    length-read_block max_block_lines [] input,
    after_block-left s line (read_block max_block_lines [] input),
  )

  -- The loop of the shell ends: a round of fuel more than there are lines is enough for every script.
  pub main_loop_total :
      (fuel : ℕ) (s : State) (input : List Line)
      → length input < fuel
      → (r : State) × (main_loop p fuel s input ≡ some r)
  unfolding main_loop
  main_loop_total zero s input h = elim h [ ]
  main_loop_total (suc fuel) s [] h = (s, refl)
  main_loop_total (suc fuel) s (line ∷ input) h = elim (Bool-cases (p.has_exited s)) [
    | inl e ↦ (s, ground (arith, e))
    | inr e ↦
        let r = process_line p s line input in
        let ih = main_loop_total fuel r.0 r.1 (omega (arith, length-process_line s line input)) in
        (ih.0, ground (arith, e, ih.1))
  ]
