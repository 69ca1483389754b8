-- ===== src/Shell/Block/Runs.antt =====
-- What every command keeps, the loop of the shell keeps.
use systemprogramming.Base.{
  ℕ, zero, suc, ◌-◌, ◌<◌, ◌≡◌, inl, inr, refl, arith, List, [], ◌∷◌, Option, none, some, length,
  drop, Bool-cases,
}
use systemprogramming.CString.{codes, strncpy}
use systemprogramming.Shell.Parse.{max_line, is_blank_line}
use systemprogramming.Shell.Exec.{Message, block_too_long, fi_missing, then_expected}
use systemprogramming.Shell.Block.{
  Program, Line, max_block_lines, first_token_is, Block, closed, overfull, open_ended, read_block,
  starts_with_if, run_lines, after_condition, run_if, after_block, handle_if_block, process_line,
  main_loop,
}
use systemprogramming.Shell.Block.Laws.{length-process_line}

-- A predicate that a command, a condition and a message keep.
pub record Keeps (p : Program) (P : p.State → Type 0) : Type 0 where
  pub line : (s : p.State) (l : Line) → P s → P (p.run_line s l)
  pub condition : (s : p.State) (l : Line) → P s → P (p.run_condition s l).0
  pub complaint : (s : p.State) (m : Message) → P s → P (p.complain m s)

module _ (p : Program) (P : p.State → Type 0) (k : Keeps p P) where
  open p use {State, has_exited}

  run_lines-Keeps : (s : State) (lines : List Line) → P s → P (run_lines p s lines)
  unfolding run_lines
  run_lines-Keeps s [] h = h
  run_lines-Keeps s (l ∷ lines) h = elim (Bool-cases (has_exited s)) [
    | inl e ↦ rw (e, run_lines) h
    | inr e ↦ rw (e, run_lines) (run_lines-Keeps (p.run_line s l) lines (k.line s l h))
  ]

  after_condition-Keeps :
      (s : State) (status : Option ℕ) (lines : List Line)
      → P s
      → P (after_condition p s status lines)
  unfolding after_condition
  after_condition-Keeps s (some zero) lines h = run_lines-Keeps s lines h
  after_condition-Keeps s (some (suc n)) lines h = h
  after_condition-Keeps s none lines h = h

  after_block-Keeps : (s : State) (l : Line) (b : Block) → P s → P (after_block p s l b).0
  unfolding after_block run_if
  after_block-Keeps s l (closed lines rest) h =
      let cond : Line = strncpy (max_line - 1) (drop 3 l) in
      after_condition-Keeps _ (p.run_condition s cond).1 lines (k.condition s cond h)
  after_block-Keeps s l (overfull rest) h = k.complaint s block_too_long h
  after_block-Keeps s l open_ended h = k.complaint s fi_missing h

  handle_if_block-Keeps :
      (s : State) (l : Line) (input : List Line) → P s → P (handle_if_block p s l input).0
  unfolding handle_if_block
  handle_if_block-Keeps s l [] h = k.complaint s then_expected h
  handle_if_block-Keeps s l (next ∷ input) h =
      elim (Bool-cases (first_token_is (codes "then") next)) [
        | inl e ↦
            rw (e, handle_if_block) (after_block-Keeps s l (read_block max_block_lines [] input) h)
        | inr e ↦ rw (e, handle_if_block) (k.complaint s then_expected h)
      ]

  process_line-Keeps :
      (s : State) (l : Line) (input : List Line) → P s → P (process_line p s l input).0
  unfolding process_line
  process_line-Keeps s l input h = elim (Bool-cases (is_blank_line l)) [
    | inl e ↦ rw (e, process_line) h
    | inr e ↦ elim (Bool-cases (starts_with_if l)) [
      | inl f ↦ rw (e, f, process_line) (handle_if_block-Keeps s l input h)
      | inr f ↦ rw (e, f, process_line) (k.line s l h)
    ]
  ]

  pub main_loop-Keeps :
      (fuel : ℕ) (s : State) (input : List Line)
      → length input < fuel
      → P s
      → (r : State) × (main_loop p fuel s input ≡ some r) × P r
  unfolding main_loop
  main_loop-Keeps zero s input enough h = elim enough [ ]
  main_loop-Keeps (suc fuel) s [] enough h = (s, refl, h)
  main_loop-Keeps (suc fuel) s (l ∷ input) enough h = elim (Bool-cases (has_exited s)) [
    | inl e ↦ (s, rw (e, main_loop) refl, h)
    | inr e ↦
        let r = process_line p s l input in
        let ih =
          main_loop-Keeps fuel r.0 r.1 (omega (arith, length-process_line p s l input))
            (process_line-Keeps s l input h) in
        (ih.0, rw (e, main_loop) ih.1, ih.2)
  ]
