-- ===== src/Shell/Block/Simulation.antt =====
-- Two shells that do the same with each line of a script do the same with the whole script.
use systemprogramming.Base.{
  ℕ, zero, suc, ◌-◌, ◌<◌, ◌≡◌, refl, sym, ap, ◌∙◌, inl, inr, arith, true, false, List, [], ◌∷◌,
  ◌++◌, Option, none, some, length, drop, Bool-cases,
}
use mathlib.Core.Path.{subst}
use systemprogramming.CString.{codes, strncpy}
use systemprogramming.Shell.Parse.{max_line, is_blank_line}
use systemprogramming.Shell.Exec.{Message, block_too_long, fi_missing, then_expected}
use systemprogramming.Shell.Block.{
  Program, Line, max_block_lines, first_token_is, Block, closed, overfull, open_ended, read_block,
  starts_with_if, run_lines, after_condition, run_if, after_block, handle_if_block, process_line,
  main_loop,
}
use systemprogramming.Shell.Block.Laws.{length-process_line}

-- The condition of an `if` line.
abbrev pub condition_of : Line → Line
condition_of l = strncpy (max_line - 1) (drop 3 l)

-- Commands, conditions and messages that keep a relation, for the lines that are meant.
pub record Simulates (p q : Program) (R : p.State → q.State → Type 0) (Ok : Line → Type 0)
    : Type 0 where
  pub line :
      (s : p.State) (t : q.State) (l : Line) → Ok l → R s t → R (p.run_line s l) (q.run_line t l)
  pub condition :
      (s : p.State) (t : q.State) (l : Line)
      → Ok l
      → R s t
      → R (p.run_condition s l).0 (q.run_condition t l).0
        × ((p.run_condition s l).1 ≡ (q.run_condition t l).1)
  pub complaint :
      (s : p.State) (t : q.State) (m : Message) → R s t → R (p.complain m s) (q.complain m t)
  pub exited : (s : p.State) (t : q.State) → R s t → p.has_exited s ≡ q.has_exited t

-- Every line is meant, as a command and as the line of an `if`.
abbrev pub AllMeant : (Line → Type 0) → List Line → Type 0
AllMeant Ok [] = Unit
AllMeant Ok (l ∷ ls) = (Ok l × Ok (condition_of l)) × AllMeant Ok ls

AllMeant-append :
    (Ok : Line → Type 0) (ls : List Line) {l : Line}
    → AllMeant Ok ls
    → Ok l × Ok (condition_of l)
    → AllMeant Ok (ls ++ l ∷ [])
AllMeant-append Ok [] h e = (e, tt)
AllMeant-append Ok (k ∷ ls) h e = (h.0, AllMeant-append Ok ls h.1 e)

-- The lines of a block, and those behind it.
BlockMeant : (Line → Type 0) → Block → Type 0
BlockMeant Ok (closed lines rest) = AllMeant Ok lines × AllMeant Ok rest
BlockMeant Ok (overfull rest) = AllMeant Ok rest
BlockMeant Ok open_ended = Unit

read_block-BlockMeant :
    (Ok : Line → Type 0) (room : ℕ) (acc input : List Line)
    → AllMeant Ok acc
    → AllMeant Ok input
    → BlockMeant Ok (read_block room acc input)
unfolding read_block BlockMeant
read_block-BlockMeant Ok room acc [] a h = tt
read_block-BlockMeant Ok zero acc (l ∷ input) a h = elim (Bool-cases (is_blank_line l)) [
  | inl e ↦ rw (e, read_block) (read_block-BlockMeant Ok zero acc input a h.1)
  | inr e ↦ elim (Bool-cases (first_token_is (codes "fi") l)) [
    | inl f ↦ rw (e, f, read_block) (a, h.1)
    | inr f ↦ rw (e, f, read_block) h.1
  ]
]
read_block-BlockMeant Ok (suc room) acc (l ∷ input) a h = elim (Bool-cases (is_blank_line l)) [
  | inl e ↦ rw (e, read_block) (read_block-BlockMeant Ok (suc room) acc input a h.1)
  | inr e ↦ elim (Bool-cases (first_token_is (codes "fi") l)) [
    | inl f ↦ rw (e, f, read_block) (a, h.1)
    | inr f ↦
        rw (e, f, read_block)
          (read_block-BlockMeant Ok room (acc ++ l ∷ []) input (AllMeant-append Ok acc a h.0) h.1)
  ]
]

module _ (p q : Program) (R : p.State → q.State → Type 0) (Ok : Line → Type 0)
    (sim : Simulates p q R Ok) where
  run_lines-related :
      (s : p.State) (t : q.State) (lines : List Line)
      → AllMeant Ok lines
      → R s t
      → R (run_lines p s lines) (run_lines q t lines)
  unfolding run_lines
  run_lines-related s t [] a h = h
  run_lines-related s t (l ∷ lines) a h = elim (Bool-cases (p.has_exited s)) [
    | inl e ↦ let f : q.has_exited t ≡ true = sym (sim.exited s t h) ∙ e in rw (e, f, run_lines) h
    | inr e ↦
        let f : q.has_exited t ≡ false = sym (sim.exited s t h) ∙ e in
        rw (e, f, run_lines)
          (run_lines-related (p.run_line s l) (q.run_line t l) lines a.1 (sim.line s t l a.0.0 h))
  ]

  after_condition-related :
      (s : p.State) (t : q.State) (o : Option ℕ) (lines : List Line)
      → AllMeant Ok lines
      → R s t
      → R (after_condition p s o lines) (after_condition q t o lines)
  unfolding after_condition
  after_condition-related s t (some zero) lines a h = run_lines-related s t lines a h
  after_condition-related s t (some (suc n)) lines a h = h
  after_condition-related s t none lines a h = h

  -- Related states, with the same input left.
  abbrev Goes : p.State × List Line → q.State × List Line → Type 0
  Goes x y = R x.0 y.0 × (x.1 ≡ y.1) × AllMeant Ok x.1

  after_block-Goes :
      (s : p.State) (t : q.State) (l : Line) (b : Block)
      → Ok (condition_of l)
      → BlockMeant Ok b
      → R s t
      → Goes (after_block p s l b) (after_block q t l b)
  unfolding after_block run_if BlockMeant
  after_block-Goes s t l (closed lines rest) o b h =
      let c = sim.condition s t (condition_of l) o h in
      let status = (p.run_condition s (condition_of l)).1 in
      let first = (p.run_condition s (condition_of l)).0 in
      let second = (q.run_condition t (condition_of l)).0 in
      (
        subst (λ z. R (after_condition p first status lines) (after_condition q second z lines)) c.1
            (after_condition-related first second status lines b.0 c.0),
        refl,
        b.1,
      )
  after_block-Goes s t l (overfull rest) o b h = (sim.complaint s t block_too_long h, refl, b)
  after_block-Goes s t l open_ended o b h = (sim.complaint s t fi_missing h, refl, tt)

  handle_if_block-Goes :
      (s : p.State) (t : q.State) (l : Line) (input : List Line)
      → Ok (condition_of l)
      → AllMeant Ok input
      → R s t
      → Goes (handle_if_block p s l input) (handle_if_block q t l input)
  unfolding handle_if_block
  handle_if_block-Goes s t l [] o a h = (sim.complaint s t then_expected h, refl, tt)
  handle_if_block-Goes s t l (next ∷ input) o a h =
      elim (Bool-cases (first_token_is (codes "then") next)) [
        | inl e ↦
            rw (e, handle_if_block)
              (after_block-Goes s t l (read_block max_block_lines [] input) o
                (read_block-BlockMeant Ok max_block_lines [] input tt a.1) h)
        | inr e ↦ rw (e, handle_if_block) (sim.complaint s t then_expected h, refl, a.1)
      ]

  process_line-Goes :
      (s : p.State) (t : q.State) (l : Line) (input : List Line)
      → AllMeant Ok (l ∷ input)
      → R s t
      → Goes (process_line p s l input) (process_line q t l input)
  unfolding process_line
  process_line-Goes s t l input a h = elim (Bool-cases (is_blank_line l)) [
    | inl e ↦ rw (e, process_line) (h, refl, a.1)
    | inr e ↦ elim (Bool-cases (starts_with_if l)) [
      | inl f ↦ rw (e, f, process_line) (handle_if_block-Goes s t l input a.0.1 a.1 h)
      | inr f ↦ rw (e, f, process_line) (sim.line s t l a.0.0 h, refl, a.1)
    ]
  ]

  pub main_loop-related :
      (fuel : ℕ) (s : p.State) (t : q.State) (input : List Line)
      → length input < fuel
      → AllMeant Ok input
      → R s t
      → (x : p.State) × (y : q.State) × (main_loop p fuel s input ≡ some x)
        × (main_loop q fuel t input ≡ some y)
        × R x y
  unfolding main_loop
  main_loop-related zero s t input enough a h = elim enough [ ]
  main_loop-related (suc fuel) s t [] enough a h = (s, t, refl, refl, h)
  main_loop-related (suc fuel) s t (l ∷ input) enough a h = elim (Bool-cases (p.has_exited s)) [
    | inl e ↦
        let f : q.has_exited t ≡ true = sym (sim.exited s t h) ∙ e in
        (s, t, rw (e, main_loop) refl, rw (f, main_loop) refl, h)
    | inr e ↦
        let f : q.has_exited t ≡ false = sym (sim.exited s t h) ∙ e in
        let x = process_line p s l input in
        let y = process_line q t l input in
        let g = process_line-Goes s t l input a h in
        let ih =
          main_loop-related fuel x.0 y.0 x.1 (omega (arith, length-process_line p s l input)) g.2
            g.0 in
        (
          ih.0,
          ih.1,
          rw (e, main_loop) ih.2,
          rw (f, main_loop) (ap (main_loop q fuel y.0) (sym g.1) ∙ ih.3),
          ih.4,
        )
  ]
