-- ===== src/Terminal/Tests.antt =====
-- The terminal programs at concrete inputs.
use systemprogramming.Base.{
  ℕ, refl, replicate, ◌≤◌, ◌<◌, ◌≡◌, arith, true, [], ◌∷◌, ◌++◌, some, length, take,
}
use systemprogramming.Curses.{shown, plain_window}
use systemprogramming.CString.{codes, decimal}
use systemprogramming.Terminal.Walls.{draw, view, shown-draw}
use systemprogramming.Terminal.Echo.{cells, line_after, prompt_text, shown-cells}
use mathlib.Core.List.{flatten}
use systemprogramming.Terminal.Move
use systemprogramming.Terminal.Editor
use systemprogramming.Terminal.Typer
use systemprogramming.Terminal.Password
use systemprogramming.Terminal.Move.{
  Screen, start_screen, resized, pressed, IsInside, start-IsInside,
}
use systemprogramming.Terminal.Editor.{typed, alarm, interrupt, run, put_lines, interrupt-saves}
use systemprogramming.Terminal.Typer.{type_text, matches, typer-counts}
use systemprogramming.Terminal.Password.{read_password, read_password-typed}

-- Up, left, and a window that gets smaller.
start-IsInside_example :
    IsInside (Move.run (pressed b'w' ∷ pressed b'a' ∷ resized 8 4 ∷ []) (start_screen 80 24))
start-IsInside_example =
    start-IsInside 80 24 (pressed b'w' ∷ pressed b'a' ∷ resized 8 4 ∷ []) (omega arith)
      (omega arith) (omega arith, omega arith, tt)

interrupt-saves_example :
    (run
      ((typed (codes "a") ∷ alarm true ∷ typed (codes "b") ∷ []) ++ interrupt true ∷ [])
      Editor.started).file
    ≡ some (flatten (take 100 (codes "a" ∷ codes "b" ∷ [])))
interrupt-saves_example =
    interrupt-saves (typed (codes "a") ∷ alarm true ∷ typed (codes "b") ∷ []) [] tt

-- A wrong character, a backspace and the right ones.
typer-counts_example :
    let s = type_text (codes "hi") (codes "x" ++ 127 ∷ codes "hi") Typer.started in
    (s.typed_count ≡ s.idx)
    × (s.correct ≡ matches s.user_input (codes "hi") s.idx)
    × (s.correct ≤ s.typed_count)
typer-counts_example = typer-counts (codes "hi") (codes "x" ++ 127 ∷ codes "hi") (omega arith)

read_password-typed_example :
    let s = read_password (codes "ab" ++ 127 ∷ 10 ∷ []) Password.started in
    (take s.index s.password ≡ Password.typed (codes "ab" ++ 127 ∷ 10 ∷ []) [])
    × (s.index < length s.password)
read_password-typed_example = read_password-typed (codes "ab" ++ 127 ∷ 10 ∷ [])

abbrev hidden : Screen
hidden = record { x = 10; y = 2; max_x = 80; max_y = 24 }

shown-draw_example : shown (plain_window 24 80) (λ r c. 0) (draw hidden) 2 10 ≡ view hidden 2 10
unfolding decimal
shown-draw_example =
    shown-draw (plain_window 24 80) (λ r c. 0) hidden 2 10 refl refl (omega arith) (omega arith)
      (omega arith) (omega arith)

-- The cursor is at row 2 and column 10, and the letter A of the help is there.
help_hides : view hidden 2 10 ≡ b'A'
unfolding view
help_hides = refl

-- Two characters, a backspace and the end of the line.
shown-cells_example :
    ((k : ℕ) × (cells (line_after (b'a' ∷ b'b' ∷ 127 ∷ 10 ∷ []))
        ≡ prompt_text ++ (b'*' ∷ [] ++ replicate k b' ')))
    × (length (line_after (b'a' ∷ b'b' ∷ 127 ∷ 10 ∷ [])).left ≡ 22)
shown-cells_example = shown-cells (b'a' ∷ b'b' ∷ 127 ∷ 10 ∷ [])
