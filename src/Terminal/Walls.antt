-- ===== src/Terminal/Walls.antt =====
-- lab5-lyjae/move.c: what a round of the loop of `main` draws. Curses goes on in the next row with a
-- text that reaches the right border, so the theorem asks for a window that is wide enough for both.
use systemprogramming.Base.{
  ℕ, ◌+◌, ◌-◌, ◌≤◌, ◌<◌, ◌≡◌, ap, ◌∙◌, arith, ◌&&◌, ◌==◌, List, [], ◌∷◌, ◌++◌, if◌then◌else◌,
  get_or, length,
}
use systemprogramming.CString.{codes, decimal}
use systemprogramming.Curses.{
  Window, shown, shown-look, Put, mvaddch, is_between, look, look-append, mvprintw, look-mvprintw,
  border, on_border, look-border,
}
use systemprogramming.Terminal.Move.{Screen}

abbrev pub draw_walls : Screen → List Put
draw_walls s = border s.max_x s.max_y

abbrev pub position_text : Screen → List ℕ
position_text s =
    codes "Current Position: ("
    ++ decimal s.y
    ++ codes ", "
    ++ decimal s.x
    ++ codes "), Window: ("
    ++ decimal s.max_y
    ++ codes ", "
    ++ decimal s.max_x
    ++ codes ")"

abbrev pub help_text : List ℕ
help_text = codes "Press W/A/S/D to move. Press 'q' to quit."

-- All that a round draws behind `clear`.
unfoldable pub draw : Screen → List Put
draw s =
    draw_walls s
    ++ ((mvaddch s.y s.x b'@' ∷ [])
        ++ (mvprintw s.max_x 1 2 (position_text s) ++ mvprintw s.max_x 2 2 help_text))

-- At a place: the help, else the position, else the cursor, else the
-- wall, else a blank.
unfoldable pub view : Screen → ℕ → ℕ → ℕ
view s r c =
    if r == 2 && is_between 2 (length help_text) c
    then get_or help_text (c - 2) 0
    else if r == 1 && is_between 2 (length (position_text s)) c
    then get_or (position_text s) (c - 2) 0
    else if s.y == r && s.x == c
    then b'@'
    else if on_border s.max_x s.max_y r c
    then b'#'
    else b' '

look-draw :
    (s : Screen) (r c : ℕ)
    → r < s.max_y
    → c < s.max_x
    → 2 + length (position_text s) ≤ s.max_x
    → 2 + length help_text ≤ s.max_x
    → look (draw s) r c b' ' ≡ view s r c
unfolding draw look view
look-draw s r c hr hc wide_position wide_help =
    let text : List ℕ = position_text s in
    let texts : List Put = mvprintw s.max_x 1 2 text ++ mvprintw s.max_x 2 2 help_text in
    let under : ℕ = look (draw_walls s) r c b' ' in
    let at : ℕ = if s.y == r && s.x == c then b'@' else under in
    look-append (draw_walls s) ((mvaddch s.y s.x b'@' ∷ []) ++ texts) r c b' '
    ∙ look-append (mvprintw s.max_x 1 2 text) (mvprintw s.max_x 2 2 help_text) r c at
    ∙ look-mvprintw s.max_x 2 2 help_text r c (look (mvprintw s.max_x 1 2 text) r c at) wide_help
    ∙ ap
        (λ (e : ℕ).
          if 2 == r && is_between 2 (length help_text) c then get_or help_text (c - 2) 0 else e)
        (look-mvprintw s.max_x 1 2 text r c at wide_position)
    ∙ ap
        (λ (e : ℕ).
          if 2 == r && is_between 2 (length help_text) c
          then get_or help_text (c - 2) 0
          else (if 1 == r && is_between 2 (length text) c
              then get_or text (c - 2) 0
              else (if s.y == r && s.x == c then b'@' else e)))
        (look-border s.max_x s.max_y r c b' ' hr hc)
    ∙ ground arith

-- In a window of the size that the program knows and that both lines fit in, a round shows at each
-- place the help, else the position, else the cursor, else the wall, else a blank: in the rows 1 and 2
-- the lines hide the cursor.
pub shown-draw :
    (w : Window) (before : w.Screen) (s : Screen) (r c : ℕ)
    → w.rows ≡ s.max_y
    → w.columns ≡ s.max_x
    → r < s.max_y
    → c < s.max_x
    → 2 + length (position_text s) ≤ s.max_x
    → 2 + length help_text ≤ s.max_x
    → shown w before (draw s) r c ≡ view s r c
shown-draw w before s r c tall wide hr hc fits_position fits_help =
    shown-look w before (draw s) r c (omega arith) (omega arith)
    ∙ look-draw s r c hr hc fits_position fits_help
