-- ===== src/Snake/Draw.antt =====
-- lab5-lyjae/snake.c: what a round of the loop of `main` draws, and what stands on the screen behind it.
use systemprogramming.Base.{
  ℕ, zero, suc, ◌+◌, ◌-◌, ◌/◌, ◌≤◌, ◌<◌, ◌≡◌, refl, ap, ◌∙◌, arith, Bool, true, false, ◌&&◌, ◌||◌,
  ◌==◌, List, [], ◌∷◌, ◌++◌, if◌then◌else◌, get_or, length,
}
use systemprogramming.CString.{codes, decimal}
use systemprogramming.Curses.{
  Window, shown, shown-look, Put, mvaddch, is_between, look, look-append, mvprintw, look-mvprintw,
  look-mvprintw_above, border, on_border, look-border,
}
use systemprogramming.Snake.{Position, origin, Snake, width, height, same_place, hits_cell}

abbrev pub draw_border : List Put
draw_border = border width height

-- The loop of `draw_snake` for `n` cells from index `i` on.
unfoldable draw_cells : List Position → ℕ → ℕ → List Put
draw_cells cells zero i = []
draw_cells cells (suc n) i =
    let p = get_or cells i origin in mvaddch p.y p.x b'O' ∷ draw_cells cells n (i + 1)

abbrev pub draw_snake : Snake → List Put
unfolding draw_cells
draw_snake s = draw_cells s.cells s.snake_length 0

abbrev pub draw_food : Snake → List Put
draw_food s = mvaddch s.food.y s.food.x b'@' ∷ []

abbrev pub draw_status : ℕ → Snake → List Put
draw_status columns s =
    mvprintw columns height 0
      (codes "Score: " ++ (decimal s.score ++ (codes ", Length: " ++ decimal s.snake_length)))

abbrev pub quit_text : List ℕ
quit_text = codes "Are you sure you want to quit? (y/n): "

abbrev pub paused_text : List ℕ
paused_text = codes "== PAUSED =="

abbrev pub resume_text : List ℕ
resume_text = codes "Press 'p' or Ctrl+Z to resume"

-- Both texts are put in the middle of the row.
abbrev pub draw_pause : ℕ → List Put
draw_pause columns =
    mvprintw columns (height / 2) ((width - length paused_text) / 2) paused_text
    ++ mvprintw columns (height / 2 + 1) ((width - length resume_text) / 2) resume_text

-- All that a round draws behind `clear` in a window of so many columns, for the flag that `SIGINT` sets.
unfoldable pub frame : ℕ → Bool → Snake → List Put
frame columns interrupted s =
    draw_border
    ++ (draw_food s
        ++ (draw_snake s
            ++ (draw_status columns s
                ++ ((if interrupted then mvprintw columns (height + 1) 0 quit_text else [])
                    ++ (if s.paused then draw_pause columns else [])))))

abbrev pub place : ℕ → ℕ → Position
place r c = record { x = c; y = r }

look-draw_cells :
    (cells : List Position) (n i r c d : ℕ)
    → look (draw_cells cells n i) r c d ≡ (if hits_cell (place r c) cells n i then b'O' else d)
unfolding look draw_cells hits_cell same_place
look-draw_cells cells zero i r c d = refl
look-draw_cells cells (suc n) i r c d =
    let p : Position = get_or cells i origin in
    look-draw_cells cells n (i + 1) r c (if p.y == r && p.x == c then b'O' else d) ∙ ground arith

-- The places of the two texts of a pause.
unfoldable pub on_pause : ℕ → ℕ → Bool
on_pause r c = (r == 10 && is_between 14 12 c) || (r == 11 && is_between 5 29 c)

look-draw_pause :
    (columns r c d : ℕ)
    → width ≤ columns
    → on_pause r c ≡ false
    → look (draw_pause columns) r c d ≡ d
unfolding on_pause
look-draw_pause columns r c d wide h =
    look-append (mvprintw columns 10 14 paused_text) (mvprintw columns 11 5 resume_text) r c d
    ∙ look-mvprintw columns 11 5 resume_text r c (look (mvprintw columns 10 14 paused_text) r c d)
        (omega arith)
    ∙ ap (λ (e : ℕ). if 11 == r && is_between 5 29 c then get_or resume_text (c - 5) 0 else e)
        (look-mvprintw columns 10 14 paused_text r c d (omega arith))
    ∙ ground (arith, h)

-- What is on the board at a place, by what is drawn over what.
unfoldable pub board : Snake → ℕ → ℕ → ℕ
board s r c =
    if hits_cell (place r c) s.cells s.snake_length 0
    then b'O'
    else if same_place (place r c) s.food
    then b'@'
    else if on_border width height r c
    then b'#'
    else b' '

look-board :
    (s : Snake) (r c : ℕ)
    → r < height
    → c < width
    → look (draw_snake s) r c (look (draw_food s) r c (look draw_border r c b' ')) ≡ board s r c
unfolding board look same_place draw_snake draw_cells
look-board s r c hr hc =
    look-draw_cells s.cells s.snake_length 0 r c
      (if s.food.y == r && s.food.x == c then b'@' else look draw_border r c b' ')
    ∙ ap
        (λ (e : ℕ).
          if hits_cell (place r c) s.cells s.snake_length 0
          then b'O'
          else (if s.food.y == r && s.food.x == c then b'@' else e))
        (look-border width height r c b' ' hr hc)
    ∙ ground arith

look-asked :
    (b : Bool) (columns r c d : ℕ)
    → r < height
    → look (if b then mvprintw columns (height + 1) 0 quit_text else []) r c d ≡ d
unfolding look
look-asked true columns r c d h =
    look-mvprintw_above columns (height + 1) 0 quit_text r c d (omega arith)
look-asked false columns r c d h = refl

look-rested :
    (b : Bool) (columns r c d : ℕ)
    → width ≤ columns
    → (b && on_pause r c) ≡ false
    → look (if b then draw_pause columns else []) r c d ≡ d
unfolding look
look-rested true columns r c d wide h = look-draw_pause columns r c d wide h
look-rested false columns r c d wide h = refl

look-frame :
    (columns : ℕ) (interrupted : Bool) (s : Snake) (r c : ℕ)
    → width ≤ columns
    → r < height
    → c < width
    → (s.paused && on_pause r c) ≡ false
    → look (frame columns interrupted s) r c b' ' ≡ board s r c
unfolding frame
look-frame columns interrupted s r c wide hr hc free =
    let walls = draw_border in
    let status = draw_status columns s in
    let asked = if interrupted then mvprintw columns (height + 1) 0 quit_text else [] in
    let rested = if s.paused then draw_pause columns else [] in
    let shown = look (draw_snake s) r c (look (draw_food s) r c (look walls r c b' ')) in
    look-append walls (draw_food s ++ (draw_snake s ++ (status ++ (asked ++ rested)))) r c b' '
    ∙ look-append (draw_food s) (draw_snake s ++ (status ++ (asked ++ rested))) r c
        (look walls r c b' ')
    ∙ look-append (draw_snake s) (status ++ (asked ++ rested)) r c
        (look (draw_food s) r c (look walls r c b' '))
    ∙ look-append status (asked ++ rested) r c shown
    ∙ look-append asked rested r c (look status r c shown)
    ∙ look-rested s.paused columns r c (look asked r c (look status r c shown)) wide free
    ∙ look-asked interrupted columns r c (look status r c shown) hr
    ∙ look-mvprintw_above columns height 0
        (codes "Score: " ++ (decimal s.score ++ (codes ", Length: " ++ decimal s.snake_length))) r c
        shown hr
    ∙ look-board s r c hr hc

-- In a window of at least 20 rows and 40 columns, at every place of the board that the texts of a pause
-- do not cover, a round shows the snake, else the food, else the border, else a blank, whatever was on
-- the screen before, and whether or not the question of `SIGINT` is asked.
pub shown-frame :
    (w : Window) (before : w.Screen) (interrupted : Bool) (s : Snake) (r c : ℕ)
    → height ≤ w.rows
    → width ≤ w.columns
    → r < height
    → c < width
    → (s.paused && on_pause r c) ≡ false
    → shown w before (frame w.columns interrupted s) r c ≡ board s r c
shown-frame w before interrupted s r c tall wide hr hc free =
    shown-look w before (frame w.columns interrupted s) r c (omega arith) (omega arith)
    ∙ look-frame w.columns interrupted s r c wide hr hc free
