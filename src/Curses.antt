-- ===== src/Curses.antt =====
-- What the programs of lab5-lyjae call of curses, as an interface, and what stands on the screen behind
-- a list of its calls; the border that two programs draw.
use systemprogramming.Base.{
  ℕ, zero, suc, ◌+◌, ◌-◌, ◌≤◌, ◌<◌, ◌≡◌, refl, ap, ◌∙◌, arith, Bool, false, ◌&&◌, ◌||◌, ◌==◌, leb,
  ltb, List, [], ◌∷◌, ◌++◌, if◌then◌else◌, length, get_or, dec_lt,
}

-- `mvaddch(row, col, char)`.
pub record Put : Type 0 where
  pub row : ℕ
  pub col : ℕ
  pub char : ℕ

abbrev pub mvaddch : ℕ → ℕ → ℕ → Put
mvaddch row col char = record { row = row; col = col; char = char }

abbrev pub is_at : Put → ℕ → ℕ → Bool
is_at p r c = p.row == r && p.col == c

-- The character at a place that had `d`: the last one that was put there.
unfoldable pub look : List Put → ℕ → ℕ → ℕ → ℕ
look [] r c d = d
look (p ∷ ps) r c d = look ps r c (if is_at p r c then p.char else d)

pub look-append :
    (ps qs : List Put) (r c d : ℕ) → look (ps ++ qs) r c d ≡ look qs r c (look ps r c d)
unfolding look
look-append [] qs r c d = refl
look-append (p ∷ ps) qs r c d = look-append ps qs r c (if is_at p r c then p.char else d)

-- What the programs use of a window: `clear`, `mvaddch` and what then is at a place, with what the
-- manual says of them. A `mvaddch` at a place outside has no effect.
pub record Window : Type 1 where
  pub Screen : Type 0
  pub rows : ℕ
  pub columns : ℕ
  pub clear : Screen → Screen
  pub put : Screen → Put → Screen
  pub inch : Screen → ℕ → ℕ → ℕ
  pub inch-clear : (s : Screen) (r c : ℕ) → r < rows → c < columns → inch (clear s) r c ≡ b' '
  pub inch-put :
      (s : Screen) (p : Put) (r c : ℕ)
      → r < rows
      → c < columns
      → inch (put s p) r c ≡ (if is_at p r c then p.char else inch s r c)

-- The calls in their order.
unfoldable pub draw_all : (w : Window) → List Put → w.Screen → w.Screen
draw_all w [] s = s
draw_all w (p ∷ ps) s = draw_all w ps (w.put s p)

-- What is at a place behind `clear` and the calls.
abbrev pub shown : (w : Window) → w.Screen → List Put → ℕ → ℕ → ℕ
shown w s ps r c = w.inch (draw_all w ps (w.clear s)) r c

inch-draw_all :
    (w : Window) (ps : List Put) (s : w.Screen) (r c : ℕ)
    → r < w.rows
    → c < w.columns
    → w.inch (draw_all w ps s) r c ≡ look ps r c (w.inch s r c)
unfolding draw_all look
inch-draw_all w [] s r c hr hc = refl
inch-draw_all w (p ∷ ps) s r c hr hc =
    inch-draw_all w ps (w.put s p) r c hr hc ∙ ap (look ps r c) (w.inch-put s p r c hr hc)

pub shown-look :
    (w : Window) (s : w.Screen) (ps : List Put) (r c : ℕ)
    → r < w.rows
    → c < w.columns
    → shown w s ps r c ≡ look ps r c b' '
shown-look w s ps r c hr hc =
    inch-draw_all w ps (w.clear s) r c hr hc ∙ ap (look ps r c) (w.inch-clear s r c hr hc)

-- `mvprintw(row, col, text)` in a window of so many columns: behind the last column a text goes on in
-- the next row.
unfoldable pub mvprintw : ℕ → ℕ → ℕ → List ℕ → List Put
mvprintw columns row col [] = []
mvprintw columns row col (b ∷ bs) =
    let ends = col + 1 == columns in
    mvaddch row col b
    ∷ mvprintw columns (if ends then row + 1 else row) (if ends then 0 else col + 1) bs

-- A place of a row between two columns.
abbrev pub is_between : ℕ → ℕ → ℕ → Bool
is_between low n c = leb low c && ltb c (low + n)

text_step :
    (row col n b r c d : ℕ) (bs : List ℕ)
    → (if row == r && is_between (col + 1) n c
        then get_or bs (c - (col + 1)) 0
        else (if row == r && col == c then b else d))
      ≡ (if row == r && is_between col (suc n) c then get_or (b ∷ bs) (c - col) 0 else d)
text_step row col n b r c d bs = elim (dec_lt col c) [
  | yes later ↦
      let further : c - col ≡ suc (c - (col + 1)) = omega (arith, later) in
      let next : get_or (b ∷ bs) (c - col) 0 ≡ get_or bs (c - (col + 1)) 0 =
        ap (λ k. get_or (b ∷ bs) k 0) further in
      ground (arith, later, next)
  | no first ↦
      let start : c - col ≡ 0 = omega (arith, first) in
      let here : get_or (b ∷ bs) (c - col) 0 ≡ b = ap (λ k. get_or (b ∷ bs) k 0) start in
      ground (arith, first, here)
]

-- A text that fits in its row is behind its first place, and nowhere else.
pub look-mvprintw :
    (columns row col : ℕ) (text : List ℕ) (r c d : ℕ)
    → col + length text ≤ columns
    → look (mvprintw columns row col text) r c d
      ≡ (if row == r && is_between col (length text) c then get_or text (c - col) 0 else d)
unfolding look mvprintw
look-mvprintw columns row col [] r c d h = ground arith
look-mvprintw columns row col (b ∷ []) r c d h = ground arith ∙ text_step row col 0 b r c d []
look-mvprintw columns row col (b ∷ b' ∷ bs) r c d h =
    let more : (col + 1 == columns) ≡ false = ground (arith, h) in
    rw more (
      look-mvprintw columns row (col + 1) (b' ∷ bs) r c (if row == r && col == c then b else d)
        (omega (arith, h))
      ∙ text_step row col (suc (length bs)) b r c d (b' ∷ bs))

-- A text leaves the rows above it alone.
pub look-mvprintw_above :
    (columns row col : ℕ) (text : List ℕ) (r c d : ℕ)
    → r < row
    → look (mvprintw columns row col text) r c d ≡ d
unfolding look mvprintw
look-mvprintw_above columns row col [] r c d h = refl
look-mvprintw_above columns row col (b ∷ bs) r c d h =
    let ends : Bool = col + 1 == columns in
    let row' : ℕ = if ends then row + 1 else row in
    look-mvprintw_above columns row' (if ends then 0 else col + 1) bs r c
      (if row == r && col == c then b else d) (ground (arith, h))
    ∙ ground (arith, h)

-- The loop over the columns of a border, then the loop over its rows.
unfoldable pub border_columns : ℕ → ℕ → ℕ → List Put
border_columns height zero i = []
border_columns height (suc n) i =
    mvaddch 0 i b'#' ∷ mvaddch (height - 1) i b'#' ∷ border_columns height n (i + 1)

unfoldable pub border_rows : ℕ → ℕ → ℕ → List Put
border_rows width zero i = []
border_rows width (suc n) i =
    mvaddch i 0 b'#' ∷ mvaddch i (width - 1) b'#' ∷ border_rows width n (i + 1)

unfoldable pub border : ℕ → ℕ → List Put
unfolding border_columns border_rows
border width height = border_columns height width 0 ++ border_rows width height 0

look-border_columns :
    (height n i r c d : ℕ)
    → look (border_columns height n i) r c d
      ≡ (if (r == 0 || r == height - 1) && is_between i n c then b'#' else d)
unfolding look border_columns
look-border_columns height zero i r c d = ground arith
look-border_columns height (suc n) i r c d =
    look-border_columns height n (i + 1) r c
      (if height - 1 == r && i == c then b'#' else (if 0 == r && i == c then b'#' else d))
    ∙ ground arith

look-border_rows :
    (width n i r c d : ℕ)
    → look (border_rows width n i) r c d
      ≡ (if (c == 0 || c == width - 1) && is_between i n r then b'#' else d)
unfolding look border_rows
look-border_rows width zero i r c d = ground arith
look-border_rows width (suc n) i r c d =
    look-border_rows width n (i + 1) r c
      (if i == r && width - 1 == c then b'#' else (if i == r && 0 == c then b'#' else d))
    ∙ ground arith

-- The first and the last row and column.
abbrev pub on_border : ℕ → ℕ → ℕ → ℕ → Bool
on_border width height r c = r == 0 || r == height - 1 || c == 0 || c == width - 1

-- Inside the window the loops draw exactly the border.
pub look-border :
    (width height r c d : ℕ)
    → r < height
    → c < width
    → look (border width height) r c d ≡ (if on_border width height r c then b'#' else d)
unfolding border
look-border width height r c d hr hc =
    look-append (border_columns height width 0) (border_rows width height 0) r c d
    ∙ look-border_rows width height 0 r c (look (border_columns height width 0) r c d)
    ∙ ap (λ (e : ℕ). if (c == 0 || c == width - 1) && is_between 0 height r then b'#' else e)
        (look-border_columns height width 0 r c d)
    ∙ ground (arith, hr, hc)

-- A window as a function of the place.
abbrev pub plain_window : ℕ → ℕ → Window
plain_window rows columns = record {
  Screen = ℕ → ℕ → ℕ;
  rows = rows;
  columns = columns;
  clear = λ s r c. b' ';
  put = λ s p r c. if is_at p r c then p.char else s r c;
  inch = λ s r c. s r c;
  inch-clear = λ s r c hr hc. refl;
  inch-put = λ s p r c hr hc. refl;
}
