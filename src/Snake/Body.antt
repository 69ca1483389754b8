-- ===== src/Snake/Body.antt =====
-- lab5-lyjae/snake.c: `move_snake` over the array implements a move of a list of cells.
use systemprogramming.Base.{
  ℕ, zero, suc, ◌+◌, ◌-◌, ◌≤◌, ◌<◌, ◌≡◌, refl, sym, ap, ap₂, ◌∙◌, arith, Bool, true, false, ◌||◌,
  ltb, List, [], ◌∷◌, ◌++◌, if◌then◌else◌, length, take, drop, length-take, Bool-cases, inl, inr,
}
use systemprogramming.Snake.{
  Position, origin, Direction, Snake, max_len, place_food, step_head, hits_wall, same_place,
  hits_cell, moved_cells, eat, move_snake,
}
use systemprogramming.Snake.Shift.{cell, IsMoved, moved_cells-IsMoved}
use systemprogramming.Snake.Game.{Inv}
use systemprogramming.Snake.Cells.{same_cells, cell-take, take-next, drop-cell, take-nil}

-- The game without its array: the cells of the snake, the head first.
pub record Game : Type 0 where
  pub body : List Position
  pub dir : Direction
  pub food : Position
  pub game_over : Bool
  pub score : ℕ
  pub paused : Bool

abbrev pub game_of : Snake → Game
game_of s = record {
  body = take s.snake_length s.cells;
  dir = s.dir;
  food = s.food;
  game_over = s.game_over;
  score = s.score;
  paused = s.paused;
}

abbrev pub first : List Position → Position
first [] = origin
first (p ∷ ps) = p

abbrev pub tail : List Position → List Position
tail [] = []
tail (p ∷ ps) = ps

abbrev pub contains : Position → List Position → Bool
contains p [] = false
contains p (q ∷ qs) = same_place p q || contains p qs

-- A new head, and all the cells but the last.
abbrev pub step_body : Direction → List Position → List Position
step_body d body = step_head d (first body) ∷ take (length body - 1) body

-- A move: it ends the game on the border or on the rest of the snake; on the food it adds a cell at
-- (0, 0) if there is room, counts and puts the food elsewhere.
unfoldable pub move : ℕ → ℕ → Game → Game
move r1 r2 g =
    let body = step_body g.dir g.body in
    if hits_wall (first body) || contains (first body) (tail body)
    then record g { body = body; game_over = true }
    else if same_place (first body) g.food
    then record g {
      body = if ltb (length g.body) max_len then body ++ (origin ∷ []) else body;
      food = place_food r1 r2;
      score = g.score + 1;
    }
    else record g { body = body }

first-take : (n : ℕ) (xs : List Position) → 0 < n → first (take n xs) ≡ cell xs 0
first-take zero xs h = absurd (omega arith)
first-take (suc n) [] h = refl
first-take (suc n) (x ∷ xs) h = refl

hits_cell-contains :
    (p : Position) (cells : List Position) (n i : ℕ)
    → i + n ≤ length cells
    → hits_cell p cells n i ≡ contains p (take n (drop i cells))
unfolding hits_cell
hits_cell-contains p cells zero i h = refl
hits_cell-contains p cells (suc n) i h =
    ap (λ b. same_place p (cell cells i) || b) (hits_cell-contains p cells n (i + 1) (omega arith))
    ∙ ap (λ t. contains p (take (suc n) t)) (sym (drop-cell i cells (omega arith)))

tail-take : (n : ℕ) (xs : List Position) → take (n - 1) (drop 1 xs) ≡ tail (take n xs)
tail-take zero xs = refl
tail-take (suc n) [] = take-nil (suc n - 1)
tail-take (suc n) (x ∷ xs) = let e : suc n - 1 ≡ n = omega arith in rw e refl

module _ {s : Snake} (inv : Inv s) where
  moved : IsMoved s (moved_cells s)
  moved = moved_cells-IsMoved s (omega (arith, inv.long)) (omega (arith, inv.fits, inv.room))

  fits_in : s.snake_length ≤ length s.cells
  fits_in = omega (arith, inv.fits, inv.room)

  length-body : length (take s.snake_length s.cells) ≡ s.snake_length
  length-body = omega (arith, length-take s.snake_length s.cells, fits_in)

  body_at :
      (j : ℕ)
      → j < s.snake_length
      → cell (take s.snake_length (moved_cells s)) j
        ≡ cell (step_body s.dir (take s.snake_length s.cells)) j
  body_at zero h =
      cell-take s.snake_length (moved_cells s) 0 h
      ∙ moved.head
      ∙ ap (step_head s.dir) (sym (first-take s.snake_length s.cells h))
  body_at (suc j) h =
      let old : List Position = take s.snake_length s.cells in
      cell-take s.snake_length (moved_cells s) (suc j) h
      ∙ moved.body j h
      ∙ sym (cell-take s.snake_length s.cells j (omega arith))
      ∙ sym (cell-take (length old - 1) old j (omega (arith, length-body)))

  body-moved_cells :
      take s.snake_length (moved_cells s) ≡ step_body s.dir (take s.snake_length s.cells)
  body-moved_cells =
      let n : ℕ = s.snake_length in
      let old : List Position = take n s.cells in
      let front : first old ≡ cell s.cells 0 = first-take n s.cells (omega (arith, inv.long)) in
      let long_new : length (take n (moved_cells s)) ≡ n =
        omega (arith, length-take n (moved_cells s), moved.room, fits_in) in
      let long_rest : length (take (length old - 1) old) ≡ n - 1 =
        omega (arith, length-take (length old - 1) old, length-body) in
      same_cells (take n (moved_cells s)) (step_body s.dir old)
        (omega (arith, inv.long, long_new, long_rest))
        (λ j lt. body_at j (omega (arith, lt, long_new)))

  abbrev head : Position
  head = cell (moved_cells s) 0

  head-step : head ≡ first (step_body s.dir (take s.snake_length s.cells))
  head-step =
      sym (first-take s.snake_length (moved_cells s) (omega (arith, inv.long)))
      ∙ ap first body-moved_cells

  hits-contains :
      hits_cell head (moved_cells s) (s.snake_length - 1) 1
      ≡ contains head (tail (step_body s.dir (take s.snake_length s.cells)))
  hits-contains =
      hits_cell-contains head (moved_cells s) (s.snake_length - 1) 1
        (omega (arith, inv.long, moved.room, fits_in))
      ∙ ap (contains head) (tail-take s.snake_length (moved_cells s) ∙ ap tail body-moved_cells)

  abbrev crashes : Bool
  crashes = hits_wall head || hits_cell head (moved_cells s) (s.snake_length - 1) 1

  abbrev new_body : List Position
  new_body = step_body s.dir (take s.snake_length s.cells)

  crashes-first :
      crashes ≡ (hits_wall (first new_body) || contains (first new_body) (tail new_body))
  crashes-first =
      ap (λ b. hits_wall head || b) hits-contains
      ∙ ap (λ (p : Position). hits_wall p || contains p (tail new_body)) head-step

  eats-first : same_place head s.food ≡ same_place (first new_body) s.food
  eats-first = ap (λ (p : Position). same_place p s.food) head-step

  -- The array behind a move that ate.
  grown :
      s.snake_length < max_len
      → take (s.snake_length + 1) (moved_cells s) ≡ new_body ++ (origin ∷ [])
  grown room =
      take-next s.snake_length (moved_cells s) (omega (arith, moved.room, inv.room))
      ∙ ap₂ (λ (b : List Position) (p : Position). b ++ (p ∷ [])) body-moved_cells
          (moved.rest s.snake_length (omega arith) ∙ inv.unused s.snake_length (omega arith))

  eat-move :
      (r1 r2 : ℕ)
      → game_of (eat r1 r2 (record s { cells = moved_cells s })) ≡ record (game_of s) {
        body =
            if ltb (length (take s.snake_length s.cells)) max_len
            then new_body ++ (origin ∷ [])
            else new_body;
        food = place_food r1 r2;
        score = s.score + 1;
      }
  unfolding eat
  eat-move r1 r2 =
      let same : ltb (length (take s.snake_length s.cells)) max_len ≡ ltb s.snake_length max_len =
        ap (λ n. ltb n max_len) length-body in
      elim (Bool-cases (ltb s.snake_length max_len)) [
        | inl e ↦
            rw (same ∙ e, e)
              (ap
                (λ (b : List Position). record (game_of s) {
                  body = b;
                  food = place_food r1 r2;
                  score = s.score + 1;
                })
                (grown (ground (arith, e))))
        | inr e ↦
            rw (same ∙ e, e)
              (ap
                (λ (b : List Position). record (game_of s) {
                  body = b;
                  food = place_food r1 r2;
                  score = s.score + 1;
                })
                body-moved_cells)
      ]

  -- In a state with the invariant of the game, the move of the array is, on every branch, the move of
  -- the list of its cells: a new head, all the cells behind it but the last, and a cell more on food.
  pub move_snake-move : (r1 r2 : ℕ) → game_of (move_snake r1 r2 s) ≡ move r1 r2 (game_of s)
  unfolding move_snake move
  move_snake-move r1 r2 = elim (Bool-cases crashes) [
    | inl e ↦
        rw (e, sym crashes-first ∙ e)
          (ap (λ (b : List Position). record (game_of s) { body = b; game_over = true })
            body-moved_cells)
    | inr e ↦ elim (Bool-cases (same_place head s.food)) [
      | inl f ↦ rw (e, sym crashes-first ∙ e, f, sym eats-first ∙ f) (eat-move r1 r2)
      | inr f ↦
          rw (e, sym crashes-first ∙ e, f, sym eats-first ∙ f)
            (ap (λ (b : List Position). record (game_of s) { body = b }) body-moved_cells)
    ]
  ]
