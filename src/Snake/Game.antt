-- ===== src/Snake/Game.antt =====
-- The invariant of the game, over moves, keys and whole games.
use systemprogramming.Base.{
  ℕ, zero, suc, ◌+◌, ◌-◌, ◌≤◌, ◌<◌, ◌≡◌, ◌≢◌, sym, ap, ◌∙◌, arith, Bool, true, false, ◌||◌, ltb,
  List, [], ◌∷◌, Bool-cases, Option-cases, some, length, inl, inr, dec_lt,
}
use Prim.Native.Nat.{min}
use mathlib.Core.Path.{subst}
use systemprogramming.Snake.{
  Position, origin, Direction, up, down, left, right, Snake, max_len, width, height, hits_wall,
  same_place, hits_cell, moved_cells, eat, move_snake, handle_input, turn_to, Input, handle_sigtstp,
  advance, play, round, rounds, place_food,
}
use systemprogramming.Snake.Shift.{cell, IsMoved, moved_cells-IsMoved, hits_cell-ne}

-- Inside the border.
pub record IsInside (p : Position) : Type 0 where
  pub left_of : 0 < p.x
  pub right_of : p.x < width - 1
  pub above : 0 < p.y
  pub under : p.y < height - 1

pub record Inv (s : Snake) : Type 0 where
  pub room : length s.cells ≡ max_len
  pub long : 5 ≤ s.snake_length
  pub fits : s.snake_length ≤ max_len
  pub food_in : IsInside s.food
  pub scored : s.snake_length ≡ min max_len (5 + s.score)
  pub unused : (j : ℕ) → s.snake_length ≤ j → cell s.cells j ≡ origin
  pub inside : s.game_over ≡ false → (j : ℕ) → suc j < s.snake_length → IsInside (cell s.cells j)
  pub apart :
      s.game_over ≡ false → (i j : ℕ) → i < j → j < s.snake_length → cell s.cells i ≢ cell s.cells j

IsInside-not_wall : (p : Position) → hits_wall p ≡ false → IsInside p
unfolding hits_wall
IsInside-not_wall p h = ground arith

IsInside-ne-origin : (p : Position) → IsInside p → p ≢ origin
IsInside-ne-origin p h e = ground (arith, h, e)

place_food-IsInside : (r1 r2 : ℕ) → IsInside (place_food r1 r2)
place_food-IsInside r1 r2 = omega arith

module _ {s : Snake} (inv : Inv s) (running : s.game_over ≡ false) where
  moved : IsMoved s (moved_cells s)
  moved = moved_cells-IsMoved s (omega (arith, inv.long)) (omega (arith, inv.fits, inv.room))

  abbrev head : Position
  head = cell (moved_cells s) 0

  -- The body after a move that the game survives.
  module _ (free : hits_wall head ≡ false)
      (alone : hits_cell head (moved_cells s) (s.snake_length - 1) 1 ≡ false) where
    moved-IsInside : (j : ℕ) → j < s.snake_length → IsInside (cell (moved_cells s) j)
    moved-IsInside zero h = IsInside-not_wall head free
    moved-IsInside (suc j) h = rw (moved.body j h) (inv.inside running j h)

    moved_apart :
        (i j : ℕ) → i < j → j < s.snake_length → cell (moved_cells s) i ≢ cell (moved_cells s) j
    moved_apart i zero lt h e = omega arith
    moved_apart zero (suc j) lt h e =
        hits_cell-ne head (moved_cells s) (s.snake_length - 1) 1 j alone (omega arith)
          (ap (cell (moved_cells s)) (omega arith) ∙ sym e)
    moved_apart (suc i) (suc j) lt h e =
        inv.apart running i j (omega arith) (omega arith)
          (sym (moved.body i (omega arith)) ∙ e ∙ moved.body j h)

    grown_apart :
        (i j : ℕ) → i < j → j < s.snake_length + 1 → cell (moved_cells s) i ≢ cell (moved_cells s) j
    grown_apart i j lt h e = elim (dec_lt j s.snake_length) [
      | yes old ↦ moved_apart i j lt old e
      | no new ↦
          IsInside-ne-origin (cell (moved_cells s) i) (moved-IsInside i (omega arith))
            (e ∙ moved.rest j (omega arith) ∙ inv.unused j (omega arith))
    ]

  unused_moved : (j : ℕ) → s.snake_length ≤ j → cell (moved_cells s) j ≡ origin
  unused_moved j h = moved.rest j h ∙ inv.unused j h

  crash-Inv : Inv (record s { cells = moved_cells s; game_over = true })
  crash-Inv = record {
    room = moved.room ∙ inv.room;
    long = inv.long;
    fits = inv.fits;
    food_in = inv.food_in;
    scored = inv.scored;
    unused = unused_moved;
    inside = λ e. cc;
    apart = λ e. cc;
  }

  module _ (free : hits_wall head ≡ false)
      (alone : hits_cell head (moved_cells s) (s.snake_length - 1) 1 ≡ false) where
    walk-Inv : Inv (record s { cells = moved_cells s })
    walk-Inv = record {
      room = moved.room ∙ inv.room;
      long = inv.long;
      fits = inv.fits;
      food_in = inv.food_in;
      scored = inv.scored;
      unused = unused_moved;
      inside = λ e j h. moved-IsInside free alone j (omega arith);
      apart = λ e. moved_apart free alone;
    }

    eat-Inv : (r1 r2 : ℕ) → Inv (eat r1 r2 (record s { cells = moved_cells s }))
    unfolding eat
    eat-Inv r1 r2 = elim (Bool-cases (ltb s.snake_length max_len)) [
      | inl more ↦ rw more (record {
        room = moved.room ∙ inv.room;
        long = omega (arith, inv.long);
        fits = ground (arith, more);
        food_in = place_food-IsInside r1 r2;
        scored = ground (arith, more, inv.scored);
        unused = λ j h. unused_moved j (omega arith);
        inside = λ e j h. moved-IsInside free alone j (omega arith);
        apart = λ e. grown_apart free alone;
      })
      | inr full ↦ rw full (record {
        room = moved.room ∙ inv.room;
        long = inv.long;
        fits = inv.fits;
        food_in = place_food-IsInside r1 r2;
        scored = ground (arith, full, inv.scored, inv.fits);
        unused = unused_moved;
        inside = λ e j h. moved-IsInside free alone j (omega arith);
        apart = λ e. moved_apart free alone;
      })
    ]

  -- A move of a game that is not over keeps the invariant: the array and the food stay in their
  -- bounds, the length is 5 plus the score up to 300, and unless the game is over no two cells of
  -- the snake are at one place and all but the last are inside the border.
  pub move_snake-Inv : (r1 r2 : ℕ) → Inv (move_snake r1 r2 s)
  unfolding move_snake
  move_snake-Inv r1 r2 =
      elim (Bool-cases (hits_wall head || hits_cell head (moved_cells s) (s.snake_length - 1) 1)) [
        | inl crash ↦ rw crash crash-Inv
        | inr on ↦ elim (Bool-cases (same_place head s.food)) [
          | inl ate ↦ rw (on, ate) (eat-Inv (ground (arith, on)) (ground (arith, on)) r1 r2)
          | inr hungry ↦ rw (on, hungry) (walk-Inv (ground (arith, on)) (ground (arith, on)))
        ]
      ]

-- A change of the direction and of the pause only.
same_board :
    {s t : Snake}
    → (t.cells ≡ s.cells)
      × (t.snake_length ≡ s.snake_length)
      × (t.food ≡ s.food)
      × (t.game_over ≡ s.game_over)
      × (t.score ≡ s.score)
    → Inv s
    → Inv t
same_board {s} {t} e inv = record {
  room = rw (e.0) inv.room;
  long = rw (e.1) inv.long;
  fits = rw (e.1) inv.fits;
  food_in = rw (e.2) inv.food_in;
  scored = rw (e.1, e.4) inv.scored;
  unused = rw (e.0, e.1) inv.unused;
  inside = rw (e.0, e.1, e.3) inv.inside;
  apart = rw (e.0, e.1, e.3) inv.apart;
}

pub record SameBoard (s t : Snake) : Type 0 where
  cells : t.cells ≡ s.cells
  long : t.snake_length ≡ s.snake_length
  food : t.food ≡ s.food
  over : t.game_over ≡ s.game_over
  score : t.score ≡ s.score

pub handle_input-SameBoard : (ch : ℕ) (s : Snake) → SameBoard s (handle_input ch s)
unfolding handle_input
handle_input-SameBoard ch s = ground arith

pub SameBoard-Inv : {s t : Snake} → SameBoard s t → Inv s → Inv t
SameBoard-Inv b inv = same_board (b.cells, b.long, b.food, b.over, b.score) inv

advance-Inv : (b : Bool) (i : Input) {s : Snake} → s.game_over ≡ false → Inv s → Inv (advance b i s)
unfolding advance
advance-Inv true i {s} running inv = SameBoard-Inv {s = s} (ground arith) inv
advance-Inv false i {s} running inv =
    let same = handle_input-SameBoard i.key s in
    move_snake-Inv (SameBoard-Inv same inv) (same.over ∙ running) i.rand1 i.rand2

play-Inv : (i : Input) {s : Snake} → s.game_over ≡ false → Inv s → Inv (play i s)
unfolding play
play-Inv i {s} = advance-Inv s.paused i

pub handle_sigtstp-SameBoard : (b : Bool) (s : Snake) → SameBoard s (handle_sigtstp b s)
unfolding handle_sigtstp
handle_sigtstp-SameBoard true s = ground arith
handle_sigtstp-SameBoard false s = ground arith

pub round-Inv : (i : Input) {s t : Snake} → s.game_over ≡ false → Inv s → round i s ≡ some t → Inv t
unfolding round
round-Inv i {s} {t} running inv h =
    let same = handle_sigtstp-SameBoard i.suspended s in
    let e : play i (handle_sigtstp i.suspended s) ≡ t = ground (arith, h) in
    subst Inv e (play-Inv i (same.over ∙ running) (SameBoard-Inv same inv))

-- Whatever the keys, the signals and the values of `rand`, a game that is not ended by the user keeps
-- the invariant, from any state that has it.
pub rounds-Inv : (is : List Input) {s t : Snake} → Inv s → rounds is s ≡ some t → Inv t
unfolding rounds
rounds-Inv [] {s} {t} inv h = let e : s ≡ t = ground (arith, h) in subst Inv e inv
rounds-Inv (i ∷ is) {s} {t} inv h = elim (Bool-cases s.game_over) [
  | inl over ↦ let e : s ≡ t = ground (arith, over, h) in subst Inv e inv
  | inr running ↦ elim (Option-cases (round i s)) [
    | inl stop ↦ absurd (ground (arith, running, stop, h))
    | inr (s', e) ↦ rounds-Inv is (round-Inv i running inv e) (ground (arith, running, e, h))
  ]
]

-- The direction back.
abbrev pub opposite : Direction → Direction
opposite up = down
opposite down = up
opposite left = right
opposite right = left

-- No key turns the snake back: the direction after an input is never the opposite of the one before.
pub handle_input-opposite : (ch : ℕ) (s : Snake) → (handle_input ch s).dir ≢ opposite s.dir
unfolding handle_input turn_to
handle_input-opposite ch s e = ground arith
