-- ===== src/Snake.antt =====
-- lab5-lyjae/snake.c: the state of the game, `move_snake`, `handle_input` and one round of the loop
-- of `main`. Snake.Draw is what it draws. The values of `rand` and of `getch` are arguments.
pub mod Shift
pub mod Game
pub mod Start
pub mod Cells
pub mod Body
pub mod Play
pub mod Draw
pub mod Corner
mod Tests
use systemprogramming.Base.{
  ℕ, zero, suc, ◌+◌, ◌-◌, ◌/◌, ◌%◌, Bool, true, false, not, ◌&&◌, ◌||◌, ◌==◌, ltb, leb, List, [],
  ◌∷◌, ◌++◌, Option, none, some, if◌then◌else◌, get_or, set, replicate,
}

abbrev pub width : ℕ
width = 40

abbrev pub height : ℕ
height = 20

abbrev pub max_len : ℕ
max_len = 300

-- `Position`. The head stands inside the border before every move (`Game.Inv.inside`), so a
-- decrement never meets 0.
pub record Position : Type 0 where
  pub x : ℕ
  pub y : ℕ

pub data Direction : Type 0 where
  up down left right : Direction

abbrev pub origin : Position
origin = record { x = 0; y = 0 }

-- The globals; `cells` is the whole array `snake`.
pub record Snake : Type 0 where
  pub cells : List Position
  pub snake_length : ℕ
  pub dir : Direction
  pub food : Position
  pub game_over : Bool
  pub score : ℕ
  pub paused : Bool

-- `rand() % (WIDTH - 2) + 1` and the like, for two values of `rand`.
abbrev pub place_food : ℕ → ℕ → Position
place_food r1 r2 = record { x = r1 % (width - 2) + 1; y = r2 % (height - 2) + 1 }

-- The loop of `init_game` from index `i` on.
pub init_cells : ℕ → ℕ → List Position → List Position
init_cells zero i cells = cells
init_cells (suc n) i cells =
    init_cells n (i + 1) (set cells i (record { x = width / 2 - i; y = height / 2 }))

abbrev pub init_game : ℕ → ℕ → Snake
unfolding init_cells
init_game r1 r2 = record {
  cells = init_cells 5 0 (replicate max_len origin);
  snake_length = 5;
  dir = right;
  food = place_food r1 r2;
  game_over = false;
  score = 0;
  paused = false;
}

-- `for (i = n; i > 0; i--) snake[i] = snake[i - 1]`.
pub shift : List Position → ℕ → List Position
shift cells zero = cells
shift cells (suc i) = shift (set cells (suc i) (get_or cells i origin)) i

pub step_head : Direction → Position → Position
step_head up p = record p { y = p.y - 1 }
step_head down p = record p { y = p.y + 1 }
step_head left p = record p { x = p.x - 1 }
step_head right p = record p { x = p.x + 1 }

pub hits_wall : Position → Bool
hits_wall p = leb p.x 0 || leb (width - 1) p.x || leb p.y 0 || leb (height - 1) p.y

pub same_place : Position → Position → Bool
same_place p q = p.x == q.x && p.y == q.y

-- Whether one of the `n` cells from index `i` on is at this place.
pub hits_cell : Position → List Position → ℕ → ℕ → Bool
hits_cell p cells zero i = false
hits_cell p cells (suc n) i = same_place p (get_or cells i origin) || hits_cell p cells n (i + 1)

-- The cells after the shift and the step of the head.
pub moved_cells : Snake → List Position
unfolding shift step_head
moved_cells s =
    let cells = shift s.cells (s.snake_length - 1) in
    set cells 0 (step_head s.dir (get_or cells 0 origin))

pub eat : ℕ → ℕ → Snake → Snake
eat r1 r2 s = record s {
  snake_length = if ltb s.snake_length max_len then s.snake_length + 1 else s.snake_length;
  score = s.score + 1;
  food = place_food r1 r2;
}

-- `move_snake`, with the values that `rand` returns if the food is eaten.
pub move_snake : ℕ → ℕ → Snake → Snake
move_snake r1 r2 s =
    let s' = record s { cells = moved_cells s } in
    let head = get_or s'.cells 0 origin in
    if hits_wall head || hits_cell head s'.cells (s.snake_length - 1) 1
    then record s' { game_over = true }
    else if same_place head s.food
    then eat r1 r2 s'
    else s'

unfoldable pub turn_to : Direction → Direction → Direction → Direction
turn_to up down d = d
turn_to up _ d = up
turn_to down up d = d
turn_to down _ d = down
turn_to left right d = d
turn_to left _ d = left
turn_to right left d = d
turn_to right _ d = right

-- `handle_input` for the character that `getch` returned.
unfoldable pub handle_input : ℕ → Snake → Snake
unfolding turn_to
handle_input ch s =
    if ch == b'w'
    then record s { dir = turn_to up s.dir s.dir }
    else if ch == b's'
    then record s { dir = turn_to down s.dir s.dir }
    else if ch == b'a'
    then record s { dir = turn_to left s.dir s.dir }
    else if ch == b'd'
    then record s { dir = turn_to right s.dir s.dir }
    else if ch == b'p' || ch == b'P'
    then record s { paused = not s.paused }
    else s

-- What comes between two rounds: the characters that `getch` returns (the answer to the question of
-- `SIGINT`, and the key), whether `SIGINT` or `SIGTSTP` arrived, and two values of `rand`.
pub record Input : Type 0 where
  pub interrupted : Bool
  pub answer : ℕ
  pub suspended : Bool
  pub key : ℕ
  pub rand1 : ℕ
  pub rand2 : ℕ

-- The handler of `SIGTSTP`.
unfoldable pub handle_sigtstp : Bool → Snake → Snake
handle_sigtstp true s = record s { paused = not s.paused }
handle_sigtstp false s = s

-- The rest of a round, for the flag `paused`.
unfoldable pub advance : Bool → Input → Snake → Snake
advance true i s = if i.key == b'p' || i.key == b'P' then record s { paused = not s.paused } else s
advance false i s = move_snake i.rand1 i.rand2 (handle_input i.key s)

unfoldable pub play : Input → Snake → Snake
unfolding advance
play i s = advance s.paused i s

-- One round of the loop of `main`; `none` if the game was ended by the user.
unfoldable pub round : Input → Snake → Option Snake
round i s =
    if i.interrupted && (i.answer == b'y' || i.answer == b'Y')
    then none
    else some (play i (handle_sigtstp i.suspended s))

-- The loop of `main` over the inputs of its rounds.
unfoldable pub rounds : List Input → Snake → Option Snake
rounds [] s = some s
rounds (i ∷ is) s =
    if s.game_over then some s else elim (round i s) [ none ↦ none | some s' ↦ rounds is s' ]
