-- ===== src/Terminal/Move.antt =====
-- lab5-lyjae/move.c: the cursor between the walls of a window that can change its size. A window
-- has at least two columns and two rows, where no coordinate gets negative.
use systemprogramming.Base.{
  ℕ, ◌+◌, ◌-◌, ◌≤◌, arith, ◌==◌, ltb, leb, List, [], ◌∷◌, if◌then◌else◌, Bool-cases, inl, inr,
}

-- The globals.
pub record Screen : Type 0 where
  pub x : ℕ
  pub y : ℕ
  pub max_x : ℕ
  pub max_y : ℕ

-- The state behind `getmaxyx` at the start of `main`.
abbrev pub start_screen : ℕ → ℕ → Screen
start_screen max_x max_y = record { x = 10; y = 5; max_x = max_x; max_y = max_y }

-- `handle_resize`, for the size that `getmaxyx` reports.
pub handle_resize : ℕ → ℕ → Screen → Screen
handle_resize max_x max_y s = record {
  x = if leb (max_x - 1) s.x then max_x - 2 else s.x;
  y = if leb (max_y - 1) s.y then max_y - 2 else s.y;
  max_x = max_x;
  max_y = max_y;
}

-- The `switch` of `main`.
pub press : ℕ → Screen → Screen
press ch s =
    if ch == b'w'
    then (if ltb 1 s.y then record s { y = s.y - 1 } else s)
    else if ch == b's'
    then (if ltb s.y (s.max_y - 2) then record s { y = s.y + 1 } else s)
    else if ch == b'a'
    then (if ltb 1 s.x then record s { x = s.x - 1 } else s)
    else if ch == b'd'
    then (if ltb s.x (s.max_x - 2) then record s { x = s.x + 1 } else s)
    else s

-- What happens next: the window changes, or `getch` returns a key.
pub data Event : Type 0 where
  resized : ℕ → ℕ → Event
  pressed : ℕ → Event

-- The loop of `main`, up to the key `q`.
pub run : List Event → Screen → Screen
unfolding handle_resize press
run [] s = s
run (resized max_x max_y ∷ es) s = run es (handle_resize max_x max_y s)
run (pressed ch ∷ es) s = let rest = run es (press ch s) in if ch == b'q' then s else rest

-- Not on the walls.
pub record IsInside (s : Screen) : Type 0 where
  pub left_of : 1 ≤ s.x
  pub right_of : s.x + 2 ≤ s.max_x
  pub above : 1 ≤ s.y
  pub under : s.y + 2 ≤ s.max_y

-- Every size that the window gets has an inside.
abbrev pub AllRoomy : List Event → Type 0
AllRoomy [] = Unit
AllRoomy (resized max_x max_y ∷ es) = (3 ≤ max_x) × (3 ≤ max_y) × AllRoomy es
AllRoomy (pressed ch ∷ es) = AllRoomy es

press-IsInside : (ch : ℕ) {s : Screen} → IsInside s → IsInside (press ch s)
unfolding press
press-IsInside ch {s} h = ground (arith, h)

handle_resize-IsInside :
    (max_x max_y : ℕ) (s : Screen)
    → 3 ≤ max_x
    → 3 ≤ max_y
    → 1 ≤ s.x
    → 1 ≤ s.y
    → IsInside (handle_resize max_x max_y s)
unfolding handle_resize
handle_resize-IsInside max_x max_y s hx hy a b = ground arith

run-IsInside : (es : List Event) {s : Screen} → AllRoomy es → IsInside s → IsInside (run es s)
unfolding run
run-IsInside [] r h = h
run-IsInside (resized max_x max_y ∷ es) {s} r h =
    run-IsInside es r.2 (handle_resize-IsInside max_x max_y s r.0 r.1 h.left_of h.above)
run-IsInside (pressed ch ∷ es) {s} r h = elim (Bool-cases (ch == b'q')) [
  | inl e ↦ rw e h
  | inr e ↦ rw e (run-IsInside es r (press-IsInside ch h))
]

-- In a window of at least 12 columns and 7 rows at the start, which has at least 3 of each at any
-- later time, the cursor is never on a wall and never outside, whatever the keys and the sizes.
pub start-IsInside :
    (max_x max_y : ℕ) (es : List Event)
    → 12 ≤ max_x
    → 7 ≤ max_y
    → AllRoomy es
    → IsInside (run es (start_screen max_x max_y))
start-IsInside max_x max_y es hx hy r = run-IsInside es r (record {
  left_of = omega arith;
  right_of = omega arith;
  above = omega arith;
  under = omega arith;
})
