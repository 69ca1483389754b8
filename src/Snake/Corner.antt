-- ===== src/Snake/Corner.antt =====
-- lab5-lyjae/snake.c: what the cell that `move_snake` adds shows on the screen.
use systemprogramming.Base.{
  ◌⊎◌, ℕ, zero, suc, ◌+◌, ◌-◌, ◌≤◌, ◌<◌, ◌≡◌, refl, sym, ap, ◌∙◌, arith, Bool, true, false, ltb,
  List, if◌then◌else◌, inl, inr, dec_lt,
}
use systemprogramming.Curses.{Window, shown, on_border}
use systemprogramming.Snake.{
  Position, origin, Snake, width, height, same_place, hits_cell, moved_cells, eat, move_snake,
}
use systemprogramming.Snake.Shift.{cell, IsMoved, moved_cells-IsMoved}
use systemprogramming.Snake.Game.{IsInside, Inv, move_snake-Inv}
use systemprogramming.Snake.Draw.{frame, place, on_pause, board, shown-frame}

-- A place on the border carries neither the snake nor the food when all of them are inside.
inside_off :
    {p : Position} (q : Position)
    → IsInside p
    → on_border width height q.y q.x ≡ true
    → same_place q p ≡ false
unfolding same_place
inside_off {p} q h e = ground (arith, h, e)

hits_cell_none :
    (p : Position) (cells : List Position) (n i : ℕ)
    → ((j : ℕ) → i ≤ j → j < i + n → same_place p (cell cells j) ≡ false)
    → hits_cell p cells n i ≡ false
unfolding hits_cell
hits_cell_none p cells zero i h = refl
hits_cell_none p cells (suc n) i h =
    rw
      (
        h i (omega arith) (omega arith),
        hits_cell_none p cells n (i + 1) (λ j a b. h j (omega arith) (omega arith)),
      )
      refl

hits_cell_last :
    (p : Position) (cells : List Position) (n i : ℕ)
    → 0 < n
    → same_place p (cell cells (i + n - 1)) ≡ true
    → hits_cell p cells n i ≡ true
unfolding hits_cell
hits_cell_last p cells zero i pos h = absurd (omega arith)
hits_cell_last p cells (suc zero) i pos h =
    let e : i + 1 - 1 ≡ i = omega arith in
    let here : same_place p (cell cells i) ≡ true =
      ap (λ k. same_place p (cell cells k)) (sym e) ∙ h in
    rw here refl
hits_cell_last p cells (suc (suc n)) i pos h =
    let e : i + 1 + suc n - 1 ≡ i + suc (suc n) - 1 = omega arith in
    let later : hits_cell p cells (suc n) (i + 1) ≡ true =
      hits_cell_last p cells (suc n) (i + 1) (omega arith)
        (ap (λ k. same_place p (cell cells k)) e ∙ h) in
    rw later (ground arith)

cells-move_snake : (r1 r2 : ℕ) (s : Snake) → (move_snake r1 r2 s).cells ≡ moved_cells s
unfolding move_snake eat
cells-move_snake r1 r2 s = ground arith

-- A move grows the snake by at most one cell.
move_snake-grown :
    (r1 r2 : ℕ) (s : Snake)
    → ((move_snake r1 r2 s).snake_length ≡ s.snake_length)
      ⊎ ((move_snake r1 r2 s).snake_length ≡ s.snake_length + 1)
unfolding move_snake eat
move_snake-grown r1 r2 s = ground arith

-- What is at row 0 and column 0 behind a round.
abbrev pub corner_of : (w : Window) → w.Screen → Bool → Snake → ℕ
corner_of w before interrupted s = shown w before (frame w.columns interrupted s) 0 0

module _ (w : Window) (before : w.Screen) (tall : height ≤ w.rows) (wide : width ≤ w.columns) where
  corner-board : (interrupted : Bool) (s : Snake) → corner_of w before interrupted s ≡ board s 0 0
  unfolding on_pause
  corner-board interrupted s =
      shown-frame w before interrupted s 0 0 tall wide (omega arith) (omega arith) (ground arith)

module _ (w : Window) (before : w.Screen) (tall : height ≤ w.rows) (wide : width ≤ w.columns)
    (interrupted : Bool) (r1 r2 : ℕ) {s : Snake} (inv : Inv s) (running : s.game_over ≡ false)
    (survived : (move_snake r1 r2 s).game_over ≡ false) where
  abbrev next : Snake
  next = move_snake r1 r2 s

  next-Inv : Inv next
  next-Inv = move_snake-Inv inv running r1 r2

  moved : IsMoved s (moved_cells s)
  moved = moved_cells-IsMoved s (omega (arith, inv.long)) (omega (arith, inv.fits, inv.room))

  cell_next : (j : ℕ) → cell next.cells j ≡ cell (moved_cells s) j
  cell_next j = ap (λ (cs : List Position). cell cs j) (cells-move_snake r1 r2 s)

  corner_stays : next.snake_length ≡ s.snake_length → corner_of w before interrupted next ≡ b'#'
  unfolding board
  corner_stays same =
      let free : (j : ℕ)
          → 0 ≤ j
          → j < 0 + next.snake_length
          → same_place (place 0 0) (cell next.cells j) ≡ false =
        λ j _ lt. elim (dec_lt (suc j) next.snake_length) [
          | yes before ↦ inside_off (place 0 0) (next-Inv.inside survived j before) refl
          | no last ↦
              let there : cell next.cells (suc (j - 1)) ≡ cell s.cells (j - 1) =
                cell_next (suc (j - 1)) ∙ moved.body (j - 1) (omega (arith, inv.long)) in
              let e : suc (j - 1) ≡ j = omega (arith, inv.long) in
              rw (ap (cell next.cells) (sym e) ∙ there)
                (inside_off (place 0 0) (inv.inside running (j - 1) (omega (arith, inv.long))) refl)
        ] in
      corner-board w before tall wide interrupted next
      ∙ rw
          (
            hits_cell_none (place 0 0) next.cells next.snake_length 0 free,
            inside_off (place 0 0) next-Inv.food_in refl,
          )
          refl

  corner_grows : next.snake_length ≡ s.snake_length + 1 → corner_of w before interrupted next ≡ b'O'
  unfolding board same_place
  corner_grows more =
      let tail : cell next.cells (0 + next.snake_length - 1) ≡ origin =
        cell_next (0 + next.snake_length - 1)
        ∙ moved.rest (0 + next.snake_length - 1) (omega arith)
        ∙ inv.unused (0 + next.snake_length - 1) (omega arith) in
      corner-board w before tall wide interrupted next
      ∙ rw
          (hits_cell_last (place 0 0) next.cells next.snake_length 0 (omega arith)
            (ap (same_place (place 0 0)) tail))
          refl

  -- In a window of at least 20 rows and 40 columns, behind a move that a game with the invariant
  -- survives, the next round shows the border at row 0 and column 0 exactly when the move did not make
  -- the snake longer: the new cell still is at (0, 0), and the snake is drawn over the border.
  pub move_snake-corner :
      corner_of w before interrupted next
      ≡ (if ltb s.snake_length next.snake_length then b'O' else b'#')
  move_snake-corner = elim (move_snake-grown r1 r2 s) [
    | inl same ↦ corner_stays same ∙ ground (arith, same)
    | inr more ↦ corner_grows more ∙ ground (arith, more)
  ]
