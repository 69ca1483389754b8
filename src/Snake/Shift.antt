-- ===== src/Snake/Shift.antt =====
-- `move_snake` moves every cell of the body to the place of the one before it.
use systemprogramming.Base.{
  ℕ, zero, suc, ◌+◌, ◌-◌, ◌≤◌, ◌<◌, ◌≡◌, ◌≢◌, refl, ap, ◌∙◌, arith, false, List, length, get_or,
  set, length-set, get_or-set_self, get_or-set_ne, dec_lt,
}
use native.Mathlib.Nat.{add-zero}
use systemprogramming.Snake.{
  Position, origin, Snake, shift, step_head, same_place, hits_cell, moved_cells,
}

-- The cell at an index of the array.
abbrev pub cell : List Position → ℕ → Position
cell cells j = get_or cells j origin

length-shift : (cells : List Position) (n : ℕ) → length (shift cells n) ≡ length cells
unfolding shift
length-shift cells zero = refl
length-shift cells (suc i) =
    length-shift (set cells (suc i) (cell cells i)) i ∙ length-set cells (suc i) (cell cells i)

-- The shift keeps the cells above index `n`, and copies each other one from the index below.
shift_above : (cells : List Position) (n j : ℕ) → n < j → cell (shift cells n) j ≡ cell cells j
unfolding shift
shift_above cells zero j lt = refl
shift_above cells (suc i) j lt =
    shift_above (set cells (suc i) (cell cells i)) i j (omega arith)
    ∙ get_or-set_ne cells (cell cells i) origin (omega arith)

shift_below :
    (cells : List Position) (n j : ℕ)
    → n < length cells
    → j ≤ n
    → cell (shift cells n) j ≡ cell cells (j - 1)
unfolding shift
shift_below cells zero j h le = ap (cell cells) (omega arith)
shift_below cells (suc i) j h le =
    let c : Position = cell cells i in
    let cells' : List Position = set cells (suc i) c in
    elim (dec_lt i j) [
      | no early ↦
          shift_below cells' i j (omega (arith, length-set cells (suc i) c)) (omega arith)
          ∙ get_or-set_ne cells c origin (omega arith)
      | yes last ↦
          let here : j ≡ suc i = omega arith in
          let before : i ≡ j - 1 = omega arith in
          shift_above cells' i j last
          ∙ ap (cell cells') here
          ∙ get_or-set_self cells (suc i) c origin (omega arith)
          ∙ ap (cell cells) before
    ]

-- The head after the step, each other cell of the body one place further, and nothing else moved.
pub record IsMoved (s : Snake) (cells : List Position) : Type 0 where
  pub room : length cells ≡ length s.cells
  pub head : cell cells 0 ≡ step_head s.dir (cell s.cells 0)
  pub body : (j : ℕ) → suc j < s.snake_length → cell cells (suc j) ≡ cell s.cells j
  pub rest : (j : ℕ) → s.snake_length ≤ j → cell cells j ≡ cell s.cells j

-- With a length of at least 1 that the array has room for, a move puts every cell of the body where
-- the cell before it was, steps the head in its direction, and leaves the rest of the array alone.
pub moved_cells-IsMoved :
    (s : Snake) → 0 < s.snake_length → s.snake_length ≤ length s.cells → IsMoved s (moved_cells s)
unfolding moved_cells
moved_cells-IsMoved s pos fits =
    let n : ℕ = s.snake_length - 1 in
    let cells : List Position = shift s.cells n in
    let new : Position = step_head s.dir (cell cells 0) in
    record {
      room = length-set cells 0 new ∙ length-shift s.cells n;
      head =
          get_or-set_self cells 0 new origin (omega (arith, length-shift s.cells n))
          ∙ ap (step_head s.dir) (shift_below s.cells n 0 (omega arith) (omega arith));
      body = λ j lt.
          get_or-set_ne cells new origin (omega arith)
          ∙ shift_below s.cells n (suc j) (omega arith) (omega arith)
          ∙ ap (cell s.cells) (omega arith);
      rest = λ j le.
          get_or-set_ne cells new origin (omega arith) ∙ shift_above s.cells n j (omega arith);
    }

pub hits_cell-ne :
    (p : Position) (cells : List Position) (n i k : ℕ)
    → hits_cell p cells n i ≡ false
    → k < n
    → cell cells (i + k) ≢ p
unfolding hits_cell same_place
hits_cell-ne p cells zero i k h lt e = absurd (omega arith)
hits_cell-ne p cells (suc n) i zero h lt e = ground (arith, h, e, ap (cell cells) (add-zero i))
hits_cell-ne p cells (suc n) i (suc k) h lt e =
    hits_cell-ne p cells n (i + 1) k (ground arith) (omega arith)
      (ap (cell cells) (omega arith) ∙ e)
