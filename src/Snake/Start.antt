-- ===== src/Snake/Start.antt =====
-- The state that `init_game` sets up.
use systemprogramming.Base.{
  ℕ, zero, suc, ◌+◌, ◌-◌, ◌/◌, ◌≤◌, ◌<◌, ◌≡◌, ◌⊎◌, inl, inr, refl, sym, ap, ◌∙◌, some, arith, List,
  length, set, length-set, get_or-set_self, get_or-set_ne, dec_lt, replicate, length-replicate,
}
use systemprogramming.Snake.{
  Position, origin, Snake, max_len, width, height, Input, rounds, init_game, init_cells,
}
use systemprogramming.Snake.Shift.{cell}
use systemprogramming.Snake.Game.{Inv, rounds-Inv}

abbrev spot : ℕ → Position
spot i = record { x = width / 2 - i; y = height / 2 }

length-init_cells : (n i : ℕ) (cells : List Position) → length (init_cells n i cells) ≡ length cells
unfolding init_cells
length-init_cells zero i cells = refl
length-init_cells (suc n) i cells =
    length-init_cells n (i + 1) (set cells i (spot i)) ∙ length-set cells i (spot i)

init_cells_outside :
    (n i j : ℕ) (cells : List Position)
    → (j < i) ⊎ (i + n ≤ j)
    → cell (init_cells n i cells) j ≡ cell cells j
unfolding init_cells
init_cells_outside zero i j cells h = refl
init_cells_outside (suc n) i j cells h =
    init_cells_outside n (i + 1) j (set cells i (spot i)) (further h)
    ∙ get_or-set_ne cells (spot i) origin (omega arith)
  where
    further : (j < i) ⊎ (i + suc n ≤ j) → (j < i + 1) ⊎ (i + 1 + n ≤ j)
    further (inl a) = inl (omega arith)
    further (inr a) = inr (omega arith)

init_cells_at :
    (n i j : ℕ) (cells : List Position)
    → i + n ≤ length cells
    → i ≤ j
    → j < i + n
    → cell (init_cells n i cells) j ≡ spot j
unfolding init_cells
init_cells_at zero i j cells fits le lt = absurd (omega arith)
init_cells_at (suc n) i j cells fits le lt = elim (dec_lt i j) [
  | yes later ↦
      init_cells_at n (i + 1) j (set cells i (spot i)) (omega (arith, length-set cells i (spot i)))
        (omega arith) (omega arith)
  | no first ↦
      let here : j ≡ i = omega arith in
      init_cells_outside n (i + 1) j (set cells i (spot i)) (inl (omega arith))
      ∙ ap (cell (set cells i (spot i))) here
      ∙ get_or-set_self cells i (spot i) origin (omega arith)
      ∙ ap spot (sym here)
]

get_or-replicate : (n j : ℕ) → cell (replicate n origin) j ≡ origin
get_or-replicate zero j = refl
get_or-replicate (suc n) zero = refl
get_or-replicate (suc n) (suc j) = get_or-replicate n j

abbrev blank : List Position
blank = replicate max_len origin

-- The cells of the snake at the start, one for each index.
start_at : (j : ℕ) → j < 5 → cell (init_cells 5 0 blank) j ≡ spot j
start_at j h =
    init_cells_at 5 0 j blank (omega (arith, length-replicate max_len origin)) (omega arith)
      (omega arith)

-- The game starts in the invariant, wherever the food is put.
pub init_game-Inv : (r1 r2 : ℕ) → Inv (init_game r1 r2)
unfolding init_cells
init_game-Inv r1 r2 = record {
  room = length-init_cells 5 0 blank ∙ length-replicate max_len origin;
  long = omega arith;
  fits = omega arith;
  food_in = omega arith;
  scored = refl;
  unused = λ j h. init_cells_outside 5 0 j blank (inr h) ∙ get_or-replicate max_len j;
  inside = λ e j h. rw (start_at j (omega arith)) (omega arith);
  apart = λ e i j lt h same.
      let xs : spot i ≡ spot j = sym (start_at i (omega arith)) ∙ same ∙ start_at j (omega arith) in
      absurd (omega (arith, ap (λ (p : Position). p.x) xs));
}

-- At any time of any game that was started by `init_game` and not ended by the user: the array
-- and the food stay in their bounds, the length is 5 plus the score up to 300, and unless the
-- game is over no two cells of the snake are at one place and all but the last are inside the
-- border.
pub game-Inv :
    (r1 r2 : ℕ) (is : List Input) {t : Snake} → rounds is (init_game r1 r2) ≡ some t → Inv t
game-Inv r1 r2 is h = rounds-Inv is (init_game-Inv r1 r2) h
