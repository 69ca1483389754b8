-- ===== src/Snake/Cells.antt =====
-- Lists of cells by index, and the first of them.
use systemprogramming.Base.{
  ℕ, zero, suc, ◌+◌, ◌<◌, ◌≡◌, refl, sym, ap, ap₂, ◌∙◌, arith, List, [], ◌∷◌, ◌++◌, length, take,
  drop,
}
use systemprogramming.Snake.{Position}
use systemprogramming.Snake.Shift.{cell}

pub same_cells :
    (xs ys : List Position)
    → length xs ≡ length ys
    → ((j : ℕ) → j < length xs → cell xs j ≡ cell ys j)
    → xs ≡ ys
same_cells [] [] e h = refl
same_cells [] (y ∷ ys) e h = absurd (omega arith)
same_cells (x ∷ xs) [] e h = absurd (omega arith)
same_cells (x ∷ xs) (y ∷ ys) e h =
    ap₂ ◌∷◌ (h 0 (omega arith)) (same_cells xs ys (omega arith) (λ j lt. h (suc j) (omega arith)))

pub cell-take : (n : ℕ) (xs : List Position) (j : ℕ) → j < n → cell (take n xs) j ≡ cell xs j
cell-take zero xs j h = absurd (omega arith)
cell-take (suc n) [] j h = refl
cell-take (suc n) (x ∷ xs) zero h = refl
cell-take (suc n) (x ∷ xs) (suc j) h = cell-take n xs j (omega arith)

pub take-next :
    (n : ℕ) (xs : List Position) → n < length xs → take (n + 1) xs ≡ take n xs ++ (cell xs n ∷ [])
take-next n [] h = absurd (omega arith)
take-next zero (x ∷ xs) h = refl
take-next (suc n) (x ∷ xs) h =
    let e : suc n + 1 ≡ suc (n + 1) = omega arith in
    ap (λ k. take k (x ∷ xs)) e ∙ ap (λ t. x ∷ t) (take-next n xs (omega arith))

pub drop-cell :
    (i : ℕ) (xs : List Position) → i < length xs → drop i xs ≡ cell xs i ∷ drop (i + 1) xs
drop-cell i [] h = absurd (omega arith)
drop-cell zero (x ∷ xs) h = refl
drop-cell (suc i) (x ∷ xs) h =
    let e : suc i + 1 ≡ suc (i + 1) = omega arith in
    drop-cell i xs (omega arith) ∙ ap (λ k. cell xs i ∷ drop k (x ∷ xs)) (sym e)

pub take-nil : (n : ℕ) → take {A = Position} n [] ≡ []
take-nil zero = refl
take-nil (suc n) = refl
