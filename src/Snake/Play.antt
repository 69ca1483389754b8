-- ===== src/Snake/Play.antt =====
-- lab5-lyjae/snake.c: whole games over the array implement games over a list of cells.
use systemprogramming.Base.{
  ℕ, ◌≡◌, refl, sym, ap, ◌∙◌, arith, Bool, true, false, not, ◌&&◌, ◌||◌, ◌==◌, List, [], ◌∷◌,
  Option, none, some, if◌then◌else◌, Bool-cases, inl, inr,
}
use mathlib.Core.Option
use systemprogramming.Snake.{
  Snake, up, down, left, right, Input, turn_to, handle_input, handle_sigtstp, advance, play, round,
  rounds,
}
use systemprogramming.Snake.Game.{
  Inv, handle_input-SameBoard, handle_sigtstp-SameBoard, SameBoard-Inv, round-Inv,
}
use systemprogramming.Snake.Body.{Game, game_of, move, move_snake-move}

-- The key that was pressed.
abbrev pub steer : ℕ → Game → Game
steer ch g =
    if ch == b'w'
    then record g { dir = turn_to up g.dir g.dir }
    else if ch == b's'
    then record g { dir = turn_to down g.dir g.dir }
    else if ch == b'a'
    then record g { dir = turn_to left g.dir g.dir }
    else if ch == b'd'
    then record g { dir = turn_to right g.dir g.dir }
    else if ch == b'p' || ch == b'P'
    then record g { paused = not g.paused }
    else g

abbrev pub toggle : Bool → Game → Game
toggle b g = if b then record g { paused = not g.paused } else g

-- A game that rests waits for its key; another one takes the key and moves.
unfoldable pub turn : Input → Game → Game
turn i g =
    if g.paused
    then toggle (i.key == b'p' || i.key == b'P') g
    else move i.rand1 i.rand2 (steer i.key g)

-- A whole game; `none` if the user ends it.
unfoldable pub game : List Input → Game → Option Game
unfolding turn
game [] g = some g
game (i ∷ is) g =
    let rest = game is (turn i (toggle i.suspended g)) in
    if g.game_over
    then some g
    else if i.interrupted && (i.answer == b'y' || i.answer == b'Y')
    then none
    else rest

handle_input-steer : (ch : ℕ) (s : Snake) → game_of (handle_input ch s) ≡ steer ch (game_of s)
unfolding handle_input
handle_input-steer ch s = ground arith

handle_sigtstp-toggle : (b : Bool) (s : Snake) → game_of (handle_sigtstp b s) ≡ toggle b (game_of s)
unfolding handle_sigtstp
handle_sigtstp-toggle true s = refl
handle_sigtstp-toggle false s = refl

toggled :
    (b : Bool) (s : Snake)
    → game_of (if b then record s { paused = not s.paused } else s) ≡ toggle b (game_of s)
toggled true s = refl
toggled false s = refl

advance-turn :
    (b : Bool) (i : Input) {s : Snake}
    → Inv s
    → game_of (advance b i s) ≡ (
        if b
        then toggle (i.key == b'p' || i.key == b'P') (game_of s)
        else move i.rand1 i.rand2 (steer i.key (game_of s)))
unfolding advance
advance-turn true i {s} inv = toggled (i.key == b'p' || i.key == b'P') s
advance-turn false i {s} inv =
    move_snake-move (SameBoard-Inv (handle_input-SameBoard i.key s) inv) i.rand1 i.rand2
    ∙ ap (move i.rand1 i.rand2) (handle_input-steer i.key s)

play-turn : (i : Input) {s : Snake} → Inv s → game_of (play i s) ≡ turn i (game_of s)
unfolding play turn
play-turn i {s} = advance-turn s.paused i

suspended-turn :
    (i : Input) {s : Snake}
    → Inv s
    → game_of (play i (handle_sigtstp i.suspended s)) ≡ turn i (toggle i.suspended (game_of s))
suspended-turn i {s} inv =
    play-turn i (SameBoard-Inv (handle_sigtstp-SameBoard i.suspended s) inv)
    ∙ ap (turn i) (handle_sigtstp-toggle i.suspended s)

abbrev quits : Input → Bool
quits i = i.interrupted && (i.answer == b'y' || i.answer == b'Y')

-- A round that goes on, of the array and of the list.
round-on :
    (i : Input) (s : Snake)
    → quits i ≡ false
    → round i s ≡ some (play i (handle_sigtstp i.suspended s))
unfolding round
round-on i s h = ground (arith, h)

rounds-on :
    (i : Input) (is : List Input) (s : Snake) {t : Snake}
    → s.game_over ≡ false
    → round i s ≡ some t
    → rounds (i ∷ is) s ≡ rounds is t
unfolding rounds
rounds-on i is s running e = ground (arith, running, e)

game-on :
    (i : Input) (is : List Input) (g : Game)
    → g.game_over ≡ false
    → quits i ≡ false
    → game (i ∷ is) g ≡ game is (turn i (toggle i.suspended g))
unfolding game
game-on i is g running h = ground (arith, running, h)

-- A whole run, from any state with the invariant, over the array is the run of the list of the cells,
-- whatever the keys, the signals and the values of `rand` are: they end at the same time, in the same
-- way, with the same cells, food and score.
pub rounds-game :
    (is : List Input) {s : Snake} → Inv s → Option.map game_of (rounds is s) ≡ game is (game_of s)
unfolding rounds round game
rounds-game [] inv = refl
rounds-game (i ∷ is) {s} inv = elim (Bool-cases s.game_over) [
  | inl over ↦ ground (arith, over)
  | inr running ↦ elim (Bool-cases (quits i)) [
    | inl end ↦ ground (arith, running, end)
    | inr on ↦
        let e = round-on i s on in
        ap (Option.map game_of) (rounds-on i is s running e)
        ∙ rounds-game is (round-Inv i running inv e)
        ∙ ap (game is) (suspended-turn i inv)
        ∙ sym (game-on i is (game_of s) running on)
  ]
]
