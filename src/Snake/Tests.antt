-- ===== src/Snake/Tests.antt =====
-- The game at concrete inputs.
use systemprogramming.Base.{◌≡◌, refl, arith, false, [], ◌∷◌}
use systemprogramming.Snake.{
  Snake, Input, init_game, init_cells, move_snake, handle_input, turn_to, rounds, round, play,
  advance, handle_sigtstp, moved_cells, shift, step_head, hits_wall, hits_cell, same_place, eat,
}
use systemprogramming.Curses.{Window, shown, plain_window}
use systemprogramming.Snake.Shift.{cell}
use mathlib.Core.Option
use systemprogramming.Snake.Body.{game_of, move}
use systemprogramming.Snake.Play.{game, rounds-game}
use systemprogramming.Snake.Draw.{frame, board, shown-frame}
use systemprogramming.Snake.Corner.{corner_of, move_snake-corner}
use systemprogramming.Snake.Game.{Inv}
use systemprogramming.Snake.Start.{game-Inv}

-- The key `w` with no signal.
abbrev press_w : Input
press_w = record {
  interrupted = false;
  answer = 0;
  suspended = false;
  key = b'w';
  rand1 = 3;
  rand2 = 4;
}

abbrev after_two : Snake
unfolding init_cells round play advance handle_sigtstp handle_input turn_to move_snake moved_cells
    shift step_head hits_wall hits_cell same_place eat
after_two = play press_w (play press_w (init_game 0 0))

up_twice :
    (cell after_two.cells 0 ≡ record { x = 20; y = 8 })
    × (cell after_two.cells 2 ≡ record { x = 20; y = 10 })
unfolding init_cells round play advance handle_sigtstp handle_input turn_to move_snake moved_cells
    shift step_head hits_wall hits_cell same_place eat
up_twice = (refl, refl)

game-Inv_example : Inv after_two
unfolding init_cells rounds round play advance handle_sigtstp handle_input turn_to move_snake
    moved_cells shift step_head hits_wall hits_cell same_place eat
game-Inv_example = game-Inv 0 0 (press_w ∷ press_w ∷ []) refl

abbrev window : Window
window = plain_window 24 80

shown-frame_example :
    shown window (λ r c. 0) (frame 80 false (init_game 0 0)) 10 18 ≡ board (init_game 0 0) 10 18
unfolding init_cells
shown-frame_example =
    shown-frame window (λ r c. 0) false (init_game 0 0) 10 18 (omega arith) (omega arith)
      (omega arith) (omega arith) refl

body_shown : board (init_game 0 0) 10 18 ≡ b'O'
unfolding init_cells board hits_cell same_place
body_shown = refl

-- The game as it starts, with the food right of the head.
abbrev hungry : Snake
hungry = init_game 20 9

hungry-Inv : Inv hungry
unfolding rounds
hungry-Inv = game-Inv 20 9 [] refl

move_snake-corner_example : corner_of window (λ r c. 0) false (move_snake 3 4 hungry) ≡ b'O'
unfolding init_cells move_snake moved_cells shift step_head hits_wall hits_cell same_place eat
move_snake-corner_example =
    move_snake-corner window (λ r c. 0) (omega arith) (omega arith) false 3 4 hungry-Inv refl refl

-- The food is eaten, then the snake turns.
rounds-game_example :
    Option.map game_of (rounds (record press_w { key = 0 } ∷ press_w ∷ []) hungry)
    ≡ game (record press_w { key = 0 } ∷ press_w ∷ []) (game_of hungry)
rounds-game_example = rounds-game (record press_w { key = 0 } ∷ press_w ∷ []) hungry-Inv

moved_body : (move 3 4 (game_of hungry)).body ≡ (
    record { x = 21; y = 10 }
    ∷ record { x = 20; y = 10 }
    ∷ record { x = 19; y = 10 }
    ∷ record { x = 18; y = 10 }
    ∷ record { x = 17; y = 10 }
    ∷ record { x = 0; y = 0 }
    ∷ [])
unfolding init_cells move step_head hits_wall same_place
moved_body = refl
