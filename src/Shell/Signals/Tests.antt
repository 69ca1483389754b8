-- ===== src/Shell/Signals/Tests.antt =====
-- The signals of the shell at a concrete run.
use systemprogramming.Base.{ℕ, ◌≡◌, refl, false, true, [], ◌∷◌, some}
use systemprogramming.Shell.Signals.{
  Group, Place, idle, starting, start_group, new_child, reset_child, exec_child, each, at_pid,
  press_c, press_z, sigtstp_handler, All, forks, takes_over, resets, executes, Reachable, started,
  stepped,
}
use systemprogramming.Shell.Signals.Keys.{
  press_c-same, press_z-Obeys, Obeys, sigtstp_handler-background, background,
}

-- A command in the background, then one in the foreground that is waited for.
abbrev running : Group
running = record {
  place = Place.waiting 8;
  fg_pid = some 8;
  children =
      exec_child (reset_child (new_child 8 false))
      ∷ exec_child (reset_child (new_child 7 true))
      ∷ [];
}

reached : Reachable running
unfolding at_pid
reached =
    let forked_7 = stepped start_group _ started (forks start_group 7 true refl tt) in
    let reset_7 = stepped _ _ forked_7 (resets _ 7 (λ _. refl, tt)) in
    let exec_7 = stepped _ _ reset_7 (executes _ 7 (λ _. refl, tt)) in
    let forked_8 = stepped _ _ exec_7 (forks _ 8 false refl (refl, tt)) in
    let reset_8 = stepped _ _ forked_8 (resets _ 8 (λ _. refl, (λ e. cc, tt))) in
    let exec_8 = stepped _ _ reset_8 (executes _ 8 (λ _. refl, (λ e. cc, tt))) in
    stepped _ _ exec_8 (takes_over _ 8 refl)

press_c-same_example : press_c running ≡ running
press_c-same_example = press_c-same reached

press_z-Obeys_example : All Obeys (press_z running).children
unfolding each at_pid
press_z-Obeys_example = press_z-Obeys reached

sigtstp_handler-background_example :
    (background (sigtstp_handler (some 8) running.children)
      ≡ exec_child (reset_child (new_child 7 true)) ∷ [])
    × (running.place ≡ idle → sigtstp_handler (some 8) running.children ≡ running.children)
    × ((p : ℕ)
        → running.place ≡ starting p
        → sigtstp_handler (some 8) running.children ≡ running.children)
sigtstp_handler-background_example = sigtstp_handler-background reached
