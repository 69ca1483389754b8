-- ===== src/Shell/Signals/Keys.antt =====
-- What the keys of the terminal do to the children of lab7-lyjae/mini-shell-2.c.
use systemprogramming.Base.{
  ℕ, ◌≡◌, ◌≢◌, ◌∙◌, refl, ap, arith, ◌==◌, List, [], ◌∷◌, Option, none, some, if◌then◌else◌,
  Bool-cases, inl, inr,
}
use mathlib.Core.Path.{subst}
use systemprogramming.Shell.Signals.{
  default, Stage, forked, reset, executed, Child, Place, idle, starting, waiting, returning, Group,
  interrupt, suspend, each, at_pid, press_c, sigtstp_handler, press_z, All, IsHalted, Reachable,
}
use systemprogramming.Shell.Signals.Children.{All-each, All-any}
use systemprogramming.Shell.Signals.Reach.{
  Inherits, ResetsWhen, IsSame, Foreground, NamesForeground, suspend-IsSame, each-same,
  interrupt-same, Reachable-Inv,
}

-- Ctrl-C does nothing at all: whatever the shell and its children did before, no child is ended by it,
-- since every command runs with SIGINT ignored, as it inherits it from the shell.
pub press_c-same : {g : Group} → Reachable g → press_c g ≡ g
press_c-same {g} r =
    ap (λ (cs : List Child). record g { children = cs })
      (each-same interrupt interrupt-same g.children (Reachable-Inv r).inherited)

-- A child that has reset SIGTSTP is stopped or has ended; one that has not is as it was.
abbrev pub Obeys : Child → Type 0
Obeys c = c.stage ≢ forked → IsHalted c

suspend-Obeys : (c : Child) → Inherits c → Obeys (suspend c)
suspend-Obeys c h late = by_stage c.stage refl
  where
    same : IsSame c (suspend c)
    same = suspend-IsSame c

    halted : c.sigtstp ≡ default → IsHalted (suspend c)
    halted e = rw e (ground arith)

    by_stage : (s : Stage) → c.stage ≡ s → IsHalted (suspend c)
    by_stage forked e = absurd (late (same.stage ∙ e))
    by_stage reset e = halted (subst (λ s. ResetsWhen s c.sigtstp) e h.tstp)
    by_stage executed e = halted (subst (λ s. ResetsWhen s c.sigtstp) e h.tstp)

suspend_again-Obeys : (c : Child) → Obeys c → Obeys (suspend c)
suspend_again-Obeys c h late =
    let halted : IsHalted c = h (λ e. late ((suspend-IsSame c).stage ∙ e)) in ground (arith, halted)

handler-Obeys : (fg : Option ℕ) (cs : List Child) → All Obeys cs → All Obeys (sigtstp_handler fg cs)
handler-Obeys none cs h = h
handler-Obeys (some p) cs h = All-any Obeys p suspend suspend_again-Obeys cs h

-- At any time, behind Ctrl-Z every child that got as far as its reset of SIGTSTP, whether it executes its
-- command already or not, is stopped or had ended, in the background as in the foreground.
pub press_z-Obeys : {g : Group} → Reachable g → All Obeys (press_z g).children
press_z-Obeys {g} r =
    handler-Obeys g.fg_pid (each suspend g.children)
      (All-each Inherits Obeys suspend suspend-Obeys g.children (Reachable-Inv r).inherited)

-- The children in the background.
abbrev pub background : List Child → List Child
background [] = []
background (c ∷ cs) = let rest = background cs in if c.in_background then c ∷ rest else rest

at_pid-background :
    (p : ℕ) (cs : List Child) → Foreground p cs → background (at_pid p suspend cs) ≡ background cs
unfolding at_pid
at_pid-background p [] h = refl
at_pid-background p (c ∷ cs) h = elim (Bool-cases (c.pid == p)) [
  | inl e ↦
      let same = suspend-IsSame c in rw (e, same.in_background, h.0 e) (at_pid-background p cs h.1)
  | inr e ↦ rw (e, at_pid-background p cs h.1) refl
]

-- The handler of the shell reaches no child in the background, and no child at all while the shell is
-- at a line or has not yet set `fg_pid`.
pub sigtstp_handler-background :
    {g : Group}
    → Reachable g
    → (background (sigtstp_handler g.fg_pid g.children) ≡ background g.children)
      × (g.place ≡ idle → sigtstp_handler g.fg_pid g.children ≡ g.children)
      × ((p : ℕ) → g.place ≡ starting p → sigtstp_handler g.fg_pid g.children ≡ g.children)
sigtstp_handler-background {g} r = handled_at g.place g.fg_pid (Reachable-Inv r).named
  where
    handled_at :
        (place : Place) (fg : Option ℕ)
        → NamesForeground place fg g.children
        → (background (sigtstp_handler fg g.children) ≡ background g.children)
          × (place ≡ idle → sigtstp_handler fg g.children ≡ g.children)
          × ((p : ℕ) → place ≡ starting p → sigtstp_handler fg g.children ≡ g.children)
    handled_at idle fg h = rw h (refl, λ _. refl, λ _ _. refl)
    handled_at (starting p) fg h = rw (h.0) (refl, λ _. refl, λ _ _. refl)
    handled_at (waiting p) fg h = rw (h.0) (at_pid-background p g.children h.1, λ e. cc, λ q e. cc)
    handled_at (returning p) fg h =
        rw (h.0) (at_pid-background p g.children h.1, λ e. cc, λ q e. cc)
