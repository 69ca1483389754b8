-- ===== src/Shell/Signals/Reach.antt =====
-- The dispositions of the children and `fg_pid` of lab7-lyjae/mini-shell-2.c, in every order of the
-- steps of the shell, its children and the keys.
use systemprogramming.Base.{
  ℕ, ◌≡◌, refl, sym, ap, ap₂, ◌∙◌, arith, true, false, ◌==◌, List, [], ◌∷◌, Option, none, some,
  Bool-cases, inl, inr,
}
use mathlib.Core.Path.{subst}
use systemprogramming.Shell.Signals.{
  exec_disposition, Disposition, default, ignored, handled, Stage, forked, reset, executed, Child,
  Place, idle, starting, waiting, returning, Group, reset_child, exec_child, end_child,
  continue_child, interrupt, suspend, each, at_pid, sigtstp_handler, All, AllAt, IsFresh, Step,
  forks, resumes, takes_over, waits, gives_back, resets, executes, ends, pressed_c, pressed_z,
  Reachable, started, stepped,
}
use systemprogramming.Shell.Signals.Children.{All-each, All-imp, All-at_pid, All-reap, All-any}

-- What a child that got this far does about SIGTSTP.
abbrev pub ResetsWhen : Stage → Disposition → Type 0
ResetsWhen forked d = d ≡ handled
ResetsWhen reset d = d ≡ default
ResetsWhen executed d = d ≡ default

pub record Inherits (c : Child) : Type 0 where
  pub int : c.sigint ≡ ignored
  pub tstp : ResetsWhen c.stage c.sigtstp

-- The place of the shell says what `fg_pid` is, and the child that it names is in the foreground.
abbrev pub Foreground : ℕ → List Child → Type 0
Foreground p cs = AllAt p (λ c. c.in_background ≡ false) cs

abbrev pub NamesForeground : Place → Option ℕ → List Child → Type 0
NamesForeground idle fg cs = fg ≡ none
NamesForeground (starting p) fg cs = (fg ≡ none) × Foreground p cs
NamesForeground (waiting p) fg cs = (fg ≡ some p) × Foreground p cs
NamesForeground (returning p) fg cs = (fg ≡ some p) × Foreground p cs

pub record Inv (g : Group) : Type 0 where
  pub inherited : All Inherits g.children
  pub named : NamesForeground g.place g.fg_pid g.children

pub interrupt-same : (c : Child) → Inherits c → interrupt c ≡ c
interrupt-same c h = rw h.int refl

-- A signal leaves the rest of a child alone.
pub record IsSame (c d : Child) : Type 0 where
  pub stage : d.stage ≡ c.stage
  pub sigint : d.sigint ≡ c.sigint
  pub sigtstp : d.sigtstp ≡ c.sigtstp
  pub in_background : d.in_background ≡ c.in_background
  pub pid : d.pid ≡ c.pid

pub suspend-IsSame : (c : Child) → IsSame c (suspend c)
suspend-IsSame c = ground arith

pub each-same :
    (f : Child → Child)
    → ((c : Child) → Inherits c → f c ≡ c)
    → (cs : List Child) → All Inherits cs
    → each f cs ≡ cs
unfolding each
each-same f same [] h = refl
each-same f same (c ∷ cs) h = ap₂ ◌∷◌ (same c h.0) (each-same f same cs h.1)

suspend-Inherits : (c : Child) → Inherits c → Inherits (suspend c)
suspend-Inherits c h =
    let same = suspend-IsSame c in
    record { int = same.sigint ∙ h.int; tstp = rw (same.stage, same.sigtstp) h.tstp }

reset-Inherits : (c : Child) → Inherits c → c.stage ≡ forked → Inherits (reset_child c)
reset-Inherits c h e = record { int = h.int; tstp = refl }

exec-Inherits : (c : Child) → Inherits c → c.stage ≡ reset → Inherits (exec_child c)
exec-Inherits c h e = record {
  int = rw h.int refl;
  tstp = ap exec_disposition (subst (λ s. ResetsWhen s c.sigtstp) e h.tstp);
}

end-Inherits : (c : Child) → Inherits c → Inherits (end_child c)
end-Inherits c h = record { int = h.int; tstp = h.tstp }

continue-Inherits : (c : Child) → Inherits c → Inherits (continue_child c)
continue-Inherits c h = record { int = h.int; tstp = h.tstp }

handler-Inherits :
    (fg : Option ℕ) (cs : List Child) → All Inherits cs → All Inherits (sigtstp_handler fg cs)
handler-Inherits none cs h = h
handler-Inherits (some p) cs h = All-any Inherits p suspend suspend-Inherits cs h

abbrev At : ℕ → Child → Type 0
At p c = (c.pid == p) ≡ true → c.in_background ≡ false

suspend-At : (p : ℕ) (c : Child) → At p c → At p (suspend c)
suspend-At p c h e =
    let same = suspend-IsSame c in same.in_background ∙ h (ap (λ n. n == p) (sym same.pid) ∙ e)

handler-At :
    (p : ℕ) (fg : Option ℕ) (cs : List Child) → All (At p) cs → All (At p) (sigtstp_handler fg cs)
handler-At p none cs h = h
handler-At p (some q) cs h = All-any (At p) q suspend (suspend-At p) cs h

continued : (p : ℕ) (cs : List Child) → Foreground p (at_pid p continue_child cs)
unfolding at_pid
continued p [] = tt
continued p (c ∷ cs) = elim (Bool-cases (c.pid == p)) [
  | inl e ↦ rw e (λ _. refl, continued p cs)
  | inr e ↦ rw e (λ same. absurd (ground (arith, e, same)), continued p cs)
]

fresh-Foreground : (p : ℕ) (cs : List Child) → IsFresh p cs → Foreground p cs
fresh-Foreground p cs h =
    All-imp (λ c. (c.pid == p) ≡ false) (At p) (λ c new same. absurd (ground (arith, new, same))) cs
      h

-- The names stay good under a change that keeps every foreground child in the foreground.
NamesForeground-imp :
    (place : Place) (fg : Option ℕ) (cs ds : List Child)
    → ((p : ℕ) → Foreground p cs → Foreground p ds)
    → NamesForeground place fg cs
    → NamesForeground place fg ds
NamesForeground-imp idle fg cs ds keep h = h
NamesForeground-imp (starting p) fg cs ds keep h = (h.0, keep p h.1)
NamesForeground-imp (waiting p) fg cs ds keep h = (h.0, keep p h.1)
NamesForeground-imp (returning p) fg cs ds keep h = (h.0, keep p h.1)

change-Inv :
    {g : Group} (ds : List Child)
    → Inv g
    → All Inherits ds
    → ((p : ℕ) → Foreground p g.children → Foreground p ds)
    → Inv (record g { children = ds })
change-Inv {g} ds inv h keep = record {
  inherited = h;
  named = NamesForeground-imp g.place g.fg_pid g.children ds keep inv.named;
}

step-Inv : {g h : Group} → Step g h → Inv g → Inv h
step-Inv (forks g pid true at_line new) inv = record {
  inherited = (record { int = refl; tstp = refl }, inv.inherited);
  named = subst (λ pl. NamesForeground pl g.fg_pid g.children) at_line inv.named;
}
step-Inv (forks g pid false at_line new) inv = record {
  inherited = (record { int = refl; tstp = refl }, inv.inherited);
  named = (
    subst (λ pl. NamesForeground pl g.fg_pid g.children) at_line inv.named,
    (λ _. refl, fresh-Foreground pid g.children new),
  );
}
step-Inv (resumes g pid at_line) inv = record {
  inherited = All-any Inherits pid continue_child continue-Inherits g.children inv.inherited;
  named = (
    subst (λ pl. NamesForeground pl g.fg_pid g.children) at_line inv.named,
    continued pid g.children,
  );
}
step-Inv (takes_over g pid at_fork) inv = record {
  inherited = inv.inherited;
  named = (refl, (subst (λ pl. NamesForeground pl g.fg_pid g.children) at_fork inv.named).1);
}
step-Inv (waits g pid at_wait halted) inv =
    let named = subst (λ pl. NamesForeground pl g.fg_pid g.children) at_wait inv.named in
    record {
      inherited = All-reap Inherits pid g.children inv.inherited;
      named = (named.0, All-reap (At pid) pid g.children named.1);
    }
step-Inv (gives_back g pid at_end) inv = record { inherited = inv.inherited; named = refl }
step-Inv (resets g pid new) inv =
    change-Inv (at_pid pid reset_child g.children) inv
      (All-at_pid Inherits (λ c. c.stage ≡ forked) Inherits pid reset_child reset-Inherits
        (λ c h. h) g.children inv.inherited new)
      (λ p. All-any (At p) pid reset_child (λ c h. h) g.children)
step-Inv (executes g pid was_reset) inv =
    change-Inv (at_pid pid exec_child g.children) inv
      (All-at_pid Inherits (λ c. c.stage ≡ reset) Inherits pid exec_child exec-Inherits (λ c h. h)
        g.children inv.inherited was_reset)
      (λ p. All-any (At p) pid exec_child (λ c h. h) g.children)
step-Inv (ends g pid) inv =
    change-Inv (at_pid pid end_child g.children) inv
      (All-any Inherits pid end_child end-Inherits g.children inv.inherited)
      (λ p. All-any (At p) pid end_child (λ c h. h) g.children)
step-Inv (pressed_c g) inv =
    let same = each-same interrupt interrupt-same g.children inv.inherited in
    change-Inv (each interrupt g.children) inv (subst (All Inherits) (sym same) inv.inherited)
      (λ p h. subst (Foreground p) (sym same) h)
step-Inv (pressed_z g) inv =
    change-Inv (sigtstp_handler g.fg_pid (each suspend g.children)) inv
      (handler-Inherits g.fg_pid (each suspend g.children)
        (All-each Inherits Inherits suspend suspend-Inherits g.children inv.inherited))
      (λ p h.
        handler-At p g.fg_pid (each suspend g.children)
          (All-each (At p) (At p) suspend (suspend-At p) g.children h))

pub Reachable-Inv : {g : Group} → Reachable g → Inv g
Reachable-Inv started = record { inherited = tt; named = refl }
Reachable-Inv (stepped g h r s) = step-Inv s (Reachable-Inv r)
