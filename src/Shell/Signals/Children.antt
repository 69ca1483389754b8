-- ===== src/Shell/Signals/Children.antt =====
-- What holds of every child in the model of the signals of lab7-lyjae/mini-shell-2.c.
use systemprogramming.Base.{ℕ, arith, ◌==◌, List, [], ◌∷◌, Bool-cases, inl, inr}
use systemprogramming.Shell.Signals.{Child, each, at_pid, All, AllAt, reap}

module _ (P Q : Child → Type 0) where
  pub All-each :
      (f : Child → Child)
      → ((c : Child) → P c → Q (f c))
      → (cs : List Child) → All P cs
      → All Q (each f cs)
  unfolding each
  All-each f keep [] h = tt
  All-each f keep (c ∷ cs) h = (keep c h.0, All-each f keep cs h.1)

  pub All-imp : ((c : Child) → P c → Q c) → (cs : List Child) → All P cs → All Q cs
  All-imp keep [] h = tt
  All-imp keep (c ∷ cs) h = (keep c h.0, All-imp keep cs h.1)

module _ (P Q R : Child → Type 0) where
  pub All-at_pid :
      (p : ℕ) (f : Child → Child)
      → ((c : Child) → P c → Q c → R (f c))
      → ((c : Child) → P c → R c)
      → (cs : List Child) → All P cs
      → AllAt p Q cs
      → All R (at_pid p f cs)
  unfolding at_pid
  All-at_pid p f change keep [] h k = tt
  All-at_pid p f change keep (c ∷ cs) h k = elim (Bool-cases (c.pid == p)) [
    | inl e ↦ rw e (change c h.0 (k.0 e), All-at_pid p f change keep cs h.1 k.1)
    | inr e ↦ rw e (keep c h.0, All-at_pid p f change keep cs h.1 k.1)
  ]

module _ (P : Child → Type 0) where
  pub All-reap : (p : ℕ) (cs : List Child) → All P cs → All P (reap p cs)
  unfolding reap
  All-reap p [] h = tt
  All-reap p (c ∷ cs) h = ground (arith, h.0, All-reap p cs h.1)

-- What a change of the children of one number keeps, whatever they are.
pub All-any :
    (P : Child → Type 0) (p : ℕ) (f : Child → Child)
    → ((c : Child) → P c → P (f c))
    → (cs : List Child) → All P cs
    → All P (at_pid p f cs)
unfolding at_pid
All-any P p f keep [] h = tt
All-any P p f keep (c ∷ cs) h = ground (arith, h.0, keep c h.0, All-any P p f keep cs h.1)

pub All-both :
    (P Q : Child → Type 0) (cs : List Child) → All P cs → All Q cs → All (λ c. P c × Q c) cs
All-both P Q [] h k = tt
All-both P Q (c ∷ cs) h k = ((h.0, k.0), All-both P Q cs h.1 k.1)
