-- ===== src/Shell/Block/Checked.antt =====
-- The arrays of `expand_variables`: 1024 bytes for the result and 64 for a name, which the code of the
-- shells of lab7 writes with no test. A line that outgrows them has no defined effect, and the checked
-- shell stops there.
use systemprogramming.Base.{
  ℕ, ◌≡◌, refl, ap, ap₂, ◌∙◌, Bool, true, ◌&&◌, ◌||◌, ltb, [], ◌∷◌, Option, none, some, length,
  if◌then◌else◌, Bool-cases, inl, inr,
}
use systemprogramming.Shell.Vars.{Vars}
use systemprogramming.Shell.Parse.{Mode, next_mode, expand_from, max_line}
use systemprogramming.Shell.Block.{Program, Line}
use systemprogramming.Shell.Block.Runs.{Keeps}
use systemprogramming.Shell.Block.Simulation.{Simulates}

-- The room of `varname`, with its terminator.
abbrev pub name_room : ℕ
name_room = 64

abbrev pub name_fits : Mode → Bool
name_fits none = true
name_fits (some name) = ltb (length name) name_room

unfoldable pub names_fit : Mode → Line → Bool
names_fit m [] = name_fits m
names_fit m (c ∷ cs) = name_fits m && names_fit (next_mode m c) cs

-- The names and the result fit, each with its terminator.
unfoldable pub line_fits : Vars → Line → Bool
unfolding names_fit
line_fits vars line = names_fit none line && ltb (length (expand_from vars none line)) max_line

module _ (p : Program) (vars : p.State → Vars) where
  unfoldable pub checked_line : p.State × Bool → Line → p.State × Bool
  checked_line (s, b) l = if line_fits (vars s) l then (p.run_line s l, b) else (s, true)

  unfoldable pub checked_condition : p.State × Bool → Line → (p.State × Bool) × Option ℕ
  checked_condition (s, b) l =
      let (s', o) = p.run_condition s l in
      if line_fits (vars s) l then ((s', b), o) else ((s, true), none)

-- The program up to the first line that does not fit, and whether it met one.
abbrev pub checked : (p : Program) → (p.State → Vars) → Program
checked p vars = record {
  State = p.State × Bool;
  run_line = λ x l. checked_line p vars x l;
  run_condition = λ x l. checked_condition p vars x l;
  has_exited = λ (s, b). p.has_exited s || b;
  complain = λ m (s, b). (p.complain m s, b);
}

-- What the program keeps, the checked one keeps.
pub checked-Keeps :
    (p : Program) (vars : p.State → Vars) (P : p.State → Type 0)
    → Keeps p P
    → Keeps (checked p vars) (λ r. P r.0)
unfolding checked_line checked_condition
checked-Keeps p vars P k = record {
  line = λ (s, b) l h. elim (Bool-cases (line_fits (vars s) l)) [
    | inl e ↦ rw (e, checked_line) (k.line s l h)
    | inr e ↦ rw (e, checked_line) h
  ];
  condition = λ (s, b) l h. elim (Bool-cases (line_fits (vars s) l)) [
    | inl e ↦ rw (e, checked_condition) (k.condition s l h)
    | inr e ↦ rw (e, checked_condition) h
  ];
  complaint = λ (s, b) m h. k.complaint s m h;
}

-- Programs that do the same do so up to the same line when they are checked.
pub checked-Simulates :
    (p q : Program) (f : p.State → Vars) (g : q.State → Vars) (R : p.State → q.State → Type 0)
    (Ok : Line → Type 0)
    → Simulates p q R Ok
    → ((s : p.State) (t : q.State) → R s t → f s ≡ g t)
    → Simulates (checked p f) (checked q g) (λ x y. R x.0 y.0 × (x.1 ≡ y.1)) Ok
unfolding checked_line checked_condition
checked-Simulates p q f g R Ok sim same = record {
  line = λ (s, b) (t, c) l ok h.
      let test : line_fits (f s) l ≡ line_fits (g t) l = ap (λ v. line_fits v l) (same s t h.0) in
      elim (Bool-cases (line_fits (g t) l)) [
        | inl e ↦ rw (test ∙ e, e, checked_line) (sim.line s t l ok h.0, h.1)
        | inr e ↦ rw (test ∙ e, e, checked_line) (h.0, refl)
      ];
  condition = λ (s, b) (t, c) l ok h.
      let test : line_fits (f s) l ≡ line_fits (g t) l = ap (λ v. line_fits v l) (same s t h.0) in
      elim (Bool-cases (line_fits (g t) l)) [
        | inl e ↦
            let r = sim.condition s t l ok h.0 in
            rw (test ∙ e, e, checked_condition) ((r.0, h.1), r.1)
        | inr e ↦ rw (test ∙ e, e, checked_condition) ((h.0, refl), refl)
      ];
  complaint = λ (s, b) (t, c) m h. (sim.complaint s t m h.0, h.1);
  exited = λ (s, b) (t, c) h. ap₂ ◌||◌ (sim.exited s t h.0) h.1;
}
