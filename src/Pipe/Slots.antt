-- ===== src/Pipe/Slots.antt =====
-- The two descriptors that `pipe` gives.
use systemprogramming.Base.{
  ℕ, suc, ◌+◌, ◌-◌, ◌≤◌, ◌<◌, ◌≡◌, ◌≢◌, refl, sym, ap, ◌∙◌, arith, [], ◌∷◌, Option, none, some, set,
  length, length-set, get_or-set_self, get_or-set_ne,
}
use mathlib.Core.Path.{subst}
use systemprogramming.Pipe.{read_end, write_end, Table, file_of, lowest_free, pipe}

-- What a table has at a descriptor that was free.
LowestFree : Table → ℕ → Option ℕ → Type 0
LowestFree t b none = Unit
LowestFree t b (some fd) = (b ≤ fd) × (fd - b < length t) × (file_of t (fd - b) ≡ none)

lowest_free-LowestFree : (t : Table) (b : ℕ) → LowestFree t b (lowest_free t b)
unfolding lowest_free LowestFree
lowest_free-LowestFree [] b = tt
lowest_free-LowestFree (none ∷ t) b =
    let here : b - b ≡ 0 = omega arith in (omega arith, omega arith, ap (file_of (none ∷ t)) here)
lowest_free-LowestFree (some f ∷ t) b =
    go (lowest_free t (b + 1)) (lowest_free-LowestFree t (b + 1))
  where
    go : (o : Option ℕ) → LowestFree t (b + 1) o → LowestFree (some f ∷ t) b o
    go none l = tt
    go (some fd) l =
        let further : fd - b ≡ suc (fd - (b + 1)) = omega (arith, l.0) in
        (omega (arith, l.0), omega (arith, l.0, l.1), ap (file_of (some f ∷ t)) further ∙ l.2)

-- The two descriptors that `pipe` gives: they were free, they differ, and nothing else changes.
pub record IsPipe (t t' : Table) (r w : ℕ) : Type 0 where
  pub apart : r ≢ w
  pub free_read : file_of t r ≡ none
  pub free_write : file_of t w ≡ none
  pub read_in : r < length t'
  pub write_in : w < length t'
  pub reads : file_of t' r ≡ some read_end
  pub writes : file_of t' w ≡ some write_end
  pub rest : (fd : ℕ) → fd ≢ r → fd ≢ w → file_of t' fd ≡ file_of t fd

two_free-IsPipe :
    (t : Table) (r w : ℕ)
    → LowestFree t 0 (some r)
    → LowestFree (set t r (some read_end)) 0 (some w)
    → IsPipe t (set (set t r (some read_end)) w (some write_end)) r w
unfolding LowestFree
two_free-IsPipe t r w a b =
    let t1 : Table = set t r (some read_end) in
    let r0 : r - 0 ≡ r = omega arith in
    let w0 : w - 0 ≡ w = omega arith in
    let room : length t1 ≡ length t = length-set t r (some read_end) in
    let read : file_of t1 r ≡ some read_end =
      get_or-set_self t r (some read_end) none (omega (arith, a.1)) in
    let free : file_of t1 w ≡ none = ap (file_of t1) (sym w0) ∙ b.2 in
    let apart : r ≢ w = λ e. cc (sym read ∙ ap (file_of t1) e ∙ free) in
    record {
      apart = apart;
      free_read = ap (file_of t) (sym r0) ∙ a.2;
      free_write = sym (get_or-set_ne t (some read_end) none apart) ∙ free;
      read_in = omega (arith, a.1, room, length-set t1 w (some write_end));
      write_in = omega (arith, b.1, length-set t1 w (some write_end));
      reads = get_or-set_ne t1 (some write_end) none (λ e. apart (sym e)) ∙ read;
      writes = get_or-set_self t1 w (some write_end) none (omega (arith, b.1));
      rest = λ fd nr nw.
          get_or-set_ne t1 (some write_end) none (λ e. nw (sym e))
          ∙ get_or-set_ne t (some read_end) none (λ e. nr (sym e));
    }

abbrev pub Ends : Type 0
Ends = Table × ℕ × ℕ

second_end : Table → ℕ → Option ℕ → Option Ends
second_end t r none = none
second_end t r (some w) = some (set (set t r (some read_end)) w (some write_end), r, w)

second_end-IsPipe :
    (t : Table) (r : ℕ) (o : Option ℕ) (x : Ends)
    → LowestFree t 0 (some r)
    → LowestFree (set t r (some read_end)) 0 o
    → second_end t r o ≡ some x
    → IsPipe t x.0 x.1 x.2
unfolding second_end
second_end-IsPipe t r none x a b h = cc
second_end-IsPipe t r (some w) x a b h =
    let new : Ends = (set (set t r (some read_end)) w (some write_end), r, w) in
    let same : new ≡ x = cc in subst (λ y. IsPipe t y.0 y.1 y.2) same (two_free-IsPipe t r w a b)

first_end : Table → Option ℕ → Option Ends
unfolding second_end
first_end t none = none
first_end t (some r) = second_end t r (lowest_free (set t r (some read_end)) 0)

first_end-IsPipe :
    (t : Table) (o : Option ℕ) (x : Ends)
    → LowestFree t 0 o
    → first_end t o ≡ some x
    → IsPipe t x.0 x.1 x.2
unfolding first_end
first_end-IsPipe t none x a h = cc
first_end-IsPipe t (some r) x a h =
    let t1 : Table = set t r (some read_end) in
    second_end-IsPipe t r (lowest_free t1 0) x a (lowest_free-LowestFree t1 0) h

second_end_lem :
    (t : Table) (r : ℕ) (o : Option ℕ)
    → elim o [
      | none ↦ none
      | some w ↦ some (set (set t r (some read_end)) w (some write_end), r, w)
    ]
      ≡ second_end t r o
unfolding second_end
second_end_lem t r none = refl
second_end_lem t r (some w) = refl

first_end_lem :
    (t : Table) (o : Option ℕ)
    → elim o [
      | none ↦ none
      | some r ↦
          let t1 = set t r (some read_end) in
          elim (lowest_free t1 0) [ none ↦ none | some w ↦ some (set t1 w (some write_end), r, w) ]
    ]
      ≡ first_end t o
unfolding first_end
first_end_lem t none = refl
first_end_lem t (some r) = second_end_lem t r (lowest_free (set t r (some read_end)) 0)

pub pipe-IsPipe : (t : Table) (x : Ends) → pipe t ≡ some x → IsPipe t x.0 x.1 x.2
unfolding pipe
pipe-IsPipe t x h =
    first_end-IsPipe t (lowest_free t 0) x (lowest_free-LowestFree t 0)
      (sym (first_end_lem t (lowest_free t 0)) ∙ h)
