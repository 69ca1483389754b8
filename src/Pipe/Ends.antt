-- ===== src/Pipe/Ends.antt =====
-- Which descriptors of the three processes are ends of the pipe.
use systemprogramming.Base.{
  ℕ, zero, suc, ◌<◌, ◌≡◌, ◌≢◌, refl, sym, ap, ◌∙◌, arith, List, [], ◌∷◌, Option, none, some, inl,
  inr, set, length, length-set, get_or-set_self, get_or-set_ne, ℕ_discrete, ◌⊎◌,
}
use mathlib.Core.Path.{subst}
use systemprogramming.Pipe.{
  File, read_end, write_end, Table, file_of, close, dup2, pipe, first_child, second_child, parent,
  Outcome, usage, pipe_failed, started, main, start_both,
}
use systemprogramming.Pipe.Slots.{Ends, IsPipe, pipe-IsPipe}

-- No descriptor of a table is an end of the pipe, but for some that are.
abbrev pub NoEnds : Table → Type 0
NoEnds t = (fd : ℕ) → (file_of t fd ≢ some read_end) × (file_of t fd ≢ some write_end)

abbrev pub OnlyAt : ℕ → File → Table → Type 0
OnlyAt n f t =
    (file_of t n ≡ some f)
    × ((fd : ℕ) → fd ≢ n → (file_of t fd ≢ some read_end) × (file_of t fd ≢ some write_end))

open-lt-length : (t : Table) (n : ℕ) → file_of t n ≢ none → n < length t
open-lt-length [] n h = absurd (h refl)
open-lt-length (x ∷ t) zero h = omega arith
open-lt-length (x ∷ t) (suc n) h = omega (arith, open-lt-length t n h)

dup2-open : (t : Table) (k n : ℕ) (f : File) → file_of t k ≡ some f → dup2 t k n ≡ set t n (some f)
unfolding dup2
dup2-open t k n f h = ap (λ o. elim o [ none ↦ t | some g ↦ set t n (some g) ]) h

-- A child closes one end `d`, and moves the other one `k` to the descriptor `n`.
moved : Table → ℕ → ℕ → ℕ → File → Table
moved t d k n f = set (set (set t d none) n (some f)) k none

move_end-moved :
    (t : Table) (d k n : ℕ) (f : File)
    → d ≢ k
    → file_of t k ≡ some f
    → close (dup2 (close t d) k n) k ≡ moved t d k n f
unfolding close moved
move_end-moved t d k n f dk is =
    ap (λ u. set u k none) (dup2-open (set t d none) k n f (get_or-set_ne t none none dk ∙ is))

moved-target :
    (t : Table) (d k n : ℕ) (f : File) → k ≢ n → n < length t → file_of (moved t d k n f) n ≡ some f
unfolding moved
moved-target t d k n f kn ln =
    let t1 : Table = set t d none in
    get_or-set_ne (set t1 n (some f)) none none kn
    ∙ get_or-set_self t1 n (some f) none (omega (arith, ln, length-set t d none))

moved-kept :
    (t : Table) (d k n fd : ℕ) (f : File)
    → d < length t
    → k < length t
    → d ≢ n
    → fd ≢ n
    → (file_of (moved t d k n f) fd ≡ none)
      ⊎ ((fd ≢ d) × (fd ≢ k) × (file_of (moved t d k n f) fd ≡ file_of t fd))
unfolding moved
moved-kept t d k n fd f ld lk dn nn =
    let t1 : Table = set t d none in
    let t2 : Table = set t1 n (some f) in
    let room : length t2 ≡ length t = length-set t1 n (some f) ∙ length-set t d none in
    elim (ℕ_discrete fd k) [
      | yes e ↦ inl (
          ap (file_of (set t2 k none)) e ∙ get_or-set_self t2 k none none (omega (arith, lk, room)))
      | no nk ↦
          let out : file_of (set t2 k none) fd ≡ file_of t2 fd =
            get_or-set_ne t2 none none (λ e. nk (sym e)) in
          let back : file_of t2 fd ≡ file_of t1 fd =
            get_or-set_ne t1 (some f) none (λ e. nn (sym e)) in
          elim (ℕ_discrete fd d) [
            | yes e ↦ inl (out ∙ back ∙ ap (file_of t1) e ∙ get_or-set_self t d none none ld)
            | no nd ↦ inr (nd, nk, out ∙ back ∙ get_or-set_ne t none none (λ e. nd (sym e)))
          ]
    ]

NoEnd : Option File → Type 0
NoEnd o = (o ≢ some read_end) × (o ≢ some write_end)

moved-NoEnd :
    (t0 t : Table) (d k n fd : ℕ) (f : File)
    → NoEnds t0
    → d < length t
    → k < length t
    → d ≢ n
    → fd ≢ n
    → ((i : ℕ) → i ≢ d → i ≢ k → file_of t i ≡ file_of t0 i)
    → NoEnd (file_of (moved t d k n f) fd)
unfolding NoEnd
moved-NoEnd t0 t d k n fd f none0 ld lk dn nn others = elim (moved-kept t d k n fd f ld lk dn nn) [
  | inl e ↦ ((λ h. cc), λ h. cc)
  | inr u ↦
      let same : file_of (moved t d k n f) fd ≡ file_of t0 fd = u.2 ∙ others fd u.0 u.1 in
      ((λ h. (none0 fd).0 (sym same ∙ h)), λ h. (none0 fd).1 (sym same ∙ h))
]

moved-OnlyAt :
    (t0 t t' : Table) (d k n : ℕ) (f : File)
    → NoEnds t0
    → d < length t
    → k < length t
    → n < length t
    → d ≢ n
    → k ≢ n
    → ((i : ℕ) → i ≢ d → i ≢ k → file_of t i ≡ file_of t0 i)
    → t' ≡ moved t d k n f
    → OnlyAt n f t'
unfolding NoEnd
moved-OnlyAt t0 t t' d k n f none0 ld lk ln dn kn others e = (
  ap (λ u. file_of u n) e ∙ moved-target t d k n f kn ln,
  λ fd nn.
      let free : NoEnd (file_of (moved t d k n f) fd) =
        moved-NoEnd t0 t d k n fd f none0 ld lk dn nn others in
      (
        (λ h. free.0 (sym (ap (λ u. file_of u fd) e) ∙ h)),
        λ h. free.1 (sym (ap (λ u. file_of u fd) e) ∙ h),
      ),
)

closed-NoEnds :
    (t t' : Table) (r w fd : ℕ)
    → NoEnds t
    → IsPipe t t' r w
    → (file_of (parent t' r w) fd ≢ some read_end) × (file_of (parent t' r w) fd ≢ some write_end)
unfolding parent close
closed-NoEnds t t' r w fd none0 p =
    let t1 : Table = set t' r none in
    elim (ℕ_discrete fd w) [
      | yes e ↦
          let shut : file_of (set t1 w none) fd ≡ none =
            ap (file_of (set t1 w none)) e
            ∙ get_or-set_self t1 w none none (omega (arith, p.write_in, length-set t' r none)) in
          ((λ h. cc), λ h. cc)
      | no nw ↦
          let out : file_of (set t1 w none) fd ≡ file_of t1 fd =
            get_or-set_ne t1 none none (λ e. nw (sym e)) in
          elim (ℕ_discrete fd r) [
            | yes e ↦
                let shut : file_of (set t1 w none) fd ≡ none =
                  out ∙ ap (file_of t1) e ∙ get_or-set_self t' r none none p.read_in in
                ((λ h. cc), λ h. cc)
            | no nr ↦
                let same : file_of (set t1 w none) fd ≡ file_of t fd =
                  out ∙ get_or-set_ne t' none none (λ e. nr (sym e)) ∙ p.rest fd nr nw in
                ((λ h. (none0 fd).0 (sym same ∙ h)), λ h. (none0 fd).1 (sym same ∙ h))
          ]
    ]

is_taken : (t : Table) (n fd : ℕ) → file_of t n ≢ none → file_of t fd ≡ none → fd ≢ n
is_taken t n fd taken free e = taken (sym (ap (file_of t) e) ∙ free)

stays_open : (t t' : Table) (r w n : ℕ) → IsPipe t t' r w → file_of t n ≢ none → n < length t'
stays_open t t' r w n p taken =
    let nr : r ≢ n = is_taken t n r taken p.free_read in
    let nw : w ≢ n = is_taken t n w taken p.free_write in
    let same : file_of t' n ≡ file_of t n = p.rest n (λ e. nr (sym e)) (λ e. nw (sym e)) in
    open-lt-length t' n (λ e. taken (sym same ∙ e))

children_plumbing :
    (t : Table) (x : Table × ℕ × ℕ)
    → NoEnds t
    → file_of t 0 ≢ none
    → file_of t 1 ≢ none
    → pipe t ≡ some x
    → OnlyAt 1 write_end (first_child x.0 x.1 x.2)
      × OnlyAt 0 read_end (second_child x.0 x.1 x.2)
      × NoEnds (parent x.0 x.1 x.2)
unfolding first_child second_child
children_plumbing t (t', r, w) none0 in0 out1 h =
    let p : IsPipe t t' r w = pipe-IsPipe t (t', r, w) h in
    (
      moved-OnlyAt t t' (first_child t' r w) r w 1 write_end none0 p.read_in p.write_in
          (stays_open t t' r w 1 p out1) (is_taken t 1 r out1 p.free_read)
          (is_taken t 1 w out1 p.free_write) p.rest
          (move_end-moved t' r w 1 write_end p.apart p.writes),
      moved-OnlyAt t t' (second_child t' r w) w r 0 read_end none0 p.write_in p.read_in
          (stays_open t t' r w 0 p in0) (is_taken t 0 w in0 p.free_write)
          (is_taken t 0 r in0 p.free_read) (λ i nw nr. p.rest i nr nw)
          (move_end-moved t' w r 0 read_end (λ e. p.apart (sym e)) p.reads),
      λ fd. closed-NoEnds t t' r w fd none0 p,
    )

-- Both children and the parent have the descriptors of the pipe that they should have.
pub IsPlumbed : Outcome → Type 0
IsPlumbed usage = ⊥
IsPlumbed pipe_failed = ⊥
IsPlumbed (started p q waiting) =
    OnlyAt 1 write_end p.table × OnlyAt 0 read_end q.table × NoEnds waiting

-- The program has two commands and starts with its standard input and output open, with no end of
-- another pipe, and `pipe` succeeds: then the first command has the end for writing as its standard output and no other
-- descriptor of the pipe, the second one has the end for reading as its standard input and no other,
-- and the parent that waits has none. So nobody but the first command can write to the pipe, and the
-- second one sees the end of its input when the first one has ended.
pub main_plumbing :
    (t : Table) (c1 c2 : List ℕ) (more : List (List ℕ)) (x : Ends)
    → NoEnds t
    → file_of t 0 ≢ none
    → file_of t 1 ≢ none
    → pipe t ≡ some x
    → IsPlumbed (main t (c1 ∷ c2 ∷ more))
unfolding main IsPlumbed start_both
main_plumbing t c1 c2 more x none0 in0 out1 h =
    subst (λ o. IsPlumbed (start_both c1 c2 o)) (sym h) (children_plumbing t x none0 in0 out1 h)
