-- ===== src/Terminal/Editor.antt =====
-- lab5-lyjae/editor.c: the lines, and the file that the signals save them to. A signal arrives between
-- two lines; the argument of its event says whether `fopen` succeeds.
use systemprogramming.Base.{
  ℕ, zero, suc, ◌≤◌, ◌≡◌, refl, sym, ap, ◌∙◌, arith, Bool, true, false, ltb, List, [], ◌∷◌, ◌++◌,
  Option, none, some, if◌then◌else◌, length, take, take-all, append-nil, append_assoc,
  length-append, Bool-cases, inl, inr,
}
use mathlib.Core.List.{flatten}

abbrev pub max_lines : ℕ
max_lines = 100

abbrev pub Line : Type 0
Line = List ℕ

-- `lines` and `line_count`, and the contents of the file `autosave.txt`.
pub record Editor : Type 0 where
  pub lines : List Line
  pub file : Option (List ℕ)

-- The `fputs` of the lines in order.
pub put_lines : List Line → List ℕ
put_lines [] = []
put_lines (l ∷ ls) = l ++ put_lines ls

pub save_lines : Bool → Editor → Editor
unfolding put_lines
save_lines true s = record s { file = some (put_lines s.lines) }
save_lines false s = s

-- What happens next: `fgets` returns a line or nothing, or one of the two signals arrives.
pub data Event : Type 0 where
  typed : Line → Event
  nothing : Event
  alarm : Bool → Event
  interrupt : Bool → Event

-- A line beyond the last is dropped with a message.
pub add_line : Line → Editor → Editor
add_line l s = if ltb (length s.lines) max_lines then record s { lines = s.lines ++ l ∷ [] } else s

-- The loop of `main` with the handlers; `SIGINT` ends the program.
pub run : List Event → Editor → Editor
unfolding save_lines add_line
run [] s = s
run (typed l ∷ es) s = run es (add_line l s)
run (nothing ∷ es) s = run es s
run (alarm ok ∷ es) s = run es (save_lines ok s)
run (interrupt ok ∷ es) s = save_lines ok s

abbrev pub started : Editor
started = record { lines = []; file = none }

-- The lines that the events type, and whether none of them is `SIGINT`.
abbrev pub typed_lines : List Event → List Line
typed_lines [] = []
typed_lines (typed l ∷ es) = l ∷ typed_lines es
typed_lines (nothing ∷ es) = typed_lines es
typed_lines (alarm ok ∷ es) = typed_lines es
typed_lines (interrupt ok ∷ es) = typed_lines es

abbrev pub AllQuiet : List Event → Type 0
AllQuiet [] = Unit
AllQuiet (typed l ∷ es) = AllQuiet es
AllQuiet (nothing ∷ es) = AllQuiet es
AllQuiet (alarm ok ∷ es) = AllQuiet es
AllQuiet (interrupt ok ∷ es) = ⊥

take-append_le : (n : ℕ) (xs ys : List Line) → n ≤ length xs → take n (xs ++ ys) ≡ take n xs
take-append_le zero xs ys h = refl
take-append_le (suc n) [] ys h = absurd (omega arith)
take-append_le (suc n) (x ∷ xs) ys h = ap (λ t. x ∷ t) (take-append_le n xs ys (omega arith))

lines-save_lines : (ok : Bool) (s : Editor) → (save_lines ok s).lines ≡ s.lines
unfolding save_lines
lines-save_lines true s = refl
lines-save_lines false s = refl

-- The lines that are kept after a line is read.
add_line-take :
    (l : Line) (s : Editor) (more : List Line)
    → length s.lines ≤ max_lines
    → (length (add_line l s).lines ≤ max_lines)
      × (take max_lines ((add_line l s).lines ++ more) ≡ take max_lines (s.lines ++ l ∷ more))
unfolding add_line
add_line-take l s more h = elim (Bool-cases (ltb (length s.lines) max_lines)) [
  | inl e ↦ rw e (
    ground (arith, e, length-append s.lines (l ∷ [])),
    ap (take max_lines) (append_assoc s.lines (l ∷ []) more),
  )
  | inr e ↦ rw e (
    h,
    take-append_le max_lines s.lines more (ground (arith, e))
        ∙ sym (take-append_le max_lines s.lines (l ∷ more) (ground (arith, e))),
  )
]

run-interrupt :
    (es : List Event) (s : Editor) (rest : List Event)
    → AllQuiet es
    → length s.lines ≤ max_lines
    → (run (es ++ interrupt true ∷ rest) s).file
      ≡ some (put_lines (take max_lines (s.lines ++ typed_lines es)))
unfolding run save_lines
run-interrupt [] s rest q h =
    let all : take max_lines (s.lines ++ []) ≡ s.lines =
      rw (append-nil s.lines) (take-all max_lines s.lines h) in
    ap (λ t. some (put_lines t)) (sym all)
run-interrupt (typed l ∷ es) s rest q h =
    let kept = add_line-take l s (typed_lines es) h in
    run-interrupt es (add_line l s) rest q kept.0 ∙ ap (λ t. some (put_lines t)) kept.1
run-interrupt (nothing ∷ es) s rest q h = run-interrupt es s rest q h
run-interrupt (alarm ok ∷ es) s rest q h =
    let same = lines-save_lines ok s in
    run-interrupt es (save_lines ok s) rest q (rw same h)
    ∙ ap (λ t. some (put_lines (take max_lines (t ++ typed_lines es)))) same
run-interrupt (interrupt ok ∷ es) s rest q h = elim q [ ]

put_lines-flatten : (ls : List Line) → put_lines ls ≡ flatten ls
unfolding put_lines flatten
put_lines-flatten [] = refl
put_lines-flatten (l ∷ ls) = ap (λ t. l ++ t) (put_lines-flatten ls)

-- When the program is ended by `SIGINT` and the file can be opened, the file holds the bytes of the
-- lines that were typed before, one line behind the other, of all of them up to 100 and of the first
-- 100 otherwise, whatever was saved by the alarms in between.
pub interrupt-saves :
    (es rest : List Event)
    → AllQuiet es
    → (run (es ++ interrupt true ∷ rest) started).file ≡ some (flatten (take 100 (typed_lines es)))
interrupt-saves es rest q =
    run-interrupt es started rest q (omega arith)
    ∙ ap some (put_lines-flatten (take max_lines (typed_lines es)))
