-- ===== src/Terminal/Echo.antt =====
-- lab4-lyjae/pw_input.c: what the loop prints while a password is read, and what a terminal without
-- echo shows behind it, on a line that is long enough for the prompt and all the stars.
use systemprogramming.Base.{
  ℕ, zero, suc, ◌+◌, ◌-◌, ◌≡◌, refl, sym, ap, ◌∙◌, arith, ◌||◌, ◌==◌, ltb, List, [], ◌∷◌, ◌++◌,
  if◌then◌else◌, replicate, Bool-cases, inl, inr, length, length-take, length-append,
  length-replicate,
}
use mathlib.Core.Path.{subst}
use native.Mathlib.Numerals.{add-one}
use systemprogramming.CString.{codes}
use systemprogramming.Terminal.Password.{
  max_password_length, Entry, started, is_erase, enter, fill, read_password, typed,
  read_password-typed,
}

-- What is printed for a character that is no end of line.
abbrev pub echo : ℕ → Entry → List ℕ
echo c s = if is_erase c then (if ltb 0 s.index then 8 ∷ b' ' ∷ 8 ∷ [] else []) else b'*' ∷ []

unfoldable fill_echo : ℕ → Entry → List ℕ
fill_echo zero s = []
fill_echo (suc n) s = echo 255 s ++ fill_echo n (enter 255 s)

-- What `read_password` prints.
unfoldable pub outputs : List ℕ → Entry → List ℕ
unfolding fill_echo
outputs [] s = fill_echo (max_password_length - 1 - s.index) s
outputs (c ∷ cs) s =
    let rest = echo c s ++ outputs cs (enter c s) in
    if ltb s.index (max_password_length - 1) then (if c == 10 || c == 13 then [] else rest) else []

-- A line of the terminal: what stands left of the cursor, from the cursor to the left, and the rest
-- from the cursor on.
pub record Line : Type 0 where
  pub left : List ℕ
  pub right : List ℕ

abbrev pub tail : List ℕ → List ℕ
tail [] = []
tail (b ∷ bs) = bs

abbrev pub back : List ℕ → List ℕ → Line
back [] right = record { left = []; right = right }
back (b ∷ bs) right = record { left = bs; right = b ∷ right }

-- `\b` goes back, any other byte is written over what is at the cursor.
abbrev pub tty : ℕ → Line → Line
tty b l = if b == 8 then back l.left l.right else record { left = b ∷ l.left; right = tail l.right }

unfoldable pub ttys : List ℕ → Line → Line
ttys [] l = l
ttys (b ∷ bs) l = ttys bs (tty b l)

ttys-append : (bs cs : List ℕ) (l : Line) → ttys (bs ++ cs) l ≡ ttys cs (ttys bs l)
unfolding ttys
ttys-append [] cs l = refl
ttys-append (b ∷ bs) cs l = ttys-append bs cs (tty b l)

-- So many stars behind the prompt, and nothing behind the cursor.
pub record ShowsStars (prompt : List ℕ) (n : ℕ) (l : Line) : Type 0 where
  pub stars : l.left ≡ replicate n b'*' ++ prompt
  pub blanks : ℕ
  pub blank : l.right ≡ replicate blanks b' '

tail-replicate : (n b : ℕ) → tail (replicate n b) ≡ replicate (n - 1) b
tail-replicate zero b = refl
tail-replicate (suc n) b = let e : suc n - 1 ≡ n = omega arith in rw e refl

add-ShowsStars :
    (prompt : List ℕ) (n : ℕ) (l : Line)
    → ShowsStars prompt n l
    → ShowsStars prompt (suc n) (ttys (b'*' ∷ []) l)
unfolding ttys
add-ShowsStars prompt n l h = record {
  stars = ap (λ t. b'*' ∷ t) h.stars;
  blanks = h.blanks - 1;
  blank = ap tail h.blank ∙ tail-replicate h.blanks b' ';
}

erased :
    (b : ℕ) (bs : List ℕ) (l : Line)
    → l.left ≡ b ∷ bs
    → ttys (8 ∷ b' ' ∷ 8 ∷ []) l ≡ record { left = bs; right = b' ' ∷ l.right }
unfolding ttys
erased b bs l h = rw h refl

erase-ShowsStars :
    (prompt : List ℕ) (n : ℕ) (l : Line)
    → ShowsStars prompt (suc n) l
    → ShowsStars prompt n (ttys (8 ∷ b' ' ∷ 8 ∷ []) l)
erase-ShowsStars prompt n l h =
    rw (erased b'*' (replicate n b'*' ++ prompt) l h.stars)
      (record { stars = refl; blanks = suc h.blanks; blank = ap (λ t. b' ' ∷ t) h.blank })

module _ (prompt : List ℕ) where
  echo-ShowsStars :
      (c : ℕ) (s : Entry) (l : Line)
      → ShowsStars prompt s.index l
      → ShowsStars prompt (enter c s).index (ttys (echo c s) l)
  unfolding enter ttys
  echo-ShowsStars c s l h = elim (Bool-cases (is_erase c)) [
    | inl e ↦ elim (Bool-cases (ltb 0 s.index)) [
      | inl some ↦
          let more : s.index ≡ suc (s.index - 1) = ground (arith, some) in
          rw (e, some)
            (erase-ShowsStars prompt (s.index - 1) l (subst (λ n. ShowsStars prompt n l) more h))
      | inr none ↦ rw (e, none) h
    ]
    | inr e ↦ rw e (
        subst (λ n. ShowsStars prompt n (ttys (b'*' ∷ []) l)) (sym (add-one s.index))
          (add-ShowsStars prompt s.index l h))
  ]

  fill_echo-ShowsStars :
      (n : ℕ) (s : Entry) (l : Line)
      → ShowsStars prompt s.index l
      → ShowsStars prompt (fill n s).index (ttys (fill_echo n s) l)
  unfolding fill fill_echo ttys
  fill_echo-ShowsStars zero s l h = h
  fill_echo-ShowsStars (suc n) s l h =
      rw (ttys-append (echo 255 s) (fill_echo n (enter 255 s)) l)
        (fill_echo-ShowsStars n (enter 255 s) (ttys (echo 255 s) l) (echo-ShowsStars 255 s l h))

  pub outputs-ShowsStars :
      (cs : List ℕ) (s : Entry) (l : Line)
      → ShowsStars prompt s.index l
      → ShowsStars prompt (read_password cs s).index (ttys (outputs cs s) l)
  unfolding read_password outputs ttys
  outputs-ShowsStars [] s l h = fill_echo-ShowsStars (max_password_length - 1 - s.index) s l h
  outputs-ShowsStars (c ∷ cs) s l h = elim (Bool-cases (ltb s.index (max_password_length - 1))) [
    | inr e ↦ rw e h
    | inl e ↦ elim (Bool-cases (c == 10 || c == 13)) [
      | inl b ↦ rw (e, b) h
      | inr b ↦
          rw (e, b, ttys-append (echo c s) (outputs cs (enter c s)) l)
            (outputs-ShowsStars cs (enter c s) (ttys (echo c s) l) (echo-ShowsStars c s l h))
    ]
  ]

abbrev pub prompt_text : List ℕ
prompt_text = codes "Enter your password: "

-- All that is printed before the end of the loop, from a blank line.
abbrev pub line_after : List ℕ → Line
line_after cs = ttys (prompt_text ++ outputs cs started) (record { left = []; right = [] })

-- The cells of a line, from the first one on.
abbrev pub cells_from : List ℕ → List ℕ → List ℕ
cells_from [] right = right
cells_from (b ∷ bs) right = cells_from bs (b ∷ right)

abbrev pub cells : Line → List ℕ
cells l = cells_from l.left l.right

replicate_swap : (n b : ℕ) (bs : List ℕ) → replicate n b ++ (b ∷ bs) ≡ b ∷ (replicate n b ++ bs)
replicate_swap zero b bs = refl
replicate_swap (suc n) b bs = ap (λ t. b ∷ t) (replicate_swap n b bs)

cells_from-replicate :
    (n b : ℕ) (left right : List ℕ)
    → cells_from (replicate n b ++ left) right ≡ cells_from left (replicate n b ++ right)
cells_from-replicate zero b left right = refl
cells_from-replicate (suc n) b left right =
    cells_from-replicate n b left (b ∷ right) ∙ ap (cells_from left) (replicate_swap n b right)

shown-ShowsStars :
    (cs : List ℕ) → ShowsStars (cells_from prompt_text []) (length (typed cs [])) (line_after cs)
unfolding ttys
shown-ShowsStars cs =
    let s : Entry = read_password cs started in
    let typed_lem = read_password-typed cs in
    let count : s.index ≡ length (typed cs []) =
      omega (arith, length-take s.index s.password, typed_lem.1, ap length typed_lem.0) in
    subst (λ n. ShowsStars (cells_from prompt_text []) n (line_after cs)) count
      (outputs-ShowsStars (cells_from prompt_text []) cs started
        (record { left = cells_from prompt_text []; right = [] })
        (record { stars = refl; blanks = 0; blank = refl }))

-- On a line with room for the prompt and 127 stars: whatever is typed, the line behind the loop is the prompt, one star for each character of the text
-- that editing the characters gives, and then only blanks, with the cursor behind the stars.
pub shown-cells :
    (cs : List ℕ)
    → let n = length (typed cs []) in
      ((k : ℕ) × (cells (line_after cs) ≡ prompt_text ++ (replicate n b'*' ++ replicate k b' ')))
      × (length (line_after cs).left ≡ length prompt_text + n)
shown-cells cs =
    let n : ℕ = length (typed cs []) in
    let h = shown-ShowsStars cs in
    let prompt : List ℕ = cells_from prompt_text [] in
    (
      (
        h.blanks,
        ap (λ t. cells_from t (line_after cs).right) h.stars
            ∙ cells_from-replicate n b'*' prompt (line_after cs).right
            ∙ ap (λ t. cells_from prompt (replicate n b'*' ++ t)) h.blank,
      ),
      ap length h.stars
          ∙ length-append (replicate n b'*') prompt
          ∙ omega (arith, length-replicate {A = ℕ} n b'*'),
    )
