-- ===== src/Terminal/Password.antt =====
-- lab4-lyjae/pw_input.c: the loop that reads a password. Behind the inputs
-- `getchar` returns EOF, which is stored as the byte 255.
use systemprogramming.Base.{
  ℕ, zero, suc, ◌+◌, ◌-◌, ◌≤◌, ◌<◌, ◌≡◌, refl, sym, ap, ap₂, ◌∙◌, arith, Bool, ◌||◌, ◌==◌, ltb,
  List, [], ◌∷◌, ◌++◌, if◌then◌else◌, length, take, set, replicate, length-set, length-append,
  length-replicate, length-take, take-take_less, append-nil, append_assoc, Bool-cases, inl, inr,
}
use native.Mathlib.Numerals.{add-one}

abbrev pub max_password_length : ℕ
max_password_length = 128

-- `password` and `index`.
pub record Entry : Type 0 where
  pub password : List ℕ
  pub index : ℕ

abbrev pub started : Entry
started = record { password = replicate max_password_length 0; index = 0 }

abbrev pub is_erase : ℕ → Bool
is_erase c = c == 127 || c == 8

-- What is done with a character that is no end of line.
unfoldable pub enter : ℕ → Entry → Entry
enter c s =
    if is_erase c
    then (if ltb 0 s.index then record s { index = s.index - 1 } else s)
    else record { password = set s.password s.index c; index = s.index + 1 }

-- The rounds behind the end of the input.
unfoldable pub fill : ℕ → Entry → Entry
unfolding enter
fill zero s = s
fill (suc n) s = fill n (enter 255 s)

-- The loop of `main`.
unfoldable pub read_password : List ℕ → Entry → Entry
unfolding enter fill
read_password [] s = fill (max_password_length - 1 - s.index) s
read_password (c ∷ cs) s =
    let rest = read_password cs (enter c s) in
    if ltb s.index (max_password_length - 1) then (if c == 10 || c == 13 then s else rest) else s

-- The same on a text alone: a character is added at the end, an erase takes the last one off.
abbrev pub edit : List ℕ → ℕ → List ℕ
edit text c = if is_erase c then take (length text - 1) text else text ++ c ∷ []

abbrev pub typed : List ℕ → List ℕ → List ℕ
typed [] text = text ++ replicate (max_password_length - 1 - length text) 255
typed (c ∷ cs) text =
    let rest = typed cs (edit text c) in
    if ltb (length text) (max_password_length - 1)
    then (if c == 10 || c == 13 then text else rest)
    else text

take-set_next :
    (xs : List ℕ) (i v : ℕ) → i < length xs → take (suc i) (set xs i v) ≡ take i xs ++ v ∷ []
take-set_next [] i v h = absurd (omega arith)
take-set_next (x ∷ xs) zero v h = refl
take-set_next (x ∷ xs) (suc i) v h = ap (λ t. x ∷ t) (take-set_next xs i v (omega arith))

-- The array holds this text before its index.
record Holds (s : Entry) (text : List ℕ) : Type 0 where
  room : length s.password ≡ max_password_length
  at_end : s.index ≡ length text
  same : take s.index s.password ≡ text
  fits : s.index ≤ max_password_length - 1

erase-Holds :
    (s : Entry) (text : List ℕ)
    → Holds s text
    → Holds
        (if ltb 0 s.index then record s { index = s.index - 1 } else s)
        (take (length text - 1) text)
erase-Holds s text h = elim (Bool-cases (ltb 0 s.index)) [
  | inl e ↦ rw e (record {
    room = h.room;
    at_end = omega (arith, h.at_end, length-take (length text - 1) text);
    same =
        sym (take-take_less s.password (s.index - 1) s.index (omega arith))
        ∙ ap₂ (λ k t. take (k - 1) t) h.at_end h.same;
    fits = omega (arith, h.fits);
  })
  | inr e ↦
      let none : s.index ≡ 0 = ground (arith, e) in
      let kept : 0 ≡ length text - 1 = omega (arith, h.at_end) in
      rw e (record {
        room = h.room;
        at_end = omega (arith, h.at_end, length-take (length text - 1) text);
        same = ap (λ k. take k s.password) none ∙ ap (λ k. take k text) kept;
        fits = h.fits;
      })
]

enter-Holds :
    (c : ℕ) (s : Entry) (text : List ℕ)
    → s.index < max_password_length - 1
    → Holds s text
    → Holds (enter c s) (edit text c)
unfolding enter
enter-Holds c s text less h = elim (Bool-cases (is_erase c)) [
  | inl e ↦ rw e (erase-Holds s text h)
  | inr e ↦ rw e (record {
    room = length-set s.password s.index c ∙ h.room;
    at_end = omega (arith, h.at_end, length-append text (c ∷ []));
    same =
        ap (λ k. take k (set s.password s.index c)) (add-one s.index)
        ∙ take-set_next s.password s.index c (omega (arith, h.room))
        ∙ ap (λ t. t ++ c ∷ []) h.same;
    fits = omega arith;
  })
]

fill-Holds :
    (n : ℕ) (s : Entry) (text : List ℕ)
    → s.index + n ≡ max_password_length - 1
    → Holds s text
    → Holds (fill n s) (text ++ replicate n 255)
unfolding fill enter
fill-Holds zero s text e h = rw (append-nil text) h
fill-Holds (suc n) s text e h = rw (← append_assoc text (255 ∷ []) (replicate n 255)) (
    fill-Holds n (enter 255 s) (text ++ 255 ∷ []) (omega arith)
      (enter-Holds 255 s text (omega arith) h))

read_password-Holds :
    (cs : List ℕ) (s : Entry) (text : List ℕ)
    → Holds s text
    → Holds (read_password cs s) (typed cs text)
unfolding read_password
read_password-Holds [] s text h =
    rw (← h.at_end)
      (fill-Holds (max_password_length - 1 - s.index) s text (omega (arith, h.fits)) h)
read_password-Holds (c ∷ cs) s text h =
    let same_test : ltb s.index (max_password_length - 1)
        ≡ ltb (length text) (max_password_length - 1) =
      ap (λ k. ltb k (max_password_length - 1)) h.at_end in
    elim (Bool-cases (ltb s.index (max_password_length - 1))) [
      | inr e ↦ rw (e, sym same_test ∙ e) h
      | inl e ↦ elim (Bool-cases (c == 10 || c == 13)) [
        | inl b ↦ rw (e, sym same_test ∙ e, b) h
        | inr b ↦
            rw (e, sym same_test ∙ e, b)
              (read_password-Holds cs (enter c s) (edit text c)
                (enter-Holds c s text (ground (arith, e)) h))
      ]
    ]

-- Whatever is typed, the array behind the loop holds, before its index, the text that editing the
-- characters at the end gives, and the index leaves room for the terminator.
pub read_password-typed :
    (cs : List ℕ)
    → let s = read_password cs started in
      (take s.index s.password ≡ typed cs []) × (s.index < length s.password)
read_password-typed cs =
    let h = read_password-Holds cs started [] (record {
      room = length-replicate {A = ℕ} max_password_length 0;
      at_end = refl;
      same = refl;
      fits = omega arith;
    }) in
    (h.same, omega (arith, h.fits, h.room))
