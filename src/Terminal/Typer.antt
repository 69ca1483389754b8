-- ===== src/Terminal/Typer.antt =====
-- lab4-lyjae/typer.c: the loop that reads the typed text and counts the correct characters. The
-- terminal and the clock are left out. The target is shorter than the array `user_input`.
use native.Mathlib.Numerals.{add-one}
use systemprogramming.Base.{
  ℕ, zero, suc, ◌+◌, ◌-◌, ◌≤◌, ◌<◌, ◌≡◌, refl, sym, ap, ◌∙◌, arith, Bool, true, false, ◌||◌, ◌==◌,
  ltb, List, [], ◌∷◌, if◌then◌else◌, length, get_or, set, length-set, get_or-set_self,
  get_or-set_ne, replicate, length-replicate, Bool-cases, inl, inr,
}

abbrev pub max_input : ℕ
max_input = 1024

-- The variables of the loop.
pub record Typing : Type 0 where
  pub correct : ℕ
  pub typed_count : ℕ
  pub idx : ℕ
  pub user_input : List ℕ

abbrev pub started : Typing
started = record { correct = 0; typed_count = 0; idx = 0; user_input = replicate max_input 0 }

-- Whether the character of an index is right.
abbrev pub is_right : List ℕ → List ℕ → ℕ → Bool
is_right user target i = get_or user i 0 == get_or target i 0

-- A backspace.
pub erase : List ℕ → Typing → Typing
erase target s =
    if ltb 0 s.idx
    then record s {
      idx = s.idx - 1;
      typed_count = s.typed_count - 1;
      correct = if is_right s.user_input target (s.idx - 1) then s.correct - 1 else s.correct;
    }
    else s

-- Another character.
pub enter : List ℕ → ℕ → Typing → Typing
enter target c s = record {
  user_input = set s.user_input s.idx c;
  correct = if c == get_or target s.idx 0 then s.correct + 1 else s.correct;
  idx = s.idx + 1;
  typed_count = s.typed_count + 1;
}

-- The loop over the characters that `read` stores.
pub type_text : List ℕ → List ℕ → Typing → Typing
unfolding erase enter
type_text target [] s = s
type_text target (c ∷ cs) s =
    let erased = type_text target cs (erase target s) in
    let entered = type_text target cs (enter target c s) in
    if ltb s.idx (length target) then (if c == 127 || c == 8 then erased else entered) else s

-- The right characters before an index.
abbrev pub matches : List ℕ → List ℕ → ℕ → ℕ
matches user target zero = 0
matches user target (suc i) = (if is_right user target i then 1 else 0) + matches user target i

pub record Inv (target : List ℕ) (s : Typing) : Type 0 where
  pub room : length s.user_input ≡ max_input
  pub counted : s.typed_count ≡ s.idx
  pub short : s.idx ≤ length target
  pub scored : s.correct ≡ matches s.user_input target s.idx

matches-set :
    (user target : List ℕ) (n i c : ℕ)
    → i ≤ n
    → matches (set user n c) target i ≡ matches user target i
matches-set user target n zero c h = refl
matches-set user target n (suc i) c h =
    rw
      (
        get_or-set_ne user {i = n} {j = i} c 0 (omega arith),
        matches-set user target n i c (omega arith),
      )
      refl

matches_bound : (user target : List ℕ) (i : ℕ) → matches user target i ≤ i
matches_bound user target zero = omega arith
matches_bound user target (suc i) = ground (arith, matches_bound user target i)

erase-matches :
    (user target : List ℕ) (i : ℕ)
    → 0 < i
    → (if is_right user target (i - 1) then matches user target i - 1 else matches user target i)
      ≡ matches user target (i - 1)
erase-matches user target zero h = absurd (omega arith)
erase-matches user target (suc i) h = ground arith

erase-Inv : (target : List ℕ) (s : Typing) → Inv target s → Inv target (erase target s)
unfolding erase
erase-Inv target s v = elim (Bool-cases (ltb 0 s.idx)) [
  | inr e ↦ rw e v
  | inl e ↦ rw e (record {
    room = v.room;
    counted = omega (arith, v.counted);
    short = omega (arith, v.short);
    scored = rw (v.scored) (erase-matches s.user_input target s.idx (ground (arith, e)));
  })
]

enter-matches :
    (user target : List ℕ) (n c : ℕ)
    → n < length user
    → matches (set user n c) target (n + 1)
      ≡ (if c == get_or target n 0 then 1 else 0) + matches user target n
enter-matches user target n c h =
    ap (matches (set user n c) target) (add-one n)
    ∙ rw (get_or-set_self user n c 0 h, matches-set user target n n c (omega arith)) refl

score_step : (b : Bool) (m : ℕ) → (if b then m + 1 else m) ≡ (if b then 1 else 0) + m
score_step true m = omega arith
score_step false m = omega arith

enter-Inv :
    (target : List ℕ) (c : ℕ) (s : Typing)
    → length target ≤ max_input
    → s.idx < length target
    → Inv target s
    → Inv target (enter target c s)
unfolding enter
enter-Inv target c s fits h v = record {
  room = length-set s.user_input s.idx c ∙ v.room;
  counted = omega (arith, v.counted);
  short = omega arith;
  scored =
      ap (λ m. if c == get_or target s.idx 0 then m + 1 else m) v.scored
      ∙ score_step (c == get_or target s.idx 0) (matches s.user_input target s.idx)
      ∙ sym (enter-matches s.user_input target s.idx c (omega (arith, v.room)));
}

type_text-Inv :
    (target cs : List ℕ) (s : Typing)
    → length target ≤ max_input
    → Inv target s
    → Inv target (type_text target cs s)
unfolding type_text
type_text-Inv target [] s fits v = v
type_text-Inv target (c ∷ cs) s fits v = elim (Bool-cases (ltb s.idx (length target))) [
  | inr e ↦ rw e v
  | inl e ↦ elim (Bool-cases (c == 127 || c == 8)) [
    | inl b ↦ rw (e, b) (type_text-Inv target cs (erase target s) fits (erase-Inv target s v))
    | inr b ↦
        rw (e, b)
          (type_text-Inv target cs (enter target c s) fits
            (enter-Inv target c s fits (ground (arith, e)) v))
  ]
]

-- For a target of at most 1024 bytes, after any text with any corrections: the counter of the typed
-- characters is the position, the counter of the right ones is the number of positions before it where
-- the text and the target agree, and so the accuracy is at most 100 percent.
pub typer-counts :
    (target cs : List ℕ)
    → length target ≤ max_input
    → let s = type_text target cs started in
      (s.typed_count ≡ s.idx)
      × (s.correct ≡ matches s.user_input target s.idx)
      × (s.correct ≤ s.typed_count)
typer-counts target cs fits =
    let v = type_text-Inv target cs started fits (record {
      room = length-replicate {A = ℕ} max_input 0;
      counted = refl;
      short = omega arith;
      scored = refl;
    }) in
    let s = type_text target cs started in
    (
      v.counted,
      v.scored,
      omega (arith, v.counted, v.scored, matches_bound s.user_input target s.idx),
    )
