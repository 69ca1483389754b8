-- ===== src/Terminal/Broadcaster.antt =====
-- lab4-lyjae/broadcaster.c: the terminals that the message is written to.
use systemprogramming.Base.{
  ℕ, ◌≡◌, refl, arith, Bool, true, false, ◌&&◌, ◌||◌, List, [], ◌∷◌, ◌++◌, if◌then◌else◌, take,
  Bool-cases, inl, inr,
}
use systemprogramming.Ctype.{is_digit}
use systemprogramming.CString.{codes, str_eq}

abbrev pub message : List ℕ → List ℕ
message text = take 1023 (codes "[Broadcast] " ++ text ++ 10 ∷ [])

-- The loop over the characters of a name.
pub is_numeric : List ℕ → Bool
is_numeric [] = true
is_numeric (c ∷ cs) = is_digit c && is_numeric cs

-- The names that the loop does not skip.
pub is_terminal : List ℕ → Bool
unfolding is_numeric
is_terminal name =
    if str_eq name (codes ".") || str_eq name (codes "..") then false else is_numeric name

abbrev pub device : List ℕ → List ℕ
device name = take 255 (codes "/dev/pts/" ++ name)

-- The devices that are written to, in the order of `readdir`, for those that `open` can open.
pub broadcast : (List ℕ → Bool) → List (List ℕ) → List (List ℕ)
unfolding is_terminal
broadcast can_open [] = []
broadcast can_open (name ∷ names) =
    let rest = broadcast can_open names in
    if is_terminal name && can_open (device name) then device name ∷ rest else rest

abbrev pub AllDigits : List ℕ → Type 0
AllDigits [] = Unit
AllDigits (c ∷ cs) = (is_digit c ≡ true) × AllDigits cs

-- A device of a numeric name that can be opened.
pub record IsOpen (can_open : List ℕ → Bool) (path : List ℕ) : Type 0 where
  pub name : List ℕ
  pub named : path ≡ device name
  pub digits : AllDigits name
  pub opened : can_open path ≡ true

abbrev pub AllOpen : (List ℕ → Bool) → List (List ℕ) → Type 0
AllOpen can_open [] = Unit
AllOpen can_open (p ∷ ps) = IsOpen can_open p × AllOpen can_open ps

is_numeric-AllDigits : (name : List ℕ) → is_numeric name ≡ true → AllDigits name
unfolding is_numeric
is_numeric-AllDigits [] h = tt
is_numeric-AllDigits (c ∷ cs) h = (ground (arith, h), is_numeric-AllDigits cs (ground (arith, h)))

and_true : (a b : Bool) → (a && b) ≡ true → (a ≡ true) × (b ≡ true)
and_true true b h = (refl, h)
and_true false b h = cc

is_terminal-AllDigits : (name : List ℕ) → is_terminal name ≡ true → AllDigits name
unfolding is_terminal
is_terminal-AllDigits name h =
    elim (Bool-cases (str_eq name (codes ".") || str_eq name (codes ".."))) [
      | inl e ↦ cc
      | inr e ↦ is_numeric-AllDigits name (rw e at h)
    ]

-- The message goes to no file but the devices under /dev/pts whose name has only digits and that can be opened,
-- whatever the directory holds.
pub broadcast-AllOpen :
    (can_open : List ℕ → Bool) (names : List (List ℕ)) → AllOpen can_open (broadcast can_open names)
unfolding broadcast
broadcast-AllOpen can_open [] = tt
broadcast-AllOpen can_open (name ∷ names) =
    elim (Bool-cases (is_terminal name && can_open (device name))) [
      | inl e ↦ rw e (
        record {
          name = name;
          named = refl;
          digits = is_terminal-AllDigits name (and_true (is_terminal name) _ e).0;
          opened = (and_true (is_terminal name) _ e).1;
        },
        broadcast-AllOpen can_open names,
      )
      | inr e ↦ rw e (broadcast-AllOpen can_open names)
    ]
