-- ===== src/Shell/Parse.antt =====
-- `expand_variables`, `parse_command` and `is_blank_line` of lab7-lyjae/mini-shell-2.c.
use systemprogramming.Base.{
  ℕ, ◌-◌, ◌≤◌, ◌≡◌, refl, ap, ◌∙◌, arith, Bool, true, false, ◌&&◌, ◌||◌, ◌==◌, ltb, List, [], ◌∷◌,
  ◌++◌, Option, none, some, if◌then◌else◌, take, length, append-nil, append_assoc, take-all,
  length-take,
}
use systemprogramming.Ctype.{is_alnum, is_space}
use systemprogramming.CString.{strtok, strncpy}
use systemprogramming.Shell.Vars.{Vars, get_var_value}

abbrev pub max_line : ℕ
max_line = 1024

abbrev pub max_args : ℕ
max_args = 64

unfoldable pub is_name_char : ℕ → Bool
is_name_char c = is_alnum c || c == b'_'

-- Where `expand_variables` stands: outside a name, or behind a `$` and these characters of a name.
abbrev pub Mode : Type 0
Mode = Option (List ℕ)

unfoldable pub next_mode : Mode → ℕ → Mode
unfolding is_name_char
next_mode none c = if c == b'$' then some [] else none
next_mode (some name) c =
    if is_name_char c then some (name ++ c ∷ []) else if c == b'$' then some [] else none

-- What one character appends to the buffer: the value of a name that it ends, and the character if
-- it belongs to no name.
unfoldable pub emit : Vars → Mode → ℕ → List ℕ
unfolding is_name_char
emit s none c = if c == b'$' then [] else c ∷ []
emit s (some name) c =
    if is_name_char c then [] else get_var_value s name ++ (if c == b'$' then [] else c ∷ [])

-- The loop of `expand_variables`. The C code writes to arrays of 1024 bytes for the result and 64 for
-- a name with no test; this is what it does where they are large enough.
unfoldable pub expand_from : Vars → Mode → List ℕ → List ℕ
unfolding next_mode emit
expand_from s none [] = []
expand_from s (some name) [] = get_var_value s name
expand_from s m (c ∷ cs) = emit s m c ++ expand_from s (next_mode m c) cs

unfoldable pub expand_variables : Vars → List ℕ → List ℕ
unfolding expand_from
expand_variables s line = strncpy max_line (expand_from s none line)

unfoldable pub is_delim : ℕ → Bool
is_delim c = c == b' ' || c == 9 || c == 10

-- The arguments, and whether some were ignored.
unfoldable pub parse_command : Vars → List ℕ → List (List ℕ) × Bool
unfolding expand_variables is_delim
parse_command s line =
    let tokens = strtok is_delim (expand_variables s line) in
    (take (max_args - 1) tokens, ltb (max_args - 1) (length tokens))

unfoldable pub is_blank_line : List ℕ → Bool
is_blank_line [] = true
is_blank_line (c ∷ cs) = is_space c && is_blank_line cs

-- `parse_command` fills at most 63 arguments, and warns exactly when the line has more tokens.
pub parse_bound :
    (s : Vars) (line : List ℕ)
    → (length (parse_command s line).0 ≤ max_args - 1)
      × ((parse_command s line).1 ≡ false
          → (parse_command s line).0 ≡ strtok is_delim (expand_variables s line))
unfolding parse_command
parse_bound s line =
    let tokens : List (List ℕ) = strtok is_delim (expand_variables s line) in
    (omega (arith, length-take 63 tokens), λ h. take-all 63 tokens (ground arith))

abbrev pub NoDollar : List ℕ → Type 0
NoDollar [] = Unit
NoDollar (c ∷ cs) = ((c == b'$') ≡ false) × NoDollar cs

pub expand_from-append :
    (s : Vars) (xs ys : List ℕ)
    → NoDollar xs
    → expand_from s none (xs ++ ys) ≡ xs ++ expand_from s none ys
unfolding expand_from
expand_from-append s [] ys h = refl
expand_from-append s (c ∷ cs) ys h = rw (h.0) (ap (λ t. c ∷ t) (expand_from-append s cs ys h.1))

abbrev pub AllName : List ℕ → Type 0
AllName [] = Unit
AllName (c ∷ cs) = (is_name_char c ≡ true) × AllName cs

expand_from-name :
    (s : Vars) (acc name rest : List ℕ)
    → AllName name
    → expand_from s (some acc) (name ++ rest) ≡ expand_from s (some (acc ++ name)) rest
unfolding expand_from
expand_from-name s acc [] rest h = rw (append-nil acc) refl
expand_from-name s acc (c ∷ cs) rest h =
    rw (h.0) (rw (← append_assoc acc (c ∷ []) cs) (expand_from-name s (acc ++ c ∷ []) cs rest h.1))

-- A reference `$name` between a text without `$` and a character that belongs to no name is
-- replaced by the value of the variable, and the rest of the line is expanded in the same way.
pub expand_from-reference :
    (s : Vars) (pre name : List ℕ) (c : ℕ) (rest : List ℕ)
    → NoDollar pre
    → AllName name
    → is_name_char c ≡ false
    → expand_from s none (pre ++ (b'$' ∷ (name ++ c ∷ rest)))
      ≡ pre ++ (get_var_value s name ++ expand_from s none (c ∷ rest))
unfolding expand_from
expand_from-reference s pre name c rest plain letters other =
    expand_from-append s pre (b'$' ∷ (name ++ c ∷ rest)) plain
    ∙ ap (λ t. pre ++ t)
        (expand_from-name s [] name (c ∷ rest) letters
          ∙ rw other (
              append_assoc (get_var_value s name) (if c == b'$' then [] else c ∷ [])
                (expand_from s (if c == b'$' then some [] else none) rest)))
