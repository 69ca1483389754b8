-- ===== src/Shell/Assign.antt =====
-- From one line of mini-shell-2.c to the next: an assignment, and a command that reads the variable.
use systemprogramming.Base.{
  ℕ, ◌+◌, ◌≤◌, ◌<◌, ◌≡◌, refl, sym, ap, ◌∙◌, arith, true, false, ◌==◌, Bool-cases, inl, inr, List,
  [], ◌∷◌, ◌++◌, append-nil, append_assoc, ltb, ◌-◌, if◌then◌else◌, none, some, take, length,
  length-append,
}
use systemprogramming.Ctype.{is_alnum}
use systemprogramming.CString.{strtok, strtok_from, strchr, strncpy, strncpy-short}
use systemprogramming.Shell.Vars.{Vars, get_var_value, set_local_var}
use systemprogramming.Shell.Vars.Laws.{get-set_local}
use systemprogramming.Shell.Parse.{
  max_line, max_args, is_name_char, is_delim, expand_from, expand_variables, parse_command,
  NoDollar, AllName, expand_from-append, expand_from-reference,
}
use systemprogramming.Shell.Exec.{
  Os, Shell, say_if, too_many_arguments, too_many_locals, assignment, assign_builtin,
  execute_command,
}
use systemprogramming.Shell.Block.{mini_shell_2}

-- A text without blanks, ends of lines and `$`.
abbrev pub IsText : List ℕ → Type 0
IsText [] = Unit
IsText (c ∷ cs) = (is_delim c ≡ false) × ((c == b'$') ≡ false) × IsText cs

IsText-NoDollar : (t : List ℕ) → IsText t → NoDollar t
IsText-NoDollar [] h = tt
IsText-NoDollar (c ∷ cs) h = (h.1, IsText-NoDollar cs h.2)

NoDollar-snoc : (t : List ℕ) → NoDollar t → NoDollar (t ++ b' ' ∷ [])
NoDollar-snoc [] h = (refl, tt)
NoDollar-snoc (c ∷ cs) h = (h.0, NoDollar-snoc cs h.1)

IsText-append : (t u : List ℕ) → IsText t → IsText u → IsText (t ++ u)
IsText-append [] u h k = k
IsText-append (c ∷ cs) u h k = (h.0, h.1, IsText-append cs u h.2 k)

-- A character that belongs to names is none that does not.
name-ne : (c d : ℕ) → is_name_char c ≡ true → is_name_char d ≡ false → (c == d) ≡ false
name-ne c d h k = elim (Bool-cases (c == d)) [
  | inr e ↦ e
  | inl e ↦ let same : c ≡ d = ground (arith, e) in cc
]

AllName-IsText : (name : List ℕ) → AllName name → IsText name
unfolding is_name_char is_delim is_alnum
AllName-IsText [] h = tt
AllName-IsText (c ∷ cs) h =
    let blank : (c == b' ') ≡ false = name-ne c b' ' h.0 refl in
    let tab : (c == 9) ≡ false = name-ne c 9 h.0 refl in
    let line : (c == 10) ≡ false = name-ne c 10 h.0 refl in
    (rw (blank, tab, line) refl, name-ne c b'$' h.0 refl, AllName-IsText cs h.1)

-- The token that is being read, up to the next delimiter.
strtok_from-word :
    (a : ℕ) (acc t : List ℕ) (d : ℕ) (rest : List ℕ)
    → IsText t
    → is_delim d ≡ true
    → strtok_from is_delim (a ∷ acc) (t ++ d ∷ rest) ≡ (a ∷ acc ++ t) ∷ strtok_from is_delim [] rest
unfolding strtok_from
strtok_from-word a acc [] d rest h e =
    rw e (ap (λ l. (a ∷ l) ∷ strtok_from is_delim [] rest) (sym (append-nil acc)))
strtok_from-word a acc (c ∷ cs) d rest h e = rw (h.0) (
    strtok_from-word a (acc ++ c ∷ []) cs d rest h.2 e
    ∙ ap (λ l. (a ∷ l) ∷ strtok_from is_delim [] rest) (append_assoc acc (c ∷ []) cs))

strtok-word :
    (c : ℕ) (cs : List ℕ) (d : ℕ) (rest : List ℕ)
    → IsText (c ∷ cs)
    → is_delim d ≡ true
    → strtok is_delim ((c ∷ cs) ++ d ∷ rest) ≡ (c ∷ cs) ∷ strtok is_delim rest
unfolding strtok strtok_from
strtok-word c cs d rest h e =
    ap (λ b. strtok_from is_delim (if b then [] else c ∷ []) (cs ++ d ∷ rest)) h.0
    ∙ strtok_from-word c [] cs d rest h.2 e

abbrev pub newline : List ℕ
newline = 10 ∷ []

-- A line that is one word.
parse_command-word :
    (s : Vars) (c : ℕ) (cs : List ℕ)
    → IsText (c ∷ cs)
    → length (c ∷ cs) < max_line
    → parse_command s ((c ∷ cs) ++ newline) ≡ ((c ∷ cs) ∷ [], false)
unfolding parse_command expand_variables expand_from is_delim strtok strtok_from
parse_command-word s c cs h short =
    let word : List ℕ = c ∷ cs in
    let line : List ℕ = word ++ newline in
    let plain : expand_from s none line ≡ line =
      expand_from-append s word newline (IsText-NoDollar word h) in
    let fits : length line ≤ max_line = omega (arith, short, length-append word newline) in
    let text : expand_variables s line ≡ line =
      ap (λ l. strncpy max_line l) plain ∙ strncpy-short max_line line fits in
    let tokens : strtok is_delim (expand_variables s line) ≡ word ∷ [] =
      ap (strtok is_delim) text ∙ strtok-word c cs 10 [] h refl in
    ap (λ t. (take (max_args - 1) t, ltb (max_args - 1) (length t))) tokens

-- A line that is a word and a reference.
parse_command-reference :
    (s : Vars) (c : ℕ) (cs name : List ℕ) (v : ℕ) (vs : List ℕ)
    → IsText (c ∷ cs)
    → AllName name
    → get_var_value s name ≡ v ∷ vs
    → IsText (v ∷ vs)
    → length (c ∷ cs) + length (v ∷ vs) + 2 ≤ max_line
    → parse_command s ((c ∷ cs) ++ (b' ' ∷ b'$' ∷ (name ++ newline)))
      ≡ ((c ∷ cs) ∷ (v ∷ vs) ∷ [], false)
unfolding parse_command expand_variables expand_from is_delim strtok strtok_from is_alnum
parse_command-reference s c cs name v vs h letters read t short =
    let word : List ℕ = c ∷ cs in
    let value : List ℕ = v ∷ vs in
    let before : List ℕ = word ++ b' ' ∷ [] in
    let out : List ℕ = word ++ b' ' ∷ (value ++ newline) in
    let split : word ++ (b' ' ∷ b'$' ∷ (name ++ newline)) ≡ before ++ (b'$' ∷ (name ++ newline)) =
      sym (append_assoc word (b' ' ∷ []) (b'$' ∷ (name ++ newline))) in
    let whole : expand_from s none (before ++ (b'$' ∷ (name ++ newline))) ≡ out =
      expand_from-reference s before name 10 [] (NoDollar-snoc word (IsText-NoDollar word h))
        letters refl
      ∙ ap (λ u. before ++ (u ++ newline)) read
      ∙ append_assoc word (b' ' ∷ []) (value ++ newline) in
    let fits : length out ≤ max_line =
      omega (
        arith,
        short,
        length-append word (b' ' ∷ (value ++ newline)),
        length-append value newline,
      ) in
    let text : expand_variables s (word ++ (b' ' ∷ b'$' ∷ (name ++ newline))) ≡ out =
      ap (expand_variables s) split
      ∙ ap (strncpy max_line) whole
      ∙ strncpy-short max_line out fits in
    let tokens : strtok is_delim (expand_variables s (word ++ (b' ' ∷ b'$' ∷ (name ++ newline))))
        ≡ word ∷ value ∷ [] =
      ap (strtok is_delim) text
      ∙ strtok-word c cs b' ' (value ++ newline) h refl
      ∙ ap (λ l. word ∷ l) (strtok-word v vs 10 [] t refl) in
    ap (λ l. (take (max_args - 1) l, ltb (max_args - 1) (length l))) tokens

-- The name and the value of an assignment.
strchr-name :
    (name value : List ℕ) → AllName name → strchr (name ++ b'=' ∷ value) b'=' ≡ some (name, value)
unfolding strchr is_name_char is_alnum
strchr-name [] value h = refl
strchr-name (c ∷ cs) value h =
    let other : (c == b'=') ≡ false = name-ne c b'=' h.0 refl in
    rw (other, strchr-name cs value h.1) refl

assignment-name :
    (c : ℕ) (cs value : List ℕ)
    → AllName (c ∷ cs)
    → assignment ((c ∷ cs) ++ b'=' ∷ value) ≡ some (c ∷ cs, value)
unfolding assignment is_name_char is_alnum
assignment-name c cs value h =
    let other : (c == b'-') ≡ false = name-ne c b'-' h.0 refl in
    rw (other, assignment) (strchr-name (c ∷ cs) value h)

module _ (os : Os) where
  open os use {World}

  assigned : World × Shell → List ℕ → List ℕ → World × Shell
  assigned x name value = (mini_shell_2 os).run_line x (name ++ (b'=' ∷ (value ++ newline)))

  run_line-assigned :
      (w : World) (s : Shell) (c : ℕ) (cs value : List ℕ)
      → AllName (c ∷ cs)
      → length (c ∷ cs) < 64
      → IsText value
      → length value < 256
      → assigned (w, s) (c ∷ cs) value ≡ (w, assign_builtin s (c ∷ cs) value)
  unfolding assigned execute_command say_if is_delim
  run_line-assigned w s c cs value letters short t small =
      let tail : List ℕ = cs ++ b'=' ∷ value in
      let line : List ℕ = (c ∷ cs) ++ (b'=' ∷ (value ++ newline)) in
      let split : line ≡ (c ∷ tail) ++ newline =
        sym (append_assoc (c ∷ cs) (b'=' ∷ value) newline) in
      let text : IsText (c ∷ tail) =
        IsText-append (c ∷ cs) (b'=' ∷ value) (AllName-IsText (c ∷ cs) letters) (refl, refl, t) in
      let fits : length (c ∷ tail) < max_line =
        omega (arith, short, small, length-append cs (b'=' ∷ value)) in
      let parsed : parse_command s.vars line ≡ ((c ∷ tail) ∷ [], false) =
        ap (parse_command s.vars) split ∙ parse_command-word s.vars c tail text fits in
      let found : assignment (c ∷ tail) ≡ some (c ∷ cs, value) =
        assignment-name c cs value letters in
      ap (λ p. execute_command os w (say_if p.1 too_many_arguments s) p.0) parsed
      ∙ rw (found, execute_command) refl

  -- A line assigns a text of 1 to 255 bytes without blanks and `$` to a name of 1 to 63 letters, digits
  -- and `_`, and the table of the local variables has room or has the name: the line calls nothing of
  -- the system, and behind it a line that is a word of 1 to 255 bytes without blanks and `$` and a
  -- reference to the name is split into the word and the value.
  pub assigned-reference :
      (w : World) (s : Shell) (c : ℕ) (cs : List ℕ) (v : ℕ) (vs : List ℕ) (d : ℕ) (ds : List ℕ)
      → AllName (c ∷ cs)
      → length (c ∷ cs) < 64
      → IsText (v ∷ vs)
      → length (v ∷ vs) < 256
      → (set_local_var s.vars (c ∷ cs) (v ∷ vs)).1 ≡ false
      → IsText (d ∷ ds)
      → length (d ∷ ds) < 256
      → let after =
          (mini_shell_2 os).run_line (w, s) ((c ∷ cs) ++ (b'=' ∷ ((v ∷ vs) ++ newline))) in
        (after.0 ≡ w)
        × (parse_command after.1.vars ((d ∷ ds) ++ (b' ' ∷ b'$' ∷ ((c ∷ cs) ++ newline)))
            ≡ ((d ∷ ds) ∷ (v ∷ vs) ∷ [], false))
  unfolding assigned assign_builtin say_if
  assigned-reference w s c cs v vs d ds letters short t small room u less =
      let name : List ℕ = c ∷ cs in
      let value : List ℕ = v ∷ vs in
      let ran = run_line-assigned w s c cs value letters short t small in
      let stored : (assign_builtin s name value).vars ≡ (set_local_var s.vars name value).0 =
        ap
          (λ b.
            (say_if b too_many_locals
              (record s { vars = (set_local_var s.vars name value).0 })).vars)
          room in
      let vars = ap (λ (x : World × Shell). x.1.vars) ran ∙ stored in
      let read = (get-set_local s.vars name value name short small room).0 in
      (
        ap (λ (x : World × Shell). x.0) ran,
        ap (λ z. parse_command z ((d ∷ ds) ++ (b' ' ∷ b'$' ∷ (name ++ newline)))) vars
            ∙ parse_command-reference (set_local_var s.vars name value).0 d ds name v vs u letters
                read t (omega (arith, small, less)),
      )
