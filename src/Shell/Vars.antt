-- ===== src/Shell/Vars.antt =====
-- The shell variables of lab7-lyjae/mini-shell-2.c; mini-shell-1.c and mini-shell-3.c declare the
-- same functions.
pub mod Laws
use systemprogramming.Base.{
  ℕ, ◌+◌, ◌<◌, Bool, true, false, List, [], ◌∷◌, ◌++◌, Option, none, some, if◌then◌else◌, ltb,
  length,
}
use systemprogramming.CString.{str_eq, strncpy}

abbrev pub max_vars : ℕ
max_vars = 64

-- `Variable`. A name of 64 bytes or a value of 256 fills its array and leaves no terminator; the
-- theorems on values are about shorter ones.
pub record Variable : Type 0 where
  pub name : List ℕ
  pub value : List ℕ

-- The variables of a list, up to its count, with the value of the first of a name.
unfoldable pub find : List ℕ → List Variable → Option (List ℕ)
find name [] = none
find name (v ∷ vs) = let rest = find name vs in if str_eq v.name name then some v.value else rest

-- `local_vars`, `global_vars` with their counts, and the environment of the process.
pub record Vars : Type 0 where
  pub locals : List Variable
  pub globals : List Variable
  pub env : List Variable

abbrev or_else : Option (List ℕ) → List ℕ → List ℕ
or_else none d = d
or_else (some v) d = v

unfoldable pub get_var_value : Vars → List ℕ → List ℕ
unfolding find
get_var_value s name =
    or_else (find name s.locals) (or_else (find name s.globals) (or_else (find name s.env) []))

-- The loop that overwrites the value of the first variable of a name; `none` if there is none.
unfoldable pub overwrite : List ℕ → List ℕ → List Variable → Option (List Variable)
overwrite name value [] = none
overwrite name value (v ∷ vs) =
    let rest = overwrite name value vs in
    if str_eq v.name name
    then some (record v { value = strncpy 256 value } ∷ vs)
    else elim rest [ none ↦ none | some ws ↦ some (v ∷ ws) ]

abbrev pub new_variable : List ℕ → List ℕ → Variable
new_variable name value = record { name = strncpy 64 name; value = strncpy 256 value }

-- Overwrite, append while there is room, or report; the flag says whether the table is full.
unfoldable pub assign : List ℕ → List ℕ → List Variable → List Variable × Bool
unfolding overwrite
assign name value vs = elim (overwrite name value vs) [
  | some ws ↦ (ws, false)
  | none ↦
      if ltb (length vs) max_vars then (vs ++ new_variable name value ∷ [], false) else (vs, true)
]

-- The flag stands for the message "too many local variables".
unfoldable pub set_local_var : Vars → List ℕ → List ℕ → Vars × Bool
unfolding assign
set_local_var s name value =
    let (vs, full) = assign name value s.locals in (record s { locals = vs }, full)

-- The loop of `setenv` over the environment, which keeps names and values whole.
unfoldable pub put_env : List ℕ → List ℕ → List Variable → List Variable
put_env name value [] = record { name = name; value = value } ∷ []
put_env name value (v ∷ vs) =
    let rest = put_env name value vs in
    if str_eq v.name name then record v { value = value } ∷ vs else v ∷ rest

-- `setenv(name, value, 1)`, which refuses an empty name. No caller passes a name with a `=`.
unfoldable pub setenv : List ℕ → List ℕ → List Variable → List Variable
unfolding put_env
setenv [] value vs = vs
setenv (c ∷ cs) value vs = put_env (c ∷ cs) value vs

unfoldable pub set_global_var : Vars → List ℕ → List ℕ → Vars × Bool
unfolding assign setenv
set_global_var s name value =
    let (vs, full) = assign name value s.globals in
    (record s { globals = vs; env = setenv name value s.env }, full)
