-- ===== src/Shell/Vars/Laws.antt =====
-- Reading a shell variable back after an assignment.
use systemprogramming.Base.{
  ℕ, suc, ◌≤◌, ◌<◌, ◌≡◌, ◌≢◌, ◌⊎◌, inl, inr, refl, sym, ap, ◌∙◌, true, false, arith, List, [], ◌∷◌,
  ◌++◌, Option, none, some, length, length-append, Bool-cases,
}
use systemprogramming.CString.{str_eq, str_eq_iff, strncpy, strncpy-short}
use systemprogramming.Shell.Vars.{
  max_vars, Variable, find, Vars, get_var_value, overwrite, new_variable, assign, set_local_var,
  put_env, setenv, set_global_var,
}

str_eq_refl : (s : List ℕ) → str_eq s s ≡ true
str_eq_refl s = (str_eq_iff s s).1 refl

str_eq_ne : (s t : List ℕ) → s ≢ t → str_eq s t ≡ false
str_eq_ne s t ne = elim (Bool-cases (str_eq s t)) [
  | inl e ↦ absurd (ne ((str_eq_iff s t).0 e))
  | inr e ↦ e
]

find-append :
    (name : List ℕ) (vs ws : List Variable)
    → find name (vs ++ ws) ≡ elim (find name vs) [ some v ↦ some v | none ↦ find name ws ]
unfolding find
find-append name [] ws = refl
find-append name (v ∷ vs) ws = ground (arith, find-append name vs ws)

overwrite-find :
    (name value : List ℕ) (vs : List Variable)
    → ((overwrite name value vs ≡ none) × (find name vs ≡ none))
      ⊎ ((ws : List Variable) × (overwrite name value vs ≡ some ws)
          × (find name ws ≡ some (strncpy 256 value))
          × (length ws ≡ length vs))
unfolding overwrite find
overwrite-find name value [] = inl (refl, refl)
overwrite-find name value (v ∷ vs) = elim (Bool-cases (str_eq v.name name)) [
  | inl e ↦ inr (record v { value = strncpy 256 value } ∷ vs, rw e refl, rw e refl, refl)
  | inr e ↦ elim (overwrite-find name value vs) [
    | inl (p, q) ↦ inl (rw (e, p) refl, rw (e, q) refl)
    | inr (ws, p, q, l) ↦ inr (v ∷ ws, rw (e, p) refl, rw (e, q) refl, ap suc l)
  ]
]

abbrev Kept : List ℕ → List Variable → Option (List Variable) → Type 0
Kept other vs none = Unit
Kept other vs (some ws) = find other ws ≡ find other vs

overwrite-Kept :
    (name other value : List ℕ) (vs : List Variable)
    → name ≢ other
    → Kept other vs (overwrite name value vs)
unfolding overwrite find
overwrite-Kept name other value [] ne = tt
overwrite-Kept name other value (v ∷ vs) ne = elim (Bool-cases (str_eq v.name name)) [
  | inl e ↦
      let f : str_eq v.name other ≡ false =
        str_eq_ne v.name other (λ g. ne (sym ((str_eq_iff v.name name).0 e) ∙ g)) in
      rw (e, f) refl
  | inr e ↦ rw e (keep (overwrite name value vs) (overwrite-Kept name other value vs ne))
]
  where
    keep :
        (o : Option (List Variable))
        → Kept other vs o
        → Kept other (v ∷ vs) (elim o [ none ↦ none | some ws ↦ some (v ∷ ws) ])
    keep none k = tt
    keep (some ws) k = rw k refl

find-new :
    (name value : List ℕ)
    → length name < 64
    → length value < 256
    → find name (new_variable name value ∷ []) ≡ some value
unfolding find
find-new name value short small =
    rw
      (strncpy-short 64 name (omega arith), str_eq_refl name, strncpy-short 256 value (omega arith))
      refl

find-new_ne :
    (name other value : List ℕ)
    → length name < 64
    → name ≢ other
    → find other (new_variable name value ∷ []) ≡ none
unfolding find
find-new_ne name other value short ne =
    rw (strncpy-short 64 name (omega arith), str_eq_ne name other ne) refl

-- What an assignment does to a table with room or with a variable of the name.
pub assign_lem :
    (name value : List ℕ) (vs : List Variable)
    → length name < 64
    → length value < 256
    → (assign name value vs).1 ≡ false
    → find name (assign name value vs).0 ≡ some value
unfolding assign
assign_lem name value vs short small ok = elim (overwrite-find name value vs) [
  | inl (p, q) ↦ ground (
    arith,
    p,
    q,
    find-append name vs (new_variable name value ∷ []),
    find-new name value short small,
  )
  | inr (ws, p, q, l) ↦ ground (arith, p, q, strncpy-short 256 value (omega arith))
]

pub assign-other :
    (name other value : List ℕ) (vs : List Variable)
    → length name < 64
    → name ≢ other
    → find other (assign name value vs).0 ≡ find other vs
unfolding assign
assign-other name other value vs short ne = elim (overwrite-find name value vs) [
  | inl (p, q) ↦ ground (
    arith,
    p,
    find-append other vs (new_variable name value ∷ []),
    find-new_ne name other value short ne,
  )
  | inr (ws, p, q, l) ↦ rw (p, assign) (rw p at (overwrite-Kept name other value vs ne))
]

-- A table of at most 64 variables has at most 64 after an assignment, and it is reported full
-- only when it has 64 and none of the name.
pub assign_bound :
    (name value : List ℕ) (vs : List Variable)
    → length vs ≤ max_vars
    → (length (assign name value vs).0 ≤ max_vars)
      × ((assign name value vs).1 ≡ true → (length vs ≡ max_vars) × (find name vs ≡ none))
unfolding assign
assign_bound name value vs h = elim (overwrite-find name value vs) [
  | inl (p, q) ↦ ground (arith, p, q, length-append vs (new_variable name value ∷ []))
  | inr (ws, p, q, l) ↦ ground (arith, p, l)
]

-- For a name of fewer than 64 bytes and a value of fewer than 256: after an assignment that is
-- not refused, reading the variable gives the assigned value, and every other variable keeps its
-- value.
pub get-set_local :
    (s : Vars) (name value other : List ℕ)
    → length name < 64
    → length value < 256
    → (set_local_var s name value).1 ≡ false
    → (get_var_value (set_local_var s name value).0 name ≡ value)
      × (name ≢ other → get_var_value (set_local_var s name value).0 other ≡ get_var_value s other)
unfolding get_var_value set_local_var
get-set_local s name value other short small ok = (
  rw (assign_lem name value s.locals short small ok) refl,
  λ ne. rw (assign-other name other value s.locals short ne) refl,
)

find-put_env :
    (name value : List ℕ) (vs : List Variable) → find name (put_env name value vs) ≡ some value
unfolding put_env find
find-put_env name value [] = rw (str_eq_refl name) refl
find-put_env name value (v ∷ vs) = ground (arith, find-put_env name value vs)

find-setenv :
    (name value : List ℕ) (vs : List Variable)
    → name ≢ []
    → find name (setenv name value vs) ≡ some value
unfolding setenv
find-setenv [] value vs ne = absurd (ne refl)
find-setenv (c ∷ cs) value vs ne = find-put_env (c ∷ cs) value vs

-- `export` of a name that is not empty reaches the environment of the commands whole, also where
-- the table of the shell is full or truncates, and a local variable of the name still hides it from
-- the shell.
pub get-set_global :
    (s : Vars) (name value : List ℕ)
    → name ≢ []
    → (find name (set_global_var s name value).0.env ≡ some value)
      × ((v : List ℕ)
          → find name s.locals ≡ some v
          → get_var_value (set_global_var s name value).0 name ≡ v)
unfolding get_var_value set_global_var
get-set_global s name value ne = (find-setenv name value s.env ne, λ v e. rw e refl)
