-- ===== src/Prompt/Tests.antt =====
-- The prompting shells at concrete inputs.
use systemprogramming.Base.{ℕ, zero, suc, refl, Bool, true, List, [], ◌∷◌, ◌++◌, replicate}
use systemprogramming.CString.{codes, str_eq}
use systemprogramming.Prompt.{Line, chomp, is_argument, AllArguments}

abbrev is_exit : Line → Bool
is_exit l = str_eq l (codes "exit")

abbrev ls_lines : List Line
ls_lines = (codes "ls" ++ 10 ∷ []) ∷ (codes "-l" ++ 10 ∷ []) ∷ []

many : (n : ℕ) → AllArguments is_exit (λ a. true) (replicate n (codes "x"))
unfolding chomp is_argument str_eq
many zero = tt
many (suc n) = (refl, refl, many n)
