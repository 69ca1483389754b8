-- ===== src/Prompt.antt =====
-- lab6-lyjae/psh2.c and psh3.c: the shells that ask for one argument after the other. An input is what
-- `fgets` returns: the bytes of a line, or `none` at the end of the input. psh3.c has one command of
-- its own, so the test for it is a parameter. `forks` says whether `fork` succeeds for a command.
mod Tests
use systemprogramming.Base.{
  ℕ, zero, suc, ◌+◌, ◌≤◌, ◌≡◌, ◌≢◌, refl, ap, ◌∙◌, arith, Bool, true, false, ◌==◌, ltb, List, [],
  ◌∷◌, ◌++◌, Option, none, some, if◌then◌else◌, length, map, length-append, append-nil,
  append_assoc,
}
use systemprogramming.CString.{codes, str_eq}

abbrev pub max_args : ℕ
max_args = 20

abbrev pub Line : Type 0
Line = List ℕ

-- Why the loop ends: the inputs of the run are used up, 20 arguments are there, the command `exit`, or
-- a `fork` that fails.
pub data End : Type 0 where
  waiting : End
  full : End
  exited : End
  failed : End

-- The commands that were executed, in order.
pub record Result : Type 0 where
  pub executed : List (List Line)
  pub ended : End

-- `buf[strcspn(buf, "\n")] = '\0'`.
pub chomp : Line → Line
chomp [] = []
chomp (c ∷ cs) = let rest = chomp cs in if c == 10 then [] else c ∷ rest

-- Whether `fgets` succeeds and the line does not begin with its newline.
pub is_argument : Option Line → Bool
is_argument none = false
is_argument (some []) = true
is_argument (some (c ∷ cs)) = if c == 10 then false else true

abbrev pub text : Option Line → Line
text none = []
text (some l) = l

abbrev pub also : List Line → Result → Result
also args r = record r { executed = args ∷ r.executed }

module _ (is_exit : Line → Bool) (forks : List Line → Bool) where
  -- The loop of `main`, with the arguments that were read.
  pub prompt : List Line → List (Option Line) → Result
  unfolding chomp is_argument
  prompt args [] = record {
    executed = [];
    ended = if ltb (length args) max_args then waiting else full;
  }
  prompt args (i ∷ is) =
      let more = prompt (args ++ chomp (text i) ∷ []) is in
      let fresh = prompt [] is in
      let same = prompt args is in
      if ltb (length args) max_args
      then (if is_argument i
          then (if is_exit (chomp (text i)) then record { executed = []; ended = exited } else more)
          else if ltb 0 (length args)
          then (if forks args then also args fresh else record { executed = []; ended = failed })
          else same)
      else record { executed = []; ended = full }

abbrev pub psh2 : (List Line → Bool) → List (Option Line) → Result
psh2 forks is = prompt (λ l. false) forks [] is

abbrev pub psh3 : (List Line → Bool) → List (Option Line) → Result
psh3 forks is = prompt (λ l. str_eq l (codes "exit")) forks [] is

module _ (is_exit : Line → Bool) (forks : List Line → Bool) where
  -- Lines that are arguments, none of them the command.
  abbrev pub AllArguments : List Line → Type 0
  AllArguments [] = Unit
  AllArguments (l ∷ ls) =
      (is_argument (some l) ≡ true) × (is_exit (chomp l) ≡ false) × AllArguments ls

  prompt-arguments :
      (args ls : List Line) (is : List (Option Line))
      → AllArguments ls
      → length args + length ls ≤ max_args
      → prompt is_exit forks args (map some ls ++ is)
        ≡ prompt is_exit forks (args ++ map chomp ls) is
  unfolding prompt
  prompt-arguments args [] is a h = ap (λ t. prompt is_exit forks t is) (rw (append-nil args) refl)
  prompt-arguments args (l ∷ ls) is a h =
      rw (a.0, a.1)
        (ground (
          arith,
          prompt-arguments (args ++ chomp l ∷ []) ls is a.2
              (omega (arith, length-append args (chomp l ∷ []))),
          append_assoc args (chomp l ∷ []) (map chomp ls),
        ))

  length-chomps : (ls : List Line) → length (map chomp ls) ≡ length ls
  length-chomps [] = refl
  length-chomps (l ∷ ls) = ap suc (length-chomps ls)

  prompt-full :
      (args : List Line) (is : List (Option Line))
      → length args ≡ max_args
      → prompt is_exit forks args is ≡ record { executed = []; ended = full }
  unfolding prompt
  prompt-full args [] h = ground arith
  prompt-full args (i ∷ is) h = ground arith

  -- A twentieth argument ends the shell: nothing is executed, whatever follows.
  pub prompt-twenty :
      (ls : List Line) (is : List (Option Line))
      → AllArguments ls
      → length ls ≡ max_args
      → prompt is_exit forks [] (map some ls ++ is) ≡ record { executed = []; ended = full }
  prompt-twenty ls is a h =
      prompt-arguments [] ls is a (omega arith)
      ∙ prompt-full (map chomp ls) is (length-chomps ls ∙ h)
