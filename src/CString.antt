-- ===== src/CString.antt =====
-- C strings as the lists of their bytes before the terminator, and the functions of <string.h> that
-- the programs call.
use systemprogramming.Ctype.{is_digit, is_space}
use systemprogramming.Base.{
  ◌+◌, ◌-◌, ◌*◌, ◌/◌, ◌%◌, zero, suc, ◌<◌, ltb, ap, ◌∙◌, Bool-cases, inl, inr,
}
use systemprogramming.Base.{
  ℕ, ◌≤◌, ◌≡◌, ◌↔◌, refl, ap₂, arith, Bool, true, false, ◌&&◌, ◌==◌, List, [], ◌∷◌, ◌++◌, Option,
  none, some, if◌then◌else◌, take, length, take-all,
}
use Prim.Native.Char.{code}
use Prim.Native.String.{String}

-- The bytes of an ASCII literal.
abbrev pub codes : String → List ℕ
codes String.[] = []
codes (String.◌∷◌ c s) = code c ∷ codes s

-- `strcmp(s, t) == 0`.
unfoldable pub str_eq : List ℕ → List ℕ → Bool
str_eq [] [] = true
str_eq (c ∷ cs) (d ∷ ds) = c == d && str_eq cs ds
str_eq _ _ = false

pub str_eq_iff : (s t : List ℕ) → (str_eq s t ≡ true) ↔ (s ≡ t)
unfolding str_eq
str_eq_iff [] [] = (λ _. refl, λ _. refl)
str_eq_iff (c ∷ cs) (d ∷ ds) = (
  λ h. ap₂ ◌∷◌ (ground arith) ((str_eq_iff cs ds).0 (ground arith)),
  λ e. ground (arith, (str_eq_iff cs ds).1),
)
str_eq_iff [] (d ∷ ds) = (λ h. cc, λ e. cc)
str_eq_iff (c ∷ cs) [] = (λ h. cc, λ e. cc)

-- The tokens that repeated calls of `strtok` return: the runs of bytes that are not delimiters. The
-- second argument is the token that is being read.
unfoldable pub strtok_from : (ℕ → Bool) → List ℕ → List ℕ → List (List ℕ)
strtok_from delim [] [] = []
strtok_from delim (a ∷ acc) [] = (a ∷ acc) ∷ []
strtok_from delim [] (c ∷ cs) = strtok_from delim (if delim c then [] else c ∷ []) cs
strtok_from delim (a ∷ acc) (c ∷ cs) =
    (if delim c then (a ∷ acc) ∷ [] else [])
    ++ strtok_from delim (if delim c then [] else a ∷ acc ++ c ∷ []) cs

unfoldable pub strtok : (ℕ → Bool) → List ℕ → List (List ℕ)
unfolding strtok_from
strtok delim s = strtok_from delim [] s

-- `strchr(s, c)`, as the bytes before the first `c` and the bytes behind it.
unfoldable pub strchr : List ℕ → ℕ → Option (List ℕ × List ℕ)
strchr [] c = none
strchr (d ∷ ds) c =
    let rest = strchr ds c in
    if d == c then some ([], ds) else elim rest [ none ↦ none | some (a, b) ↦ some (d ∷ a, b) ]

-- The string in a buffer: the bytes up to the first terminator.
unfoldable pub until_zero : List ℕ → List ℕ
until_zero [] = []
until_zero (c ∷ cs) = let rest = until_zero cs in if c == 0 then [] else c ∷ rest

-- The bytes that `strncpy(dst, s, n)` copies.
unfoldable pub strncpy : ℕ → List ℕ → List ℕ
strncpy n s = take n s

pub strncpy-short : (n : ℕ) (s : List ℕ) → length s ≤ n → strncpy n s ≡ s
unfolding strncpy
strncpy-short n s h = take-all n s h

-- The digits that a text begins with, as a number.
unfoldable pub digits_from : ℕ → List ℕ → ℕ
digits_from n [] = n
digits_from n (c ∷ cs) =
    let rest = digits_from (n * 10 + (c - b'0')) cs in if is_digit c then rest else n

-- `atoi(s)`, with a negative number taken as 0.
unfoldable pub atoi : List ℕ → ℕ
unfolding digits_from
atoi [] = 0
atoi (c ∷ cs) =
    let rest = atoi cs in
    if is_space c
    then rest
    else if c == b'-'
    then 0
    else if c == b'+'
    then digits_from 0 cs
    else digits_from 0 (c ∷ cs)

-- What `%d` prints: the last digit is put before the digits behind it, with as much fuel as the number
-- and one more.
unfoldable pub decimal_from : ℕ → ℕ → List ℕ → List ℕ
decimal_from zero n acc = acc
decimal_from (suc fuel) n acc =
    let acc' = (b'0' + n % 10) ∷ acc in
    let rest = decimal_from fuel (n / 10) acc' in if ltb n 10 then acc' else rest

unfoldable pub decimal : ℕ → List ℕ
unfolding decimal_from
decimal n = decimal_from (suc n) n []

digits_from-digit :
    (m d : ℕ) (cs : List ℕ) → d < 10 → digits_from m ((b'0' + d) ∷ cs) ≡ digits_from (m * 10 + d) cs
unfolding digits_from is_digit
digits_from-digit m d cs h =
    let value : b'0' + d - b'0' ≡ d = omega arith in
    let is : is_digit (b'0' + d) ≡ true = ground arith in rw (is, value) refl

digits_from-decimal_from :
    (fuel n : ℕ) (acc : List ℕ)
    → n < fuel
    → digits_from 0 (decimal_from fuel n acc) ≡ digits_from n acc
unfolding decimal_from
digits_from-decimal_from zero n acc h = absurd (omega arith)
digits_from-decimal_from (suc fuel) n acc h = elim (Bool-cases (ltb n 10)) [
  | inl small ↦ rw small (
      digits_from-digit 0 (n % 10) acc (omega arith)
      ∙ ap (λ k. digits_from k acc) (ground (arith, small)))
  | inr big ↦ rw big (
      digits_from-decimal_from fuel (n / 10) ((b'0' + n % 10) ∷ acc) (ground (arith, big))
      ∙ digits_from-digit (n / 10) (n % 10) acc (omega arith)
      ∙ ap (λ k. digits_from k acc) (omega arith))
]

-- The digits of a number are read back as the number.
pub digits_from-decimal : (n : ℕ) → digits_from 0 (decimal n) ≡ n
unfolding decimal digits_from
digits_from-decimal n = digits_from-decimal_from (suc n) n [] (omega arith)
