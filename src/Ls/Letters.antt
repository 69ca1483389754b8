-- ===== src/Ls/Letters.antt =====
-- The ten letters of a mode say its type and its permissions, and no more.
use systemprogramming.Base.{
  ℕ, zero, suc, ◌+◌, ◌*◌, ◌/◌, ◌%◌, ◌≡◌, refl, sym, ap, arith, Bool, true, false, ◌==◌, List, [],
  ◌∷◌, if◌then◌else◌, set, get_or, ◌↔◌, ◌≢◌, ◌⊎◌, inl, inr, dec_lt,
}
use systemprogramming.Ls.{file_type, has_bit, put_if, mode_to_letters}

set-get_or : (str : List ℕ) (i : ℕ) → set str i (get_or str i 0) ≡ str
set-get_or [] i = refl
set-get_or (c ∷ cs) zero = refl
set-get_or (c ∷ cs) (suc i) = ap (λ t. c ∷ t) (set-get_or cs i)

-- A write under a condition is a write of one of two letters.
put_if-set :
    (b : Bool) (i c : ℕ) (str : List ℕ)
    → put_if b i c str ≡ set str i (if b then c else get_or str i 0)
unfolding put_if
put_if-set true i c str = refl
put_if-set false i c str = sym (set-get_or str i)

abbrev letter : Bool → ℕ → ℕ
letter b c = if b then c else b'-'

abbrev type_letter : ℕ → ℕ
type_letter mode =
    if file_type mode == 6
    then b'b'
    else if file_type mode == 2
    then b'c'
    else if file_type mode == 4
    then b'd'
    else b'-'

letters_lem :
    (mode : ℕ)
    → mode_to_letters mode
      ≡ type_letter mode
        ∷ letter (has_bit mode 256) b'r'
        ∷ letter (has_bit mode 128) b'w'
        ∷ letter (has_bit mode 64) b'x'
        ∷ letter (has_bit mode 32) b'r'
        ∷ letter (has_bit mode 16) b'w'
        ∷ letter (has_bit mode 8) b'x'
        ∷ letter (has_bit mode 4) b'r'
        ∷ letter (has_bit mode 2) b'w'
        ∷ letter (has_bit mode 1) b'x'
        ∷ []
unfolding mode_to_letters
letters_lem mode = simp put_if-set refl

-- Reading the letters back: a place says a bit by its own letter, and says no bit by a dash.
abbrev pub bit_of : ℕ → ℕ → ℕ → ℕ
bit_of letter c weight = if c == letter then weight else 0

abbrev pub permissions : List ℕ → ℕ
permissions str =
    bit_of b'r' (get_or str 1 0) 256
    + bit_of b'w' (get_or str 2 0) 128
    + bit_of b'x' (get_or str 3 0) 64
    + bit_of b'r' (get_or str 4 0) 32
    + bit_of b'w' (get_or str 5 0) 16
    + bit_of b'x' (get_or str 6 0) 8
    + bit_of b'r' (get_or str 7 0) 4
    + bit_of b'w' (get_or str 8 0) 2
    + bit_of b'x' (get_or str 9 0) 1

-- The letters that may stand at a place behind the first.
abbrev pub IsLetter : ℕ → ℕ → Type 0
IsLetter letter c = (c ≡ letter) ⊎ (c ≡ b'-')

-- Three groups of `r`, `w` and `x`, or dashes, behind the letter of the type.
abbrev pub HasForm : List ℕ → Type 0
HasForm (t ∷ a ∷ b ∷ c ∷ d ∷ e ∷ f ∷ g ∷ h ∷ i ∷ []) =
    (IsLetter b'r' a × IsLetter b'w' b × IsLetter b'x' c)
    × (IsLetter b'r' d × IsLetter b'w' e × IsLetter b'x' f)
    × (IsLetter b'r' g × IsLetter b'w' h × IsLetter b'x' i)
HasForm _ = ⊥

-- The types of a file by their letters: a directory, a character device, a block device, and the rest.
abbrev pub TypeOf : ℕ → ℕ → Type 0
TypeOf letter type =
    ((letter ≡ b'd') ↔ (type ≡ 4))
    × ((letter ≡ b'c') ↔ (type ≡ 2))
    × ((letter ≡ b'b') ↔ (type ≡ 6))
    × ((letter ≡ b'-') ↔ ((type ≢ 4) × (type ≢ 2) × (type ≢ 6)))

bit-letter :
    (n c weight : ℕ)
    → (b'-' == c) ≡ false
    → bit_of c (letter (n % 2 == 1) c) weight ≡ n % 2 * weight
bit-letter n c weight h = elim (dec_lt (n % 2) 1) [
  | yes e ↦ let zero_bit : n % 2 ≡ 0 = omega arith in rw (zero_bit, h) (omega arith)
  | no e ↦ let one_bit : n % 2 ≡ 1 = omega arith in rw one_bit (ground arith)
]

letter-IsLetter : (b : Bool) (c : ℕ) → IsLetter c (letter b c)
letter-IsLetter true c = inl refl
letter-IsLetter false c = inr refl

type_letter-TypeOf : (mode : ℕ) → TypeOf (type_letter mode) (file_type mode)
type_letter-TypeOf mode = (ground arith, ground arith, ground arith, ground arith)

-- The string of a mode has ten letters in the form of three groups of `r`, `w` and `x`, or dashes;
-- reading them back gives the nine permission bits of the mode, and the first letter is `d`, `c` or
-- `b` exactly for a directory, a character device or a block device, and a dash otherwise.
pub mode_to_letters-reads :
    (mode : ℕ)
    → HasForm (mode_to_letters mode)
      × (permissions (mode_to_letters mode) ≡ mode % 512)
      × TypeOf (get_or (mode_to_letters mode) 0 0) (file_type mode)
mode_to_letters-reads mode = rw letters_lem (
  (
    (letter-IsLetter _ _, letter-IsLetter _ _, letter-IsLetter _ _),
    (letter-IsLetter _ _, letter-IsLetter _ _, letter-IsLetter _ _),
    (letter-IsLetter _ _, letter-IsLetter _ _, letter-IsLetter _ _),
  ),
  omega (
    arith,
    bit-letter (mode / 256) b'r' 256 refl,
    bit-letter (mode / 128) b'w' 128 refl,
    bit-letter (mode / 64) b'x' 64 refl,
    bit-letter (mode / 32) b'r' 32 refl,
    bit-letter (mode / 16) b'w' 16 refl,
    bit-letter (mode / 8) b'x' 8 refl,
    bit-letter (mode / 4) b'r' 4 refl,
    bit-letter (mode / 2) b'w' 2 refl,
    bit-letter (mode / 1) b'x' 1 refl,
  ),
  type_letter-TypeOf mode,
)
