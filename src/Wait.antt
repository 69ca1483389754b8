-- ===== src/Wait.antt =====
-- lab6-lyjae/wait.c: the status of a child, printed as bits and taken apart. A status is a bit pattern.
mod Tests
use systemprogramming.Base.{
  ℕ, zero, suc, ◌+◌, ◌-◌, ◌*◌, ◌/◌, ◌%◌, ◌^◌, ◌≤◌, ◌<◌, refl, sym, ap, ◌∙◌, Bool, true, false, ◌==◌,
  List, [], ◌∷◌, ◌++◌, if◌then◌else◌,
}

-- What the loop prints: a digit, or a blank.
pub data Mark : Type 0 where
  digit : ℕ → Mark
  blank : Mark

-- `(child_status & (1 << i)) ? 1 : 0`.
abbrev pub bit_at : ℕ → ℕ → ℕ
bit_at status i = status / 2 ^ i % 2

-- The loop for `i` from `n - 1` down to 0.
pub print_bits : ℕ → ℕ → List Mark
print_bits zero status = []
print_bits (suc i) status =
    digit (bit_at status i) ∷ ((if i % 8 == 0 then blank ∷ [] else []) ++ print_bits i status)

-- `exit`, `signal` and `core dumped`.
pub record Parts : Type 0 where
  pub high_8 : ℕ
  pub low_7 : ℕ
  pub bit_7 : ℕ

pub parts : ℕ → Parts
parts status = record {
  high_8 = status / 2 ^ 8 % 2 ^ 8;
  low_7 = status % 2 ^ 7;
  bit_7 = status / 2 ^ 7 % 2;
}

-- What `parent_code` prints of a status.
pub parent_code : ℕ → List Mark × Parts
unfolding print_bits parts
parent_code status = (print_bits 16 status, parts status)

-- The number that printed bits stand for, with what was read before them.
abbrev pub read_bits : List Mark → ℕ → ℕ
read_bits [] n = n
read_bits (digit d ∷ ms) n = read_bits ms (n * 2 + d)
read_bits (blank ∷ ms) n = read_bits ms n
