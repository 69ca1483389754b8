-- ===== src/Cp.antt =====
-- lab1-lyjae/cp2.c: the copy of one file onto another path. The system calls are a record of functions
-- on a state of the world, and each of them may fail.
pub mod Laws
mod Tests
use systemprogramming.Base.{
  ℕ, zero, suc, Bool, true, false, ◌&&◌, ◌==◌, List, [], ◌∷◌, Option, none, some, if◌then◌else◌,
  length,
}

abbrev pub buffer_size : ℕ
buffer_size = 4096

-- `stat` gives `st_dev` and `st_ino`; `read` is called with the size of the buffer; `none` and `false`
-- stand for -1.
pub record System : Type 1 where
  pub World : Type 0
  pub stat : World → List ℕ → Option (ℕ × ℕ)
  pub open_read : World → List ℕ → World × Option ℕ
  pub creat : World → List ℕ → World × Option ℕ
  pub read : World → ℕ → ℕ → World × Option (List ℕ)
  pub write : World → ℕ → List ℕ → World × Option ℕ
  pub close : World → ℕ → World × Bool

-- How the program ends: 0 for `copied`, 1 for the others, each of which prints its message.
pub data Outcome : Type 0 where
  usage : Outcome
  cannot_stat : Outcome
  same_file : Outcome
  cannot_open : Outcome
  cannot_creat : Outcome
  write_error : Outcome
  read_error : Outcome
  close_error : Outcome
  copied : Outcome

-- `write(...) == n_chars`.
abbrev pub wrote_all : Option ℕ → List ℕ → Bool
wrote_all none bytes = false
wrote_all (some n) bytes = n == length bytes

-- Device and inode are the same, where the destination exists.
pub is_same_file : ℕ × ℕ → Option (ℕ × ℕ) → Bool
is_same_file x none = false
is_same_file x (some y) = x.0 == y.0 && x.1 == y.1

-- `close(in_fd) == -1 || close(out_fd) == -1`, which does not close the second one if the first one
-- fails.
abbrev pub closed :
    {World : Type 0} → (World → ℕ → World × Bool) → World → ℕ → ℕ → World × Option Outcome
closed close w i o =
    let (w1, first) = close w i in
    let (w2, second) = close w1 o in
    if first
    then (if second then (w2, some copied) else (w2, some close_error))
    else (w1, some close_error)

module _ (system : System) where
  open system use {World, stat, open_read, creat, read, write, close}

  -- What follows a `read`, with what follows a `write` of everything.
  pub after_read :
      (World → World × Option Outcome) → World → ℕ → ℕ → Option (List ℕ) → World × Option Outcome
  after_read more w i o none = (w, some read_error)
  after_read more w i o (some []) = closed close w i o
  after_read more w i o (some (c ∷ cs)) =
      let (w', n) = write w o (c ∷ cs) in
      if wrote_all n (c ∷ cs) then more w' else (w', some write_error)

  -- The loop and what follows it, with a round of fuel for each `read`; `none` if the fuel runs out.
  pub copy_loop : ℕ → World → ℕ → ℕ → World × Option Outcome
  unfolding after_read
  copy_loop zero w i o = (w, none)
  copy_loop (suc fuel) w i o =
      let (w', bytes) = read w i buffer_size in after_read (λ v. copy_loop fuel v i o) w' i o bytes

  -- `creat` and the rest.
  pub after_open : ℕ → World → List ℕ → Option ℕ → World × Option Outcome
  unfolding copy_loop
  after_open fuel w dst none = (w, some cannot_open)
  after_open fuel w dst (some i) =
      let (w', out) = creat w dst in
      elim out [ none ↦ (w', some cannot_creat) | some o ↦ copy_loop fuel w' i o ]

  -- The test and the rest.
  pub after_stat : ℕ → World → List ℕ → List ℕ → Option (ℕ × ℕ) → World × Option Outcome
  unfolding after_open is_same_file
  after_stat fuel w src dst none = (w, some cannot_stat)
  after_stat fuel w src dst (some x) =
      if is_same_file x (stat w dst)
      then (w, some same_file)
      else (let (w', in_fd) = open_read w src in after_open fuel w' dst in_fd)

  -- `main`, for the arguments behind the name of the program.
  pub main : ℕ → World → List (List ℕ) → World × Option Outcome
  unfolding after_stat
  main fuel w (src ∷ dst ∷ []) = after_stat fuel w src dst (stat w src)
  main fuel w [] = (w, some usage)
  main fuel w (src ∷ []) = (w, some usage)
  main fuel w (src ∷ dst ∷ more ∷ rest) = (w, some usage)
