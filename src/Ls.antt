-- ===== src/Ls.antt =====
-- lab2-lyjae/ls3.c. The directory, `stat` and the tables of names are parameters; a row of the output is
-- a record of what is printed in it.
pub mod Letters
mod Tests
use systemprogramming.Base.{
  ℕ, zero, suc, ◌+◌, ◌-◌, ◌*◌, ◌/◌, ◌%◌, ◌^◌, ◌≡◌, Bool, true, false, not, ◌==◌, ltb, List, [], ◌∷◌,
  ◌++◌, Option, none, some, if◌then◌else◌, set, replicate, take,
}
use systemprogramming.CString.{codes, str_eq}

-- The fields of `struct stat` that are shown.
pub record Stat : Type 0 where
  pub st_mode : ℕ
  pub st_nlink : ℕ
  pub st_uid : ℕ
  pub st_gid : ℕ
  pub st_size : ℕ
  pub st_mtime : ℕ

-- The type bits of a mode, `mode & S_IFMT` shifted down: 4 for S_IFDIR, 2 for S_IFCHR, 6 for S_IFBLK.
abbrev pub file_type : ℕ → ℕ
file_type mode = mode / 4096 % 16

-- `mode & bit`, for a power of two.
abbrev pub has_bit : ℕ → ℕ → Bool
has_bit mode bit = mode / bit % 2 == 1

-- `if(b) str[i] = c`.
pub put_if : Bool → ℕ → ℕ → List ℕ → List ℕ
put_if true i c str = set str i c
put_if false i c str = str

pub mode_to_letters : ℕ → List ℕ
unfolding put_if
mode_to_letters mode =
    let s0 = replicate 10 b'-' in
    let s1 = put_if (file_type mode == 4) 0 b'd' s0 in
    let s2 = put_if (file_type mode == 2) 0 b'c' s1 in
    let s3 = put_if (file_type mode == 6) 0 b'b' s2 in
    let s4 = put_if (has_bit mode 256) 1 b'r' s3 in
    let s5 = put_if (has_bit mode 128) 2 b'w' s4 in
    let s6 = put_if (has_bit mode 64) 3 b'x' s5 in
    let s7 = put_if (has_bit mode 32) 4 b'r' s6 in
    let s8 = put_if (has_bit mode 16) 5 b'w' s7 in
    let s9 = put_if (has_bit mode 8) 6 b'x' s8 in
    let s10 = put_if (has_bit mode 4) 7 b'r' s9 in
    let s11 = put_if (has_bit mode 2) 8 b'w' s10 in put_if (has_bit mode 1) 9 b'x' s11

-- What the program asks the system: `readdir` of a directory, if `opendir` succeeds, `stat`, and the
-- names of users and groups.
pub record System : Type 0 where
  pub entries : List ℕ → Option (List (List ℕ))
  pub stat : List ℕ → Option Stat
  pub user_name : ℕ → Option (List ℕ)
  pub group_name : ℕ → Option (List ℕ)

-- A name, or the number that `sprintf` prints in its place.
pub data Name : Type 0 where
  named : List ℕ → Name
  number : ℕ → Name

-- A line of the output, or a message.
pub data Row : Type 0 where
  title : List ℕ → Row
  shown :
      (letters : List ℕ)
      → (links : ℕ) → (user : Name) → (group : Name) → (size : ℕ) → (time : ℕ) → (name : List ℕ)
      → Row
  cannot_stat : List ℕ → Row
  cannot_open : List ℕ → Row

-- `uid_to_name` and `gid_to_name`, for what the tables say.
pub id_to_name : Option (List ℕ) → ℕ → Name
id_to_name none id = number id
id_to_name (some n) id = named n

pub show_file_info : System → List ℕ → Stat → Row
unfolding mode_to_letters id_to_name
show_file_info sys filename s =
    shown (mode_to_letters s.st_mode) s.st_nlink (id_to_name (sys.user_name s.st_uid) s.st_uid)
      (id_to_name (sys.group_name s.st_gid) s.st_gid) s.st_size s.st_mtime filename

pub dostat : System → List ℕ → Row
unfolding show_file_info
dostat sys filename = elim (sys.stat filename) [
  | none ↦ cannot_stat filename
  | some s ↦ show_file_info sys filename s
]

pub is_hidden : List ℕ → Bool
is_hidden [] = false
is_hidden (c ∷ cs) = c == b'.'

-- The name that an entry is looked up by; PATH_MAX is 4096.
pub full_path : List ℕ → List ℕ → List ℕ
full_path dirname name =
    if str_eq dirname (codes ".") then name else take 4095 (dirname ++ b'/' ∷ name)

-- The loop over the entries.
pub show_entries : System → List ℕ → List (List ℕ) → List Row
unfolding is_hidden full_path dostat
show_entries sys dirname [] = []
show_entries sys dirname (name ∷ names) =
    let rest = show_entries sys dirname names in
    if is_hidden name then rest else dostat sys (full_path dirname name) ∷ rest

pub do_ls : System → List ℕ → List Row
unfolding show_entries
do_ls sys dirname = elim (sys.entries dirname) [
  | none ↦ cannot_open dirname ∷ []
  | some names ↦ show_entries sys dirname names
]

-- The directories that are named by the arguments.
pub do_each : System → List (List ℕ) → List Row
unfolding do_ls
do_each sys [] = []
do_each sys (d ∷ ds) = title d ∷ (do_ls sys d ++ do_each sys ds)

-- `main`, for the arguments behind the name of the program.
pub main : System → List (List ℕ) → List Row
unfolding do_each
main sys [] = do_ls sys (codes ".")
main sys (d ∷ ds) = do_each sys (d ∷ ds)
