-- ===== src/Copy.antt =====
-- lab2-lyjae/cpdr.c: the copy of a file or of a directory with all that is in it. The program is taken
-- to have every permission, and the disk to be large enough; what fails is what the types of the files
-- forbid. A name appears once in a directory, and `.` and `..` are left out of it.
pub mod Laws
pub mod Paths
mod Tests
use systemprogramming.Base.{
  ℕ, zero, suc, ◌+◌, ◌≡◌, refl, ℕ_discrete, Bool, true, false, List, [], ◌∷◌, ◌++◌, Option, none,
  some, if◌then◌else◌, take, drop, length,
}
use systemprogramming.CString.{str_eq}

abbrev pub buffer_size : ℕ
buffer_size = 4096

-- A regular file or a directory with its mode, or anything else, such as a device or a name for
-- which `stat` fails.
mutual
  pub data Node : Type 0 where
    file : (mode : ℕ) → (bytes : List ℕ) → Node
    dir : (mode : ℕ) → (entries : Entries) → Node
    other : Node

  pub data Entries : Type 0 where
    end : Entries
    entry : List ℕ → Node → Entries → Entries

-- The node of a path below a directory.
pub lookup : List ℕ → Entries → Option Node
lookup name end = none
lookup name (entry m n es) = let rest = lookup name es in if str_eq m name then some n else rest

-- The directory with a node of this name, in the place of the old one or behind the others.
pub put : List ℕ → Node → Entries → Entries
put name n end = entry name n end
put name n (entry m n' es) =
    let rest = put name n es in if str_eq m name then entry m n es else entry m n' rest

-- What becomes of the destination: `exit(1)`, no change, or a new node.
pub data Outcome : Type 0 where
  failed : Outcome
  skipped : Outcome
  made : Node → Outcome

-- `while ((n = read(in_fd, buf, BUFSIZE)) > 0) write(out_fd, buf, n)`: the bytes that are written. One
-- round of fuel for each `read`.
pub copy_loop : ℕ → List ℕ → List ℕ
copy_loop zero bytes = []
copy_loop (suc fuel) [] = []
copy_loop (suc fuel) (c ∷ cs) =
    take buffer_size (c ∷ cs) ++ copy_loop fuel (drop buffer_size (c ∷ cs))

-- `cp_file`, for the node of the destination. A directory cannot be opened for writing, and a device
-- takes the bytes.
pub cp_file : ℕ → List ℕ → Option Node → Outcome
unfolding copy_loop
cp_file mode bytes none = made (file mode (copy_loop (suc (length bytes)) bytes))
cp_file mode bytes (some (file m b)) = made (file mode (copy_loop (suc (length bytes)) bytes))
cp_file mode bytes (some (dir m es)) = failed
cp_file mode bytes (some other) = made other

-- Whether the loop of `cp_dir` passes over every entry.
pub nothing_to_copy : Entries → Bool
nothing_to_copy end = true
nothing_to_copy (entry name (file m b) es) = false
nothing_to_copy (entry name (dir m fs) es) = false
nothing_to_copy (entry name other es) = nothing_to_copy es

-- `chmod(dst, st.st_mode)` behind the loop.
pub finish : ℕ → Option Entries → Outcome
finish mode none = failed
finish mode (some ds) = made (dir mode ds)

-- `cp_file` or `cp_dir`, by the type of the source, and the loop of `cp_dir`. `mkdir` goes on where
-- something exists; below what is no directory nothing can be created.
mutual
  unfolding lookup put cp_file nothing_to_copy finish

  pub copy : Node → Option Node → Outcome
  copy (file mode bytes) d = cp_file mode bytes d
  copy other d = skipped
  copy (dir mode es) none = finish mode (copy_entries es end)
  copy (dir mode es) (some (dir m ds)) = finish mode (copy_entries es ds)
  copy (dir mode es) (some (file m b)) = if nothing_to_copy es then made (file mode b) else failed
  copy (dir mode es) (some other) = if nothing_to_copy es then made other else failed

  pub copy_entries : Entries → Entries → Option Entries
  copy_entries end ds = some ds
  copy_entries (entry name n es) ds = elim (copy n (lookup name ds)) [
    | failed ↦ none
    | skipped ↦ copy_entries es ds
    | made n' ↦ copy_entries es (put name n' ds)
  ]

-- `main`, for the number of arguments and the node of the source, if `stat` finds one.
pub main : ℕ → Option Node → Option Node → Outcome
unfolding copy
main argc none d = failed
main argc (some other) d = failed
main argc (some (file mode bytes)) d = elim (ℕ_discrete argc 3) [
  | yes e ↦ cp_file mode bytes d
  | no e ↦ failed
]
main argc (some (dir mode es)) d = elim (ℕ_discrete argc 3) [
  | yes e ↦ copy (dir mode es) d
  | no e ↦ failed
]
