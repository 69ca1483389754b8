-- ===== src/Copy/Paths.antt =====
-- lab2-lyjae/cpdr.c with the paths of its two arguments in one tree of files, which both are in.
use systemprogramming.Base.{
  ℕ, ◌+◌, ◌<◌, ◌≡◌, refl, sym, ap, ap₂, ◌∙◌, false, List, [], ◌∷◌, Option, none, some, ◌⊎◌, inl,
  inr, length, Bool-cases, ℕ_discrete,
}
use systemprogramming.CString.{str_eq, str_eq_iff}
use systemprogramming.Copy.{
  Node, Entries, file, dir, other, end, entry, lookup, put, failed, skipped, made, main, copy,
}
use systemprogramming.Copy.Laws.{kept, Distinct, to_outcome, copy_new, lookup-put}

-- The names from the root on.
abbrev pub FilePath : Type 0
FilePath = List (List ℕ)

unfoldable pub node_at : FilePath → Node → Option Node
node_at [] n = some n
node_at (p ∷ ps) (dir m es) = elim (lookup p es) [ none ↦ none | some c ↦ node_at ps c ]
node_at (p ∷ ps) (file m b) = none
node_at (p ∷ ps) other = none

-- The tree with another node at a path whose directory exists.
unfoldable pub write_at : FilePath → Node → Node → Option Node
write_at [] n r = some n
write_at (p ∷ ps) n (file m b) = none
write_at (p ∷ ps) n other = none
write_at (p ∷ []) n (dir m es) = some (dir m (put p n es))
write_at (p ∷ q ∷ ps) n (dir m es) = elim (lookup p es) [
  | none ↦ none
  | some c ↦ elim (write_at (q ∷ ps) n c) [ none ↦ none | some c' ↦ some (dir m (put p c' es)) ]
]

-- The tree behind a run of the program, or `none` if it calls `exit(1)`. The source is read before
-- anything is written, so that this is the program only where neither path leads through the other.
unfoldable pub cpdr : ℕ → Node → FilePath → FilePath → Option Node
cpdr argc root src dst = elim (main argc (node_at src root) (node_at dst root)) [
  | failed ↦ none
  | skipped ↦ some root
  | made n ↦ write_at dst n root
]

-- Both paths go on differently at some name: neither is the other or leads through it.
abbrev pub Apart : FilePath → FilePath → Type 0
Apart [] dst = ⊥
Apart (a ∷ src) [] = ⊥
Apart (a ∷ src) (b ∷ dst) = (str_eq b a ≡ false) ⊎ ((b ≡ a) × Apart src dst)

-- The directory that the last name of the path is to be in exists.
abbrev pub HasParent : FilePath → Node → Type 0
HasParent [] r = ⊥
HasParent (p ∷ ps) (file m b) = ⊥
HasParent (p ∷ ps) other = ⊥
HasParent (p ∷ []) (dir m es) = Unit
HasParent (p ∷ q ∷ ps) (dir m es) = (c : Node) × (lookup p es ≡ some c) × HasParent (q ∷ ps) c

-- The bytes of a path, a slash in front of each name.
abbrev pub path_length : FilePath → ℕ
path_length [] = 0
path_length (p ∷ ps) = 1 + length p + path_length ps

-- Below a path of this length, every path fits `src_path[PATH_MAX]` with its terminator.
unfoldable mutual
  pub PathsFit : ℕ → Node → Type 0
  PathsFit k (file m b) = k < 4096
  PathsFit k other = k < 4096
  PathsFit k (dir m es) = (k < 4096) × EntriesFit k es

  pub EntriesFit : ℕ → Entries → Type 0
  EntriesFit k end = Unit
  EntriesFit k (entry name n es) = PathsFit (k + 1 + length name) n × EntriesFit k es

lookup-put_same : (name : List ℕ) (n : Node) (ds : Entries) → lookup name (put name n ds) ≡ some n
unfolding lookup put
lookup-put_same name n end = rw ((str_eq_iff name name).1 refl) refl
lookup-put_same name n (entry k n' ds) = elim (Bool-cases (str_eq k name)) [
  | inl e ↦ rw (e, e) refl
  | inr e ↦ rw (e, e) (lookup-put_same name n ds)
]

-- What is written is found again, and everywhere else the tree is as before.
record Written (dst : FilePath) (n r : Node) : Type 0 where
  tree : Node
  done : write_at dst n r ≡ some tree
  there : node_at dst tree ≡ some n
  elsewhere : (src : FilePath) → Apart src dst → node_at src tree ≡ node_at src r

abbrev below : FilePath → Option Node → Option Node
below ps o = elim o [ none ↦ none | some c ↦ node_at ps c ]

-- A node under one name, where the rest of the path is apart in the old and the new node.
put-elsewhere :
    (m : ℕ) (es : Entries) (p : List ℕ) (ps : FilePath) (c' : Node)
    → ((xs : FilePath) → Apart xs ps → below xs (some c') ≡ below xs (lookup p es))
    → (src : FilePath) → Apart src (p ∷ ps)
    → node_at src (dir m (put p c' es)) ≡ node_at src (dir m es)
unfolding node_at
put-elsewhere m es p ps c' rest [] a = absurd a
put-elsewhere m es p ps c' rest (a ∷ xs) (inl e) = ap (below xs) (lookup-put a p c' es e)
put-elsewhere m es p ps c' rest (a ∷ xs) (inr (same, apart)) =
    let here : lookup a (put p c' es) ≡ some c' =
      ap (λ t. lookup t (put p c' es)) (sym same) ∙ lookup-put_same p c' es in
    ap (below xs) here ∙ rest xs apart ∙ ap (λ t. below xs (lookup t es)) same

Apart-nil : (xs : FilePath) → Apart xs [] → ⊥
Apart-nil [] a = a
Apart-nil (b ∷ xs) a = a

write_at_lem : (dst : FilePath) (n r : Node) → HasParent dst r → Written dst n r
unfolding node_at write_at
write_at_lem [] n r h = absurd h
write_at_lem (p ∷ []) n (dir m es) h = record {
  tree = dir m (put p n es);
  done = refl;
  there = ap (below []) (lookup-put_same p n es);
  elsewhere = λ src a. put-elsewhere m es p [] n (λ xs b. absurd (Apart-nil xs b)) src a;
}
write_at_lem (p ∷ []) n (file m b) h = absurd h
write_at_lem (p ∷ []) n other h = absurd h
write_at_lem (p ∷ q ∷ ps) n (file m b) h = absurd h
write_at_lem (p ∷ q ∷ ps) n other h = absurd h
write_at_lem (p ∷ q ∷ ps) n (dir m es) (c, e, h) =
    let w : Written (q ∷ ps) n c = write_at_lem (q ∷ ps) n c h in
    record {
      tree = dir m (put p (w.tree) es);
      done = rw (e, write_at) (rw (w.done) refl);
      there = ap (below (q ∷ ps)) (lookup-put_same p (w.tree) es) ∙ w.there;
      elsewhere = λ src a.
          put-elsewhere m es p (q ∷ ps) (w.tree) (λ xs b. w.elsewhere xs b ∙ ap (below xs) (sym e))
            src a;
    }

main_new : (n k : Node) → Distinct n → kept n ≡ some k → main 3 (some n) none ≡ made k
unfolding main kept copy to_outcome ℕ_discrete
main_new (file m b) k d e = copy_new (file m b) d ∙ ap to_outcome e
main_new (dir m es) k d e = copy_new (dir m es) d ∙ ap to_outcome e
main_new other k d e = cc

-- The source is a file or a directory in which the names of each directory differ, nothing is at the
-- destination but the directory that it is to be in, neither path leads through the other, no link
-- joins the two trees, and no path to be copied is longer than PATH_MAX. Then the program succeeds,
-- the destination is the same tree as the source, with the same names, modes and contents in the same
-- order, without what is neither a regular file nor a directory, and the source is as before.
pub cpdr-kept :
    (root n k : Node) (src dst : FilePath)
    → node_at src root ≡ some n
    → Distinct n
    → kept n ≡ some k
    → node_at dst root ≡ none
    → HasParent dst root
    → Apart src dst
    → PathsFit (path_length src) n
    → PathsFit (path_length dst) n
    → (root' : Node) × (cpdr 3 root src dst ≡ some root')
      × (node_at dst root' ≡ some k)
      × (node_at src root' ≡ some n)
unfolding cpdr
cpdr-kept root n k src dst found d e free parent apart _ _ =
    let w = write_at_lem dst k root parent in
    let copied : main 3 (node_at src root) (node_at dst root) ≡ made k =
      ap₂ (main 3) found free ∙ main_new n k d e in
    (w.tree, rw (copied, cpdr) w.done, w.there, w.elsewhere src apart ∙ found)
