-- ===== src/Copy/Tests.antt =====
-- The copy at concrete inputs.
use systemprogramming.Base.{◌≡◌, refl, arith, some, [], ◌∷◌, inl}
use systemprogramming.CString.{codes, str_eq}
use systemprogramming.Copy.Paths.{cpdr, node_at, PathsFit, EntriesFit, cpdr-kept}
use systemprogramming.Copy.{Node, Entries, file, dir, other, end, entry, lookup, copy, made}
use systemprogramming.Copy.Laws.{kept, kept_entries, Distinct, DistinctEntries}

abbrev sources : Entries
sources = entry (codes "a.c") (file 420 (codes "x")) (entry (codes "s") other end)

abbrev target : Entries
target = entry (codes "keep") (file 384 (codes "k")) end

abbrev home : Node
home = dir 493 (entry (codes "src") (dir 493 sources) (entry (codes "old") (dir 448 target) end))

cpdr-kept_example :
    (root' : Node) × (cpdr 3 home (codes "src" ∷ []) (codes "old" ∷ codes "new" ∷ []) ≡ some root')
    × (node_at (codes "old" ∷ codes "new" ∷ []) root'
        ≡ some (dir 493 (entry (codes "a.c") (file 420 (codes "x")) end)))
    × (node_at (codes "src" ∷ []) root' ≡ some (dir 493 sources))
unfolding str_eq Distinct DistinctEntries kept kept_entries node_at lookup PathsFit EntriesFit
cpdr-kept_example =
    cpdr-kept home (dir 493 sources) (dir 493 (entry (codes "a.c") (file 420 (codes "x")) end))
      (codes "src" ∷ []) (codes "old" ∷ codes "new" ∷ []) refl ((refl, tt), tt, (tt, tt, tt)) refl
      refl (dir 448 target, refl, tt) (inl refl) (omega arith, (omega arith, (omega arith, tt)))
      (omega arith, (omega arith, (omega arith, tt)))

copied : kept (dir 493 sources) ≡ some (dir 493 (entry (codes "a.c") (file 420 (codes "x")) end))
unfolding kept kept_entries
copied = refl

-- A directory with nothing to copy, onto a file: the file gets the mode of the directory.
chmod_only : copy (dir 493 end) (some (file 384 (codes "k"))) ≡ made (file 493 (codes "k"))
unfolding copy
chmod_only = refl
