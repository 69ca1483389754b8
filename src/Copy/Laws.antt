-- ===== src/Copy/Laws.antt =====
-- A copy to a new place is the source, and a copy into a directory keeps the rest of it.
use systemprogramming.Base.{
  ℕ, zero, suc, ◌<◌, ◌≡◌, refl, sym, ap, ◌∙◌, arith, true, false, List, [], ◌∷◌, ◌++◌, Option, none,
  some, if◌then◌else◌, take, drop, length, length-drop, take-append-drop, Bool-cases, inl, inr,
}
use systemprogramming.CString.{str_eq, str_eq_iff}
use systemprogramming.Copy.{
  buffer_size, Node, Entries, file, dir, other, end, entry, lookup, put, Outcome, failed, skipped,
  made, copy_loop, cp_file, finish, copy, copy_entries,
}

copy_loop-all : (fuel : ℕ) (bytes : List ℕ) → length bytes < fuel → copy_loop fuel bytes ≡ bytes
unfolding copy_loop
copy_loop-all zero bytes h = absurd (omega arith)
copy_loop-all (suc fuel) [] h = refl
copy_loop-all (suc fuel) (c ∷ cs) h =
    ap (λ t. take buffer_size (c ∷ cs) ++ t)
      (copy_loop-all fuel (drop buffer_size (c ∷ cs))
        (omega (arith, length-drop buffer_size (c ∷ cs))))
    ∙ take-append-drop buffer_size (c ∷ cs)

-- What a copy to a new place is to be: the same files and directories with the same modes, without
-- what is neither.
unfoldable mutual
  pub kept : Node → Option Node
  kept (file mode bytes) = some (file mode bytes)
  kept (dir mode es) = some (dir mode (kept_entries es))
  kept other = none

  pub kept_entries : Entries → Entries
  kept_entries end = end
  kept_entries (entry name n es) = elim (kept n) [
    | none ↦ kept_entries es
    | some n' ↦ entry name n' (kept_entries es)
  ]

unfoldable pub to_outcome : Option Node → Outcome
to_outcome none = skipped
to_outcome (some n) = made n

-- No entry has this name.
abbrev pub Absent : List ℕ → Entries → Type 0
Absent name end = Unit
Absent name (entry m n es) = (str_eq m name ≡ false) × Absent name es

-- The names of each directory differ.
unfoldable mutual
  pub Distinct : Node → Type 0
  Distinct (file mode bytes) = Unit
  Distinct (dir mode es) = DistinctEntries es
  Distinct other = Unit

  pub DistinctEntries : Entries → Type 0
  DistinctEntries end = Unit
  DistinctEntries (entry name n es) = Absent name es × Distinct n × DistinctEntries es

-- No name of the first is one of the second.
abbrev Fresh : Entries → Entries → Type 0
Fresh end ds = Unit
Fresh (entry name n es) ds = Absent name ds × Fresh es ds

abbrev join : Entries → Entries → Entries
join end es = es
join (entry name n ds) es = entry name n (join ds es)

join_assoc : (xs ys zs : Entries) → join (join xs ys) zs ≡ join xs (join ys zs)
join_assoc end ys zs = refl
join_assoc (entry name n xs) ys zs = ap (λ t. entry name n t) (join_assoc xs ys zs)

join-end : (xs : Entries) → join xs end ≡ xs
join-end end = refl
join-end (entry name n xs) = ap (λ t. entry name n t) (join-end xs)

str_eq_sym : (s t : List ℕ) → str_eq s t ≡ false → str_eq t s ≡ false
str_eq_sym s t h = elim (Bool-cases (str_eq t s)) [
  | inr e ↦ e
  | inl e ↦
      let back : str_eq s t ≡ true = (str_eq_iff s t).1 (sym ((str_eq_iff t s).0 e)) in
      absurd (ground (arith, back, h))
]

lookup-Absent : (name : List ℕ) (ds : Entries) → Absent name ds → lookup name ds ≡ none
unfolding lookup
lookup-Absent name end a = refl
lookup-Absent name (entry m n ds) a = rw (a.0) (lookup-Absent name ds a.1)

put-Absent :
    (name : List ℕ) (n : Node) (ds : Entries)
    → Absent name ds
    → put name n ds ≡ join ds (entry name n end)
unfolding put
put-Absent name n end a = refl
put-Absent name n (entry m n' ds) a = rw (a.0) (ap (λ t. entry m n' t) (put-Absent name n ds a.1))

Absent-join :
    (m name : List ℕ) (n : Node) (ds : Entries)
    → Absent m ds
    → str_eq name m ≡ false
    → Absent m (join ds (entry name n end))
Absent-join m name n end a h = (h, tt)
Absent-join m name n (entry k n' ds) a h = (a.0, Absent-join m name n ds a.1 h)

Fresh-join :
    (name : List ℕ) (n : Node) (es ds : Entries)
    → Fresh es ds
    → Absent name es
    → Fresh es (join ds (entry name n end))
Fresh-join name n end ds f a = tt
Fresh-join name n (entry m n' es) ds f a =
    (Absent-join m name n ds f.0 (str_eq_sym m name a.0), Fresh-join name n es ds f.1 a.1)

Fresh-end : (es : Entries) → Fresh es end
Fresh-end end = tt
Fresh-end (entry name n es) = (tt, Fresh-end es)

mutual
  unfolding copy copy_entries kept kept_entries cp_file finish to_outcome Distinct DistinctEntries

  -- A copy to a place where nothing is makes the kept tree.
  pub copy_new : (n : Node) → Distinct n → copy n none ≡ to_outcome (kept n)
  copy_new (file mode bytes) d =
      ap (λ t. made (file mode t)) (copy_loop-all (suc (length bytes)) bytes (omega arith))
  copy_new other d = refl
  copy_new (dir mode es) d = ap (finish mode) (copy_entries_new es end d (Fresh-end es))

  copy_entries_new :
      (es ds : Entries)
      → DistinctEntries es
      → Fresh es ds
      → copy_entries es ds ≡ some (join ds (kept_entries es))
  copy_entries_new end ds d f = ap some (sym (join-end ds))
  copy_entries_new (entry name n es) ds d f =
      ap
        (λ (o : Outcome). elim o [
          | failed ↦ none
          | skipped ↦ copy_entries es ds
          | made n' ↦ copy_entries es (put name n' ds)
        ])
        (ap (copy n) (lookup-Absent name ds f.0) ∙ copy_new n d.1)
      ∙ go (λ ds' f'. copy_entries_new es ds' d.2 f') (kept n)
    where
      go :
          ((ds' : Entries) → Fresh es ds' → copy_entries es ds' ≡ some (join ds' (kept_entries es)))
          → (o : Option Node)
          → elim (to_outcome o) [
            | failed ↦ none
            | skipped ↦ copy_entries es ds
            | made n' ↦ copy_entries es (put name n' ds)
          ]
            ≡ some (
                join ds
                  (elim o [ none ↦ kept_entries es | some n' ↦ entry name n' (kept_entries es) ]))
      go rest none = rest ds f.1
      go rest (some n') =
          ap (copy_entries es) (put-Absent name n' ds f.0)
          ∙ rest (join ds (entry name n' end)) (Fresh-join name n' es ds f.1 d.0)
          ∙ ap some (join_assoc ds (entry name n' end) (kept_entries es))

pub lookup-put :
    (name m : List ℕ) (n : Node) (ds : Entries)
    → str_eq m name ≡ false
    → lookup name (put m n ds) ≡ lookup name ds
unfolding lookup put
lookup-put name m n end h = rw h refl
lookup-put name m n (entry k n' ds) h = elim (Bool-cases (str_eq k m)) [
  | inl e ↦
      let same : k ≡ m = (str_eq_iff k m).0 e in
      let apart : str_eq k name ≡ false = rw same h in rw (e, apart) refl
  | inr e ↦ rw e (ap (λ t. if str_eq k name then some n' else t) (lookup-put name m n ds h))
]

-- When the entries of a directory are copied without an error into one that exists, every name
-- that the source does not have keeps its node in the destination, or stays without one.
pub copy_entries-lookup :
    (es ds ds' : Entries) (name : List ℕ)
    → Absent name es
    → copy_entries es ds ≡ some ds'
    → lookup name ds' ≡ lookup name ds
unfolding copy_entries
copy_entries-lookup end ds ds' name a h = let same : ds ≡ ds' = cc in ap (lookup name) (sym same)
copy_entries-lookup (entry m n es) ds ds' name a h =
    go (λ ds1 e. copy_entries-lookup es ds1 ds' name a.1 e) (copy n (lookup m ds)) h
  where
    go :
        ((ds1 : Entries) → copy_entries es ds1 ≡ some ds' → lookup name ds' ≡ lookup name ds1)
        → (o : Outcome)
        → elim o [
          | failed ↦ none
          | skipped ↦ copy_entries es ds
          | made n' ↦ copy_entries es (put m n' ds)
        ]
          ≡ some ds'
        → lookup name ds' ≡ lookup name ds
    go rest failed e = cc
    go rest skipped e = rest ds e
    go rest (made n') e = rest (put m n' ds) e ∙ lookup-put name m n' ds a.0
