-- ===== src/Cp/Tests.antt =====
-- A copy of three bytes where every call succeeds.
use systemprogramming.Base.{
  ℕ, zero, suc, ◌<◌, ◌≡◌, ◌≢◌, refl, sym, arith, true, List, [], ◌∷◌, ◌++◌, none, some, take, drop,
  take-append-drop, length,
}
use mathlib.Core.Path.{subst}
use systemprogramming.Cp.{System, buffer_size, copied, is_same_file, main}
use systemprogramming.Cp.Laws.{Files, NeverFails, main_copies}

-- The bytes that are left of the source, and those of the destination.
abbrev good_system : System
good_system = record {
  World = List ℕ × List ℕ;
  stat = λ w path. elim path [ [] ↦ none | c ∷ cs ↦ elim cs [ [] ↦ some (1, 7) | d ∷ ds ↦ none ] ];
  open_read = λ w path. (w, some 3);
  creat = λ w path. ((w.0, []), some 4);
  read = λ w fd n. ((drop n w.0, w.1), some (take n w.0));
  write = λ w fd bytes. ((w.0, w.1 ++ bytes), some (length bytes));
  close = λ w fd. (w, true);
}

take-nil : (n : ℕ) (xs : List ℕ) → 0 < n → take n xs ≡ [] → xs ≡ []
take-nil n [] p e = refl
take-nil zero (x ∷ xs) p e = absurd (omega (arith, p))
take-nil (suc n) (x ∷ xs) p e = cc

good_files : Files good_system 3 4
good_files = record {
  unread = λ w. w.0;
  written = λ w. w.1;
  read_some = λ w bytes h.
      let same : take buffer_size w.0 ≡ bytes = cc in
      subst (λ l. w.0 ≡ l ++ drop buffer_size w.0) same (sym (take-append-drop buffer_size w.0));
  read_end =
      λ w h. take-nil buffer_size w.0 (omega arith) (let e : take buffer_size w.0 ≡ [] = cc in e);
  read_keeps = λ w. refl;
  write_all = λ w bytes h. refl;
  write_keeps = λ w bytes. refl;
  close_keeps = λ w fd. refl;
}

main_copies_example :
    let r = main good_system 4 (5 ∷ 6 ∷ 7 ∷ [], 8 ∷ []) ((97 ∷ []) ∷ (98 ∷ 98 ∷ []) ∷ []) in
    (r.1 ≢ none)
    × (NeverFails good_system 3 4 → r.1 ≡ some copied)
    × (r.1 ≡ some copied → r.0.1 ≡ 5 ∷ 6 ∷ 7 ∷ [])
unfolding is_same_file good_files
main_copies_example =
    main_copies good_system 4 (5 ∷ 6 ∷ 7 ∷ [], 8 ∷ []) (97 ∷ []) (98 ∷ 98 ∷ []) (1, 7) 3 4
      good_files refl refl refl refl refl (omega arith)
