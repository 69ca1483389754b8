-- ===== src/Shell/Exec/Laws.antt =====
-- Redirection, the descriptors that are left open, and the bounds of the tables of the shell.
use systemprogramming.Base.{
  ℕ, ◌+◌, ◌≡◌, refl, sym, ap, ◌∙◌, arith, true, false, List, [], ◌∷◌, ◌++◌, append-nil,
  append_assoc, none, some,
}
use systemprogramming.CString.{codes, str_eq}
use systemprogramming.Shell.Exec.{Os, Plan, planned, no_plan, scan}

-- A word that is no redirection.
abbrev pub IsPlain : List ℕ → Type 0
IsPlain a = (str_eq a (codes "<") ≡ false) × (str_eq a (codes ">") ≡ false)

abbrev pub AllPlain : List (List ℕ) → Type 0
AllPlain [] = Unit
AllPlain (a ∷ rest) = IsPlain a × AllPlain rest

abbrev pub with_words : Plan → List (List ℕ) → Plan
with_words p ws = record p { words = p.words ++ ws }

module _ (os : Os) where
  open os use {World, open_input, open_output, spawn, wait}

  scan-nil : (w : World) (p : Plan) → scan os w [] p ≡ (w, planned p)
  unfolding scan
  scan-nil w p = refl

  scan-one :
      (w : World) (a : List ℕ) (rest : List (List ℕ)) (p : Plan)
      → IsPlain a
      → scan os w (a ∷ rest) p ≡ scan os w rest (with_words p (a ∷ []))
  unfolding scan
  scan-one w a [] p h = refl
  scan-one w a (b ∷ rest) p h = ground (arith, h.0, h.1)

  -- Words that are no redirections are passed over.
  pub scan-skip :
      (w : World) (ws rest : List (List ℕ)) (p : Plan)
      → AllPlain ws
      → scan os w (ws ++ rest) p ≡ scan os w rest (with_words p ws)
  scan-skip w [] rest p h =
      ap (λ t. scan os w rest (record p { words = t })) (sym (append-nil p.words))
  scan-skip w (a ∷ ws) rest p h =
      scan-one w a (ws ++ rest) p h.0
      ∙ scan-skip w ws rest (with_words p (a ∷ [])) h.1
      ∙ ap (λ t. scan os w rest (record p { words = t })) (append_assoc p.words (a ∷ []) ws)

  scan-input :
      (w : World) (file : List ℕ) (rest : List (List ℕ)) (p : Plan)
      → (open_input w file).1 ≡ true
      → scan os w (codes "<" ∷ file ∷ rest) p
        ≡ scan os (open_input w file).0 rest (record p { input = some file; opened = p.opened + 1 })
  unfolding scan str_eq
  scan-input w file rest p good = ground (arith, good)

  scan-output :
      (w : World) (file : List ℕ) (rest : List (List ℕ)) (p : Plan)
      → (open_output w file).1 ≡ true
      → scan os w (codes ">" ∷ file ∷ rest) p
        ≡ scan os
            (open_output w file).0
            rest
            (record p { output = some file; opened = p.opened + 1 })
  unfolding scan str_eq
  scan-output w file rest p good = ground (arith, good)

  -- Arguments `before < source between > target after`, where the other words are no redirections
  -- and both files can be opened: the command gets the two files and exactly the other words.
  pub scan-redirects :
      (w : World) (before between after : List (List ℕ)) (source target : List ℕ)
      → AllPlain before
      → AllPlain between
      → AllPlain after
      → (open_input w source).1 ≡ true
      → (open_output (open_input w source).0 target).1 ≡ true
      → scan os w
          (before ++ (codes "<" ∷ source ∷ (between ++ (codes ">" ∷ target ∷ after))))
          no_plan
        ≡ (
          (open_output (open_input w source).0 target).0,
          planned (record {
            input = some source;
            output = some target;
            words = before ++ between ++ after;
            opened = 2;
          }),
        )
  scan-redirects w before between after source target hb hm ha gi go =
      let w1 : World = (open_input w source).0 in
      let w2 : World = (open_output w1 target).0 in
      let p1 : Plan = record { input = some source; output = none; words = before; opened = 1 } in
      let p2 : Plan = record {
        input = some source;
        output = some target;
        words = before ++ between;
        opened = 2;
      } in
      scan-skip w before (codes "<" ∷ source ∷ (between ++ (codes ">" ∷ target ∷ after))) no_plan hb
      ∙ scan-input w source (between ++ (codes ">" ∷ target ∷ after)) (with_words no_plan before) gi
      ∙ scan-skip w1 between (codes ">" ∷ target ∷ after) p1 hm
      ∙ scan-output w1 target after (with_words p1 between) go
      ∙ ap (λ t. scan os w2 t p2) (sym (append-nil after))
      ∙ scan-skip w2 after [] p2 ha
      ∙ scan-nil w2 (with_words p2 after)
