-- ===== src/Cp/Laws.antt =====
-- What cp2.c leaves in the destination.
use mathlib.Core.Path.{subst}
use systemprogramming.Base.{
  ℕ, zero, suc, ◌<◌, ◌≡◌, ◌≢◌, refl, sym, ap, ◌∙◌, arith, true, false, inl, inr, Bool-cases, List,
  [], ◌∷◌, ◌++◌, append-nil, append_assoc, Option, none, some, length, length-append,
}
use systemprogramming.Cp.{
  System, buffer_size, Outcome, copied, wrote_all, is_same_file, closed, after_read, copy_loop,
  after_open, after_stat, main,
}

-- What POSIX says of `read`, `write` and `close` for a regular file that is open for reading as `i` and
-- another one that is open for writing as `o`: the bytes that `i` has still to give, and those that
-- were written through `o`.
pub record Files (system : System) (i o : ℕ) : Type 0 where
  pub unread : system.World → List ℕ
  pub written : system.World → List ℕ
  pub read_some :
      (w : system.World) (bytes : List ℕ)
      → (system.read w i buffer_size).1 ≡ some bytes
      → unread w ≡ bytes ++ unread (system.read w i buffer_size).0
  pub read_end : (w : system.World) → (system.read w i buffer_size).1 ≡ some [] → unread w ≡ []
  pub read_keeps : (w : system.World) → written (system.read w i buffer_size).0 ≡ written w
  pub write_all :
      (w : system.World) (bytes : List ℕ)
      → (system.write w o bytes).1 ≡ some (length bytes)
      → written (system.write w o bytes).0 ≡ written w ++ bytes
  pub write_keeps :
      (w : system.World) (bytes : List ℕ) → unread (system.write w o bytes).0 ≡ unread w
  pub close_keeps : (w : system.World) (fd : ℕ) → written (system.close w fd).0 ≡ written w

-- No `read`, `write` or `close` fails, and each `write` writes all that it is given.
pub record NeverFails (system : System) (i o : ℕ) : Type 0 where
  pub reads : (w : system.World) → (system.read w i buffer_size).1 ≢ none
  pub writes :
      (w : system.World) (bytes : List ℕ) → (system.write w o bytes).1 ≡ some (length bytes)
  pub closes : (w : system.World) (fd : ℕ) → (system.close w fd).1 ≡ true

written_all : (n : Option ℕ) (bytes : List ℕ) → n ≡ some (length bytes) → wrote_all n bytes ≡ true
written_all none bytes h = cc
written_all (some n) bytes h = let same : n ≡ length bytes = cc in ground (arith, same)

wrote_all_lem : (n : Option ℕ) (bytes : List ℕ) → wrote_all n bytes ≡ true → n ≡ some (length bytes)
wrote_all_lem none bytes h = cc
wrote_all_lem (some n) bytes h = ap some (ground (arith, h))

module _ (system : System) where
  open system use {World, stat, open_read, creat, read, write, close}

  module _ (i o : ℕ) (files : Files system i o) where
    open files use {unread, written}

    -- The fuel is enough; where no call fails the program succeeds; and where it reports no error the
    -- bytes were all written.
    abbrev Copies : List ℕ → World × Option Outcome → Type 0
    Copies bytes r =
        (r.1 ≢ none)
        × (NeverFails system i o → r.1 ≡ some copied)
        × (r.1 ≡ some copied → written r.0 ≡ bytes)

    closed-Copies : (w : World) → Copies (written w) (closed close w i o)
    closed-Copies w =
        let w1 = (close w i).0 in
        let kept = files.close_keeps w1 o ∙ files.close_keeps w i in
        elim (Bool-cases (close w i).1) [
          | inr e ↦ rw e ((λ h. cc), (λ n. let all = n.closes w i in cc), λ h. cc)
          | inl e ↦ elim (Bool-cases (close w1 o).1) [
            | inr f ↦ rw (e, f) ((λ h. cc), (λ n. let all = n.closes w1 o in cc), λ h. cc)
            | inl f ↦ rw (e, f) ((λ h. cc), (λ n. refl), λ h. kept)
          ]
        ]

    -- What the rest of the loop has to do behind a `read`.
    abbrev Continues : World → (World → World × Option Outcome) → Type 0
    Continues w more =
        (v : World)
        → length (unread v) < length (unread w)
        → Copies (written v ++ unread v) (more v)

    after_write-Copies :
        (more : World → World × Option Outcome) (w : World) (c : ℕ) (cs : List ℕ)
        → (read w i buffer_size).1 ≡ some (c ∷ cs)
        → Continues w more
        → Copies
            (written w ++ unread w)
            (after_read system more (read w i buffer_size).0 i o (some (c ∷ cs)))
    unfolding after_read
    after_write-Copies more w c cs r k =
        let w1 : World = (read w i buffer_size).0 in
        let v : World = (write w1 o (c ∷ cs)).0 in
        elim (Bool-cases (wrote_all (write w1 o (c ∷ cs)).1 (c ∷ cs))) [
          | inr e ↦
              let all = λ (n : NeverFails system i o).
                written_all (write w1 o (c ∷ cs)).1 (c ∷ cs) (n.writes w1 (c ∷ cs)) in
              rw e ((λ h. cc), (λ n. let good = all n in cc), λ h. cc)
          | inl e ↦
              let got : unread w ≡ (c ∷ cs) ++ unread w1 = files.read_some w (c ∷ cs) r in
              let put : written v ≡ written w1 ++ (c ∷ cs) =
                files.write_all w1 (c ∷ cs) (wrote_all_lem (write w1 o (c ∷ cs)).1 (c ∷ cs) e) in
              let left : unread v ≡ unread w1 = files.write_keeps w1 (c ∷ cs) in
              let whole : written v ++ unread v ≡ written w ++ unread w =
                ap (λ l. l ++ unread v) put
                ∙ append_assoc (written w1) (c ∷ cs) (unread v)
                ∙ ap (λ l. written w1 ++ ((c ∷ cs) ++ l)) left
                ∙ ap (λ l. written w1 ++ l) (sym got)
                ∙ ap (λ l. l ++ unread w) (files.read_keeps w) in
              let shorter : length (unread v) < length (unread w) =
                omega (arith, ap length got, ap length left, length-append cs (unread w1)) in
              rw e (subst (λ l. Copies l (more v)) whole (k v shorter))
        ]

    after_read-Copies :
        (more : World → World × Option Outcome) (w : World) (b : Option (List ℕ))
        → (read w i buffer_size).1 ≡ b
        → Continues w more
        → Copies (written w ++ unread w) (after_read system more (read w i buffer_size).0 i o b)
    unfolding after_read
    after_read-Copies more w none r k = ((λ h. cc), (λ n. absurd (n.reads w r)), λ h. cc)
    after_read-Copies more w (some []) r k =
        let w1 : World = (read w i buffer_size).0 in
        let whole : written w1 ≡ written w ++ unread w =
          files.read_keeps w
          ∙ sym (append-nil (written w))
          ∙ ap (λ l. written w ++ l) (sym (files.read_end w r)) in
        subst (λ l. Copies l (closed close w1 i o)) whole (closed-Copies w1)
    after_read-Copies more w (some (c ∷ cs)) r k = after_write-Copies more w c cs r k

    copy_loop-Copies :
        (fuel : ℕ) (w : World)
        → length (unread w) < fuel
        → Copies (written w ++ unread w) (copy_loop system fuel w i o)
    unfolding copy_loop
    copy_loop-Copies zero w h = elim h [ ]
    copy_loop-Copies (suc fuel) w h =
        after_read-Copies (λ v. copy_loop system fuel v i o) w (read w i buffer_size).1 refl
          (λ v shorter. copy_loop-Copies fuel v (omega (arith, h, shorter)))

  -- The destination is not the source, both can be opened, and the destination is empty behind `creat`;
  -- `read`, `write` and `close` do what POSIX says. With a round of fuel for each byte of the source
  -- and one more the program ends; it succeeds where no later call fails; and where it reports no error
  -- the destination has exactly the bytes of the source.
  pub main_copies :
      (fuel : ℕ) (w : World) (src dst : List ℕ) (x : ℕ × ℕ) (i o : ℕ) (files : Files system i o)
      → stat w src ≡ some x
      → is_same_file x (stat w dst) ≡ false
      → (open_read w src).1 ≡ some i
      → (creat (open_read w src).0 dst).1 ≡ some o
      → let ready = (creat (open_read w src).0 dst).0 in
        files.written ready ≡ []
        → length (files.unread ready) < fuel
        → let r = main system fuel w (src ∷ dst ∷ []) in
          (r.1 ≢ none)
          × (NeverFails system i o → r.1 ≡ some copied)
          × (r.1 ≡ some copied → files.written r.0 ≡ files.unread ready)
  unfolding main after_stat after_open
  main_copies fuel w src dst x i o files s d a b empty enough =
      let ready : World = (creat (open_read w src).0 dst).0 in
      let whole : files.written ready ++ files.unread ready ≡ files.unread ready =
        ap (λ l. l ++ files.unread ready) empty in
      let end : Copies i o files (files.unread ready) (copy_loop system fuel ready i o) =
        subst (λ l. Copies i o files l (copy_loop system fuel ready i o)) whole
          (copy_loop-Copies i o files fuel ready enough) in
      rw (s, main, d, after_stat, a, after_open, b) end
