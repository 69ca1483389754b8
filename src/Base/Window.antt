-- ===== src/Base/Window.antt =====
-- A circular window over an array: the `n` entries from index `h` on, going round at `cap`. The
-- bounded buffers of lab8 and lab9 keep their contents in such a window.
use Prim.Native.Nat.{ℕ, zero, suc, ◌+◌, ◌-◌, ◌%◌, ◌≤◌, ◌<◌}
use mathlib.Core.Path.{◌≡◌, refl, sym, ap, ap₂, ◌∙◌}
use mathlib.Core.Logic.{◌≢◌, ◌⊎◌, inl, inr}
use mathlib.Core.List.{List, [], ◌∷◌, ◌++◌}
use native.Mathlib.Nat.{mod-add-mod, mod-eq_of_lt, mod-eq-sub-mod, add-zero}
use native.Mathlib.Decide.{dec_lt}
use native.Mathlib.Omega.{arith}
use systemprogramming.Base.Lists.{length, get_or, set, get_or-set_self, get_or-set_ne}

-- Below twice the modulus a remainder is a comparison and a difference.
mod_cases :
    (m cap : ℕ) → m < cap + cap → ((m < cap) × (m % cap ≡ m)) ⊎ ((cap ≤ m) × (m % cap ≡ m - cap))
mod_cases m cap h = elim (dec_lt m cap) [
  | yes p ↦ inl (p, mod-eq_of_lt p)
  | no p ↦ inr (
    omega arith,
    mod-eq-sub-mod {n = m} {m = cap} (omega arith)
        ∙ mod-eq_of_lt {n = m - cap} {m = cap} (omega arith),
  )
]

-- Two offsets below `cap` from one index are two places.
mod_apart : (cap h k n : ℕ) → h < cap → k < n → n < cap → (h + n) % cap ≢ (h + k) % cap
mod_apart cap h k n hh hk hn =
    ground (arith, mod_cases (h + n) cap (omega arith), mod_cases (h + k) cap (omega arith))

mod_shift : (cap h k : ℕ) → ((h + 1) % cap + k) % cap ≡ (h + suc k) % cap
mod_shift cap h k = rw mod-add-mod (ap (λ m. m % cap) (omega arith))

module _ {ℓ} {A : Type ℓ} (d : A) (cap : ℕ) where
  abbrev pub window : List A → ℕ → ℕ → List A
  window buf h zero = []
  window buf h (suc n) = get_or buf h d ∷ window buf ((h + 1) % cap) n

  pub length-window : (buf : List A) (h n : ℕ) → length (window buf h n) ≡ n
  length-window buf h zero = refl
  length-window buf h (suc n) = ap suc (length-window buf ((h + 1) % cap) n)

  -- A longer window ends in the entry behind the shorter one.
  window-snoc :
      (buf : List A) (n h : ℕ)
      → h < cap
      → window buf h (suc n) ≡ window buf h n ++ get_or buf ((h + n) % cap) d ∷ []
  window-snoc buf zero h hh = rw (add-zero, mod-eq_of_lt hh)
  window-snoc buf (suc n) h hh =
      ap (λ w. get_or buf h d ∷ w)
        (window-snoc buf n ((h + 1) % cap) (omega arith)
          ∙ ap (λ k. window buf ((h + 1) % cap) n ++ get_or buf k d ∷ []) (mod_shift cap h n))

  -- A write outside a window leaves the window.
  window-set_ne :
      (buf : List A) (x : A) (i n h : ℕ)
      → ((k : ℕ) → k < n → i ≢ (h + k) % cap)
      → h < cap
      → window (set buf i x) h n ≡ window buf h n
  window-set_ne buf x i zero h apart hh = refl
  window-set_ne buf x i (suc n) h apart hh =
      ap₂ ◌∷◌ (get_or-set_ne buf x d (λ e. apart 0 (omega arith) (e ∙ sym (start h hh)))) (
        window-set_ne buf x i n ((h + 1) % cap)
          (λ k lt e. apart (suc k) (omega arith) (e ∙ mod_shift cap h k)) (omega arith))
    where
      start : (j : ℕ) → j < cap → (j + 0) % cap ≡ j
      start j hj = rw (add-zero, mod-eq_of_lt hj)

  -- A write just behind a window extends it.
  pub window-push :
      (buf : List A) (x : A) (h n : ℕ)
      → length buf ≡ cap
      → h < cap
      → n < cap
      → window (set buf ((h + n) % cap) x) h (suc n) ≡ window buf h n ++ x ∷ []
  window-push buf x h n hl hh hn =
      let i = (h + n) % cap in
      window-snoc (set buf i x) n h hh
      ∙ ap₂ (λ w v. w ++ v ∷ [])
          (window-set_ne buf x i n h (λ k lt. mod_apart cap h k n hh lt hn) hh)
          (get_or-set_self buf i x d (omega arith))

  pub window-pop :
      (buf : List A) (h n : ℕ)
      → 0 < n
      → window buf h n ≡ get_or buf h d ∷ window buf ((h + 1) % cap) (n - 1)
  window-pop buf h zero pos = absurd (omega arith)
  window-pop buf h (suc n) pos = ap (λ k. window buf h (suc k)) (omega arith)
