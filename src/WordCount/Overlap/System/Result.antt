-- ===== src/WordCount/Overlap/System/Result.antt =====
-- What wc_mt_overlap.c prints when its threads have ended, and that they are never stuck.
use systemprogramming.Base.{ℕ, ◌≤◌, ◌<◌, ◌≡◌, ◌≢◌, ◌⊎◌, inl, inr, refl, ap, ◌∙◌, arith}
use systemprogramming.Base.{
  List, [], ◌∷◌, some, get_elem?, set, sum_by, sum_by_pos, length, dec_lt, ℕ_discrete,
}
use systemprogramming.Base.{true}
use systemprogramming.WordCount.Text.{words}
use systemprogramming.WordCount.Overlap.{chunk_room, produce}
use systemprogramming.WordCount.Overlap.Bounds.{All, WordsUpTo, produce_bound}
use systemprogramming.WordCount.Overlap.System.{
  Producer, ready, blocked, finished, Consumer, looking, waiting, counting, exited, is_waiting,
  Signal, nobody, woken, System, Step, wait_full, hand_over, finish, leave, take_over, add, Reach,
  buffer_capacity, no_chunk,
}
use systemprogramming.WordCount.Overlap.System.Invariant.{
  Inv, held, is_active, has_exited, pending, sum_counts-nil,
}
use systemprogramming.WordCount.Overlap.System.Reachable.{Reach-Inv}
use systemprogramming.Base.Window.{window}
use systemprogramming.WordCount.Overlap.Chunks.{sum_counts}

-- Every `pthread_join` of a consumer has returned.
abbrev pub AllExited : List Consumer → Type 0
AllExited [] = Unit
AllExited (c ∷ cs) = (c ≡ exited) × AllExited cs

AllExited-sums :
    (cs : List Consumer)
    → AllExited cs
    → (sum_by held cs ≡ 0) × (sum_by is_active cs ≡ 0) × (sum_by is_waiting cs ≡ 0)
AllExited-sums [] h = omega arith
AllExited-sums (c ∷ cs) h = ground (arith, AllExited-sums cs h.1)

sums-AllExited :
    (cs : List Consumer) → sum_by is_active cs ≡ 0 → sum_by is_waiting cs ≡ 0 → AllExited cs
sums-AllExited [] a w = tt
sums-AllExited (looking ∷ cs) a w = absurd (omega arith)
sums-AllExited (waiting ∷ cs) a w = absurd (omega arith)
sums-AllExited (counting c ∷ cs) a w = absurd (omega arith)
sums-AllExited (exited ∷ cs) a w = (refl, sums-AllExited cs (omega arith) (omega arith))

-- A signal can always be sent.
Signal-exists : (cs : List Consumer) → (cs' : List Consumer) × Signal cs cs'
Signal-exists cs = elim (dec_lt 0 (sum_by is_waiting cs)) [
  | no none_waits ↦ (cs, nobody (omega arith))
  | yes some_waits ↦
      let (i, u, e, p) = sum_by_pos is_waiting cs some_waits in
      (set cs i looking, woken i (e ∙ ap some (the_waiting u p)))
]
  where
    the_waiting : (u : Consumer) → 0 < is_waiting u → u ≡ waiting
    the_waiting waiting p = refl
    the_waiting looking p = absurd (omega arith)
    the_waiting (counting c) p = absurd (omega arith)
    the_waiting exited p = absurd (omega arith)

-- When every consumer has ended, every chunk of a file with no word of more than 255 bytes was in the
-- room allocated for it, and the total, an `int`, is the number of words of the file, if there are
-- fewer than 2 ^ 31.
pub total_exact :
    {file : List ℕ} {n : ℕ} {s : System}
    → Reach file n s
    → 0 < n
    → WordsUpTo 255 file
    → words file < 2147483648
    → AllExited s.consumers
    → All (λ c. length c.bytes ≤ chunk_room) (produce file) × (s.shared.total ≡ words file)
total_exact {file} {s} r pos short few all =
    let inv = Reach-Inv r in
    let z = AllExited-sums s.consumers all in
    let l = inv.left (omega (arith, inv.people, z)) in
    (
      produce_bound file short,
      omega (
        arith,
        inv.words_kept,
        inv.total_bound,
        z,
        ap pending (inv.done l.0).0,
        ap (λ k. sum_counts (window no_chunk buffer_capacity s.shared.buffer s.shared.next_out k))
            l.1,
        sum_counts-nil,
      ),
    )

active-Step :
    {s : System} (i : ℕ) (u : Consumer)
    → get_elem? s.consumers i ≡ some u
    → 0 < is_active u
    → (s.shared.count ≢ 0) ⊎ (s.shared.is_done ≡ true)
    → (t : System) × Step s t
active-Step {s} i looking e p (inl ne) = (_, take_over i e ne)
active-Step {s} i looking e p (inr d) = elim (ℕ_discrete s.shared.count 0) [
  | yes z ↦ (_, leave i e z d)
  | no ne ↦ (_, take_over i e ne)
]
active-Step i (counting c) e p h = (_, add i e)
active-Step i waiting e p h = absurd (omega arith)
active-Step i exited e p h = absurd (omega arith)

producer-Step :
    {W n : ℕ} {s : System}
    → Inv W n s
    → 0 < n
    → (p : Producer) → s.producer ≡ p
    → AllExited s.consumers ⊎ ((t : System) × Step s t)
producer-Step inv pos (ready []) e = inr (_, finish e)
producer-Step {s} inv pos (ready (c ∷ cs)) e = elim (ℕ_discrete s.shared.count buffer_capacity) [
  | yes f ↦ inr (_, wait_full e f)
  | no nf ↦ inr (_, hand_over e nf (Signal-exists s.consumers).1)
]
producer-Step {s} inv pos (blocked cs) e =
    let f = inv.full cs e in
    let stay : sum_by has_exited s.consumers ≡ 0 =
      elim (ℕ_discrete (sum_by has_exited s.consumers) 0) [
        | yes z ↦ z
        | no nz ↦ absurd (omega (arith, (inv.left (omega arith)).1))
      ] in
    let (i, u, h, p) =
      sum_by_pos is_active s.consumers (grind (arith, inv.people, inv.awake, stay, f)) in
    inr (active-Step i u h p (inl (omega arith)))
producer-Step {s} inv pos finished e =
    let d = inv.told e in
    elim (dec_lt 0 (sum_by is_active s.consumers)) [
      | no quiet ↦ inl (sums-AllExited s.consumers (omega arith) (inv.done d).1)
      | yes busy ↦
          let (i, u, h, p) = sum_by_pos is_active s.consumers busy in
          inr (active-Step i u h p (inr d))
    ]

-- No deadlock and no lost wake-up: until every consumer has ended, some thread can take a step of
-- its own, without a spurious wake-up.
pub deadlock_free :
    {file : List ℕ} {n : ℕ} {s : System}
    → Reach file n s
    → 0 < n
    → AllExited s.consumers ⊎ ((t : System) × Step s t)
deadlock_free {s} r pos = producer-Step (Reach-Inv r) pos s.producer refl
