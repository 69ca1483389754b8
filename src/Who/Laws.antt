-- ===== src/Who/Laws.antt =====
-- The buffered reader returns the records of the file one after the other.
use systemprogramming.Base.{
  ℕ, zero, suc, ◌+◌, ◌-◌, ◌*◌, ◌/◌, ◌≤◌, ◌<◌, ◌≡◌, refl, sym, ap, ap₂, ◌∙◌, arith, ◌==◌, true,
  false, List, [], ◌∷◌, ◌++◌, Option, none, some, take, drop, length, take-all, take-take_less,
  length-take, length-drop, append-nil, Bool-cases, inl, inr, dec_lt,
}
use systemprogramming.Who.{
  record_size, Reader, utmp_open, utmp_reload, current, utmp_next, show_all,
}

-- The first records of a text.
abbrev pub records : ℕ → List ℕ → List (List ℕ)
records zero xs = []
records (suc n) xs = take record_size xs ∷ records n (drop record_size xs)

abbrev no_bytes : List ℕ
no_bytes = []

drop-nil : (n : ℕ) → drop n no_bytes ≡ []
drop-nil zero = refl
drop-nil (suc n) = refl

take-nil : (n : ℕ) → take n no_bytes ≡ []
take-nil zero = refl
take-nil (suc n) = refl

drop-add : (a b : ℕ) (xs : List ℕ) → drop b (drop a xs) ≡ drop (a + b) xs
drop-add zero b xs = let e : b ≡ 0 + b = omega arith in ap (λ k. drop k xs) e
drop-add (suc a) b [] = drop-nil b ∙ sym (drop-nil (suc a + b))
drop-add (suc a) b (x ∷ xs) =
    let e : suc (a + b) ≡ suc a + b = omega arith in drop-add a b xs ∙ ap (λ k. drop k (x ∷ xs)) e

records-add :
    (m n : ℕ) (xs : List ℕ)
    → records (m + n) xs ≡ records m xs ++ records n (drop (m * record_size) xs)
records-add zero n xs = let e : 0 + n ≡ n = omega arith in ap (λ k. records k xs) e
records-add (suc m) n xs =
    let e : suc m + n ≡ suc (m + n) = omega arith in
    let d : record_size + m * record_size ≡ suc m * record_size = omega arith in
    ap (λ k. records k xs) e
    ∙ ap (λ t. take record_size xs ∷ t)
        (records-add m n (drop record_size xs)
          ∙ ap (λ t. records m (drop record_size xs) ++ records n t)
              (drop-add record_size (m * record_size) xs ∙ ap (λ k. drop k xs) d))

drop-take : (j k : ℕ) (xs : List ℕ) → drop j (take (j + k) xs) ≡ take k (drop j xs)
drop-take zero k xs = let e : 0 + k ≡ k = omega arith in ap (λ i. take i xs) e
drop-take (suc j) k [] = ap (drop (suc j)) (take-nil (suc j + k)) ∙ sym (take-nil k)
drop-take (suc j) k (x ∷ xs) =
    let e : suc j + k ≡ suc (j + k) = omega arith in
    ap (λ i. drop (suc j) (take i (x ∷ xs))) e ∙ drop-take j k xs

records-take : (m k : ℕ) (xs : List ℕ) → m * record_size ≤ k → records m (take k xs) ≡ records m xs
records-take zero k xs h = refl
records-take (suc m) k xs h =
    let e : k ≡ record_size + (k - record_size) = omega arith in
    ap₂ ◌∷◌ (take-take_less xs record_size k (omega arith)) (
      ap (λ i. records m (drop record_size (take i xs))) e
      ∙ ap (records m) (drop-take record_size (k - record_size) xs)
      ∙ records-take m (k - record_size) (drop record_size xs) (omega arith))

-- What the reader is still to return.
abbrev pending : Reader → List (List ℕ)
pending r =
    records (r.num_recs - r.cur_rec) (drop (r.cur_rec * record_size) r.utmpbuf)
    ++ records (length r.unread / record_size) r.unread

abbrev remaining : Reader → ℕ
remaining r = r.num_recs - r.cur_rec + length r.unread / record_size

pending-current :
    (r : Reader)
    → r.cur_rec < r.num_recs
    → pending r
      ≡ take record_size (drop (r.cur_rec * record_size) r.utmpbuf)
        ∷ pending (record r { cur_rec = r.cur_rec + 1 })
pending-current r h =
    let n : ℕ = r.num_recs - (r.cur_rec + 1) in
    let at : List ℕ = drop (r.cur_rec * record_size) r.utmpbuf in
    let e : r.num_recs - r.cur_rec ≡ suc n = omega arith in
    let d : r.cur_rec * record_size + record_size ≡ (r.cur_rec + 1) * record_size = omega arith in
    ap (λ k. records k at ++ records (length r.unread / record_size) r.unread) e
    ∙ ap
        (λ t.
          take record_size at ∷ (records n t ++ records (length r.unread / record_size) r.unread))
        (drop-add (r.cur_rec * record_size) record_size r.utmpbuf ∙ ap (λ k. drop k r.utmpbuf) d)

-- A `read` of the whole buffer loses nothing.
records-reload :
    (file : List ℕ)
    → records (length file / record_size) file
      ≡ records (length (take 6144 file) / record_size) (take 6144 file)
        ++ records (length (drop 6144 file) / record_size) (drop 6144 file)
records-reload file = elim (dec_lt (length file) 6144) [
  | yes short ↦
      let none_left : length (drop 6144 file) / record_size ≡ 0 =
        omega (arith, length-drop 6144 file) in
      sym (
        ap₂ (λ t k. records (length t / record_size) t ++ records k (drop 6144 file))
          (take-all 6144 file (omega arith)) none_left
        ∙ append-nil (records (length file / record_size) file))
  | no long ↦
      let n : ℕ = length (drop 6144 file) / record_size in
      let e : length file / record_size ≡ 16 + n = omega (arith, length-drop 6144 file) in
      let f : 16 ≡ length (take 6144 file) / record_size = omega (arith, length-take 6144 file) in
      ap (λ k. records k file) e
      ∙ records-add 16 n file
      ∙ ap (λ t. t ++ records n (drop 6144 file)) (sym (records-take 16 6144 file (omega arith)))
      ∙ ap (λ k. records k (take 6144 file) ++ records n (drop 6144 file)) f
]

pending-reload : (r : Reader) → r.cur_rec ≡ r.num_recs → pending r ≡ pending (utmp_reload r)
unfolding utmp_reload
pending-reload r h =
    let e : r.num_recs - r.cur_rec ≡ 0 = omega arith in
    let n : ℕ = length (take 6144 r.unread) / record_size in
    let z : n ≡ n - 0 = omega arith in
    ap
      (λ k.
        records k (drop (r.cur_rec * record_size) r.utmpbuf)
        ++ records (length r.unread / record_size) r.unread)
      e
    ∙ records-reload r.unread
    ∙ ap
        (λ k.
          records k (take 6144 r.unread)
          ++ records (length (drop 6144 r.unread) / record_size) (drop 6144 r.unread))
        z

remaining-reload : (r : Reader) → r.cur_rec ≡ r.num_recs → remaining (utmp_reload r) ≡ remaining r
unfolding utmp_reload
remaining-reload r h = omega (arith, length-take 6144 r.unread, length-drop 6144 r.unread)

abbrev shown : ℕ → Option (List ℕ × Reader) → Option (List (List ℕ))
shown fuel o = elim o [
  | none ↦ some []
  | some (rec, r') ↦ elim (show_all fuel r') [ none ↦ none | some recs ↦ some (rec ∷ recs) ]
]

pending-nil : (r : Reader) → remaining r ≡ 0 → pending r ≡ []
pending-nil r h =
    let e : r.num_recs - r.cur_rec ≡ 0 = omega arith in
    let f : length r.unread / record_size ≡ 0 = omega arith in
    ap₂ (λ a b. records a (drop (r.cur_rec * record_size) r.utmpbuf) ++ records b r.unread) e f

reload_end : (r : Reader) → (utmp_reload r).num_recs ≡ 0 → remaining (utmp_reload r) ≡ 0
unfolding utmp_reload
reload_end r h = omega (arith, length-take 6144 r.unread, length-drop 6144 r.unread)

reload_start : (r : Reader) → (utmp_reload r).cur_rec ≡ 0
unfolding utmp_reload
reload_start r = refl

next_here : (r : Reader) → (r.cur_rec == r.num_recs) ≡ false → utmp_next r ≡ current r
unfolding utmp_next
next_here r e = rw e refl

next_reload :
    (r : Reader)
    → (r.cur_rec == r.num_recs) ≡ true
    → ((utmp_reload r).num_recs == 0) ≡ false
    → utmp_next r ≡ current (utmp_reload r)
unfolding utmp_next
next_reload r e z = rw (e, z) refl

next_end :
    (r : Reader)
    → (r.cur_rec == r.num_recs) ≡ true
    → ((utmp_reload r).num_recs == 0) ≡ true
    → utmp_next r ≡ none
unfolding utmp_next
next_end r e z = rw (e, z) refl

-- One record, if the rest is shown as it is to be.
shown-current :
    (fuel : ℕ) (r : Reader)
    → r.cur_rec < r.num_recs
    → show_all fuel (record r { cur_rec = r.cur_rec + 1 })
      ≡ some (pending (record r { cur_rec = r.cur_rec + 1 }))
    → shown fuel (current r) ≡ some (pending r)
unfolding current
shown-current fuel r h ih =
    let rec : List ℕ = take record_size (drop (r.cur_rec * record_size) r.utmpbuf) in
    ap (λ (o : Option (List (List ℕ))). elim o [ none ↦ none | some recs ↦ some (rec ∷ recs) ]) ih
    ∙ ap some (sym (pending-current r h))

show_all-pending :
    (fuel : ℕ) (r : Reader)
    → r.cur_rec ≤ r.num_recs
    → remaining r < fuel
    → show_all fuel r ≡ some (pending r)
unfolding show_all
show_all-pending zero r v h = absurd (omega arith)
show_all-pending (suc fuel) r v h = elim (Bool-cases (r.cur_rec == r.num_recs)) [
  | inr e ↦
      let less : r.cur_rec < r.num_recs = ground (arith, e, v) in
      ap (shown fuel) (next_here r e)
      ∙ shown-current fuel r less
          (show_all-pending fuel (record r { cur_rec = r.cur_rec + 1 }) (omega arith) (omega arith))
  | inl e ↦
      let same : r.cur_rec ≡ r.num_recs = ground (arith, e) in
      let r' : Reader = utmp_reload r in
      elim (Bool-cases (r'.num_recs == 0)) [
        | inl z ↦
            let none_left : r'.num_recs ≡ 0 = ground (arith, z) in
            ap (shown fuel) (next_end r e z)
            ∙ ap some (sym (pending-reload r same ∙ pending-nil r' (reload_end r none_left)))
        | inr z ↦
            let first : r'.cur_rec ≡ 0 = reload_start r in
            let less : r'.cur_rec < r'.num_recs = ground (arith, z, first) in
            let more = remaining-reload r same in
            ap (shown fuel) (next_reload r e z)
            ∙ shown-current fuel r' less (
                show_all-pending fuel (record r' { cur_rec = r'.cur_rec + 1 }) (omega (arith, less))
                  (omega (arith, less, more)))
            ∙ ap some (sym (pending-reload r same))
      ]
]

-- With fuel for more rounds than the file has whole records, the loop of who4.c ends and shows
-- every whole record of the file, once and in order.
pub show_all-records :
    (file : List ℕ) (fuel : ℕ)
    → length file / record_size < fuel
    → show_all fuel (utmp_open file) ≡ some (records (length file / record_size) file)
show_all-records file fuel h = show_all-pending fuel (utmp_open file) (omega arith) (omega arith)
