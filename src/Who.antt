-- ===== src/Who.antt =====
-- lab1-lyjae/utmplib.c, the buffered reader of the login records, and the loop of who4.c over it. Every
-- `read` returns as much as the file still has, up to what was asked for.
pub mod Laws
pub mod Show
mod Tests
use systemprogramming.Base.{
  ℕ, zero, suc, ◌+◌, ◌*◌, ◌/◌, ◌==◌, Bool, true, false, List, [], ◌∷◌, Option, none, some,
  if◌then◌else◌, take, drop, length,
}

abbrev pub num_records : ℕ
num_records = 16

-- `sizeof(struct utmp)` on 64-bit Linux.
abbrev pub record_size : ℕ
record_size = 384

-- `utmpbuf` up to what the last `read` stored, `num_recs`, `cur_rec`, and what the file still has.
pub record Reader : Type 0 where
  pub utmpbuf : List ℕ
  pub num_recs : ℕ
  pub cur_rec : ℕ
  pub unread : List ℕ

-- `utmp_open`, where `open` succeeds.
abbrev pub utmp_open : List ℕ → Reader
utmp_open file = record { utmpbuf = []; num_recs = 0; cur_rec = 0; unread = file }

pub utmp_reload : Reader → Reader
utmp_reload r =
    let buf = take (num_records * record_size) r.unread in
    record {
      utmpbuf = buf;
      num_recs = length buf / record_size;
      cur_rec = 0;
      unread = drop (num_records * record_size) r.unread;
    }

-- `&utmpbuf[cur_rec * UTSIZE]`, and the index behind it.
pub current : Reader → Option (List ℕ × Reader)
current r = some (
  take record_size (drop (r.cur_rec * record_size) r.utmpbuf),
  record r { cur_rec = r.cur_rec + 1 },
)

pub utmp_next : Reader → Option (List ℕ × Reader)
unfolding utmp_reload current
utmp_next r =
    if r.cur_rec == r.num_recs
    then (if (utmp_reload r).num_recs == 0 then none else current (utmp_reload r))
    else current r

-- The records that the loop of `main` passes to `show_info`; `none` if the fuel runs out.
pub show_all : ℕ → Reader → Option (List (List ℕ))
show_all zero r = none
show_all (suc fuel) r = elim (utmp_next r) [
  | none ↦ some []
  | some (rec, r') ↦ elim (show_all fuel r') [ none ↦ none | some recs ↦ some (rec ∷ recs) ]
]
