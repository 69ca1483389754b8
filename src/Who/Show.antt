-- ===== src/Who/Show.antt =====
-- What lab1-lyjae/who3.c and who4.c print. `struct utmp`, `ctime`, `localtime` and `strftime` are those
-- of the C library. A host that fills its array has no terminator, and is read on into the rest of the
-- record, but no further.
use systemprogramming.Base.{
  ℕ, ◌-◌, ◌==◌, List, [], ◌∷◌, ◌++◌, Option, none, some, if◌then◌else◌, take, drop, length,
  replicate,
}
use systemprogramming.CString.{codes, until_zero}
use systemprogramming.Who.{utmp_open, show_all}

-- The fields of a record, with the bytes from `ut_host` to its end, the type USER_PROCESS, and the
-- texts of a time: that of `ctime`, and that of `localtime` and `strftime`.
pub record Library : Type 0 where
  pub ut_type : List ℕ → ℕ
  pub ut_name : List ℕ → List ℕ
  pub ut_line : List ℕ → List ℕ
  pub ut_time : List ℕ → ℕ
  pub ut_host : List ℕ → List ℕ
  pub user_process : ℕ
  pub ctime : ℕ → List ℕ
  pub minute_time : ℕ → List ℕ

-- `%-n.ns` and `%n.ns`; `%ns` does not cut a longer text.
unfoldable pub left_column : ℕ → List ℕ → List ℕ
left_column n s = take n s ++ replicate (n - length (take n s)) b' '

unfoldable pub right_column : ℕ → List ℕ → List ℕ
right_column n s = replicate (n - length (take n s)) b' ' ++ take n s

pub right_aligned : ℕ → List ℕ → List ℕ
right_aligned n s = replicate (n - length s) b' ' ++ s

-- `if(ut_host[0] != '\0') printf(" (%s)", ut_host)`.
unfoldable pub show_host : List ℕ → List ℕ
show_host [] = []
show_host (c ∷ cs) = codes " (" ++ ((c ∷ cs) ++ codes ")")

pub data Outcome : Type 0 where
  no_file : Outcome
  printed : List ℕ → Outcome

module _ (lib : Library) where
  open lib use {ut_type, ut_name, ut_line, ut_time, ut_host, user_process, ctime, minute_time}

  -- `showtime` of who3.c and that of who4.c.
  unfoldable pub month_and_day : ℕ → List ℕ
  unfolding right_column
  month_and_day t = right_column 12 (drop 4 (ctime t))

  pub date_and_time : ℕ → List ℕ
  unfolding right_aligned
  date_and_time t = right_aligned 16 (minute_time t)

  -- The two programs differ in the width of the terminal and in the time.
  module _ (width : ℕ) (showtime : ℕ → List ℕ) where
    -- The user and the terminal.
    unfoldable pub columns : List ℕ → List ℕ
    unfolding left_column
    columns r =
        left_column 8 (until_zero (ut_name r))
        ++ (b' ' ∷ (left_column width (until_zero (ut_line r)) ++ b' ' ∷ []))

    unfoldable pub user_line : List ℕ → List ℕ
    unfolding columns show_host
    user_line r =
        columns r ++ (showtime (ut_time r) ++ (show_host (until_zero (ut_host r)) ++ codes "\n"))

    pub show_info : List ℕ → List ℕ
    unfolding user_line
    show_info r = if ut_type r == user_process then user_line r else []

    -- What the loop prints of the records that `utmp_next` returns.
    pub show_each : List (List ℕ) → List ℕ
    unfolding show_info
    show_each [] = []
    show_each (r ∷ rs) = show_info r ++ show_each rs

    pub end_of : Option (List (List ℕ)) → Option Outcome
    unfolding show_each
    end_of none = none
    end_of (some rs) = some (printed (show_each rs))

    -- `main`, for the bytes of UTMP_FILE if it can be opened; `none` if the fuel runs out.
    pub main : ℕ → Option (List ℕ) → Option Outcome
    unfolding end_of
    main fuel none = some no_file
    main fuel (some file) = end_of (show_all fuel (utmp_open file))

    -- The records of logins, in order, and their lines one behind the other.
    abbrev pub logins : List (List ℕ) → List (List ℕ)
    logins [] = []
    logins (r ∷ rs) = let rest = logins rs in if ut_type r == user_process then r ∷ rest else rest

    abbrev pub join_all : List (List ℕ) → List ℕ
    join_all [] = []
    join_all (l ∷ ls) = l ++ join_all ls

-- `main` of who3.c, and that of who4.c.
abbrev pub who3 : Library → ℕ → Option (List ℕ) → Option Outcome
who3 lib = main lib 8 (month_and_day lib)

abbrev pub who4 : Library → ℕ → Option (List ℕ) → Option Outcome
who4 lib = main lib 12 (date_and_time lib)
