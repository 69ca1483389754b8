-- ===== src/Who/Tests.antt =====
-- The reader at a concrete file: two records and a part of a third.
use systemprogramming.Base.{ℕ, ◌≡◌, refl, replicate, List, [], ◌∷◌, ◌++◌}
use systemprogramming.CString.{codes, until_zero}
use systemprogramming.Who.Show.{
  Library, left_column, right_column, show_host, month_and_day, columns, user_line,
}

abbrev login_file : List ℕ
login_file = replicate 800 7

-- Every record is a login of `root` on `tty1`.
abbrev library : Library
library = record {
  ut_type = λ r. 7;
  ut_name = λ r. codes "root" ++ 0 ∷ [];
  ut_line = λ r. codes "tty1" ++ 0 ∷ [];
  ut_time = λ r. 0;
  ut_host = λ r. 0 ∷ [];
  user_process = 7;
  ctime = λ t. codes "Thu Jan  1 00:00:00 1970";
  minute_time = λ t. codes "1970-01-01 00:00";
}

-- One line of who3.c.
one_line : user_line library 8 (month_and_day library) [] ≡ codes "root     tty1     Jan  1 00:00\n"
unfolding user_line columns show_host month_and_day left_column right_column until_zero
one_line = refl
