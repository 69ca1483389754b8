-- ===== src/Ls/Tests.antt =====
-- Modes and a directory at concrete inputs.
use systemprogramming.Base.{◌≡◌, refl, [], ◌∷◌, none, some, get_or}
use systemprogramming.CString.{codes, str_eq}
use systemprogramming.Ls.{
  System, mode_to_letters, put_if, file_type, main, do_ls, show_entries, is_hidden, full_path,
  dostat, cannot_stat,
}
use systemprogramming.Ls.Letters.{HasForm, TypeOf, permissions, mode_to_letters-reads}

directory_755 : mode_to_letters 16877 ≡ codes "drwxr-xr-x"
unfolding mode_to_letters put_if
directory_755 = refl

mode_to_letters-reads_example :
    HasForm (mode_to_letters 16877)
    × (permissions (mode_to_letters 16877) ≡ 493)
    × TypeOf (get_or (mode_to_letters 16877) 0 0) (file_type 16877)
mode_to_letters-reads_example = mode_to_letters-reads 16877

abbrev system : System
system = record {
  entries = λ d. some (codes ".git" ∷ codes "a" ∷ []);
  stat = λ f. none;
  user_name = λ u. none;
  group_name = λ g. none;
}

hides : main system [] ≡ cannot_stat (codes "a") ∷ []
unfolding main do_ls show_entries is_hidden full_path dostat str_eq
hides = refl
