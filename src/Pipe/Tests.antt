-- ===== src/Pipe/Tests.antt =====
-- `pipe "ls -l" sort`, started from a terminal: descriptors 0, 1 and 2 are open.
use systemprogramming.Base.{ℕ, suc, ◌≡◌, refl, zero, List, [], ◌∷◌, none, some}
use systemprogramming.Pipe.{
  read_end, write_end, other_file, Table, pipe, first_child, second_child, parent, started, main,
  parse_command, start_both, lowest_free,
}
use systemprogramming.CString.{strtok, strtok_from, strncpy}
use systemprogramming.Pipe.Ends.{main_plumbing, NoEnds, IsPlumbed}

abbrev terminal : Table
terminal = some (other_file 7) ∷ some (other_file 7) ∷ some (other_file 7) ∷ none ∷ none ∷ []

terminal-NoEnds : NoEnds terminal
terminal-NoEnds zero = ((λ h. cc), λ h. cc)
terminal-NoEnds (suc zero) = ((λ h. cc), λ h. cc)
terminal-NoEnds (suc (suc zero)) = ((λ h. cc), λ h. cc)
terminal-NoEnds (suc (suc (suc zero))) = ((λ h. cc), λ h. cc)
terminal-NoEnds (suc (suc (suc (suc zero)))) = ((λ h. cc), λ h. cc)
terminal-NoEnds (suc (suc (suc (suc (suc fd))))) = ((λ h. cc), λ h. cc)

abbrev piped : Table
piped =
    some (other_file 7)
    ∷ some (other_file 7)
    ∷ some (other_file 7)
    ∷ some read_end
    ∷ some write_end
    ∷ []

abbrev ls : List ℕ
ls = b'l' ∷ b's' ∷ b' ' ∷ b'-' ∷ b'l' ∷ []

abbrev sort : List ℕ
sort = b's' ∷ b'o' ∷ b'r' ∷ b't' ∷ []

two_commands :
    main terminal (ls ∷ sort ∷ [])
    ≡ started
        (record {
          table = first_child piped 3 4;
          args = (b'l' ∷ b's' ∷ []) ∷ (b'-' ∷ b'l' ∷ []) ∷ [];
        })
        (record { table = second_child piped 3 4; args = sort ∷ [] })
        (parent piped 3 4)
unfolding main start_both parse_command strtok strtok_from strncpy pipe lowest_free
two_commands = refl

main_plumbing_example : IsPlumbed (main terminal (ls ∷ sort ∷ []))
unfolding pipe lowest_free
main_plumbing_example =
    main_plumbing terminal ls sort [] (piped, 3, 4) terminal-NoEnds (λ h. cc) (λ h. cc) refl
