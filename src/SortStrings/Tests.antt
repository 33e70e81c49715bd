-- ===== src/SortStrings/Tests.antt =====
-- The program on its own names, on rows with other bytes behind the names, and a name without room.
use advanced_practical_embed.Base.{ℕ, ◌≡◌, refl, List, [], ◌∷◌, ◌++◌, length, Perm}
use advanced_practical_embed.Run.{ok, fault}
use advanced_practical_embed.CStrings.{strcpy}
use advanced_practical_embed.Animals.{strcmp, sort_names}
use advanced_practical_embed.Animals.Names.{IsSorted}
use advanced_practical_embed.SortStrings.{
  initial_names, Rows, copy_to_row, swap, compare_rows, inner_loop, outer_loop, print_names,
  sort_strings_main,
}
use advanced_practical_embed.SortStrings.Swap.{Views}
use advanced_practical_embed.SortStrings.Loops.{sort_strings_main-refines}

abbrev raj : List ℕ
raj = b'R' ∷ b'a' ∷ b'j' ∷ []

abbrev akash : List ℕ
akash = b'A' ∷ b'k' ∷ b'a' ∷ b's' ∷ b'h' ∷ []

abbrev rick : List ℕ
rick = b'R' ∷ b'i' ∷ b'c' ∷ b'k' ∷ []

abbrev vikrant : List ℕ
vikrant = b'V' ∷ b'i' ∷ b'k' ∷ b'r' ∷ b'a' ∷ b'n' ∷ b't' ∷ []

abbrev nikhil : List ℕ
nikhil = b'N' ∷ b'i' ∷ b'k' ∷ b'h' ∷ b'i' ∷ b'l' ∷ []

abbrev names : List (List ℕ)
names = raj ∷ akash ∷ rick ∷ raj ∷ rick ∷ []

-- Rows of ten bytes, with zeros or other bytes behind the name.
abbrev names_t : Rows
names_t =
    (raj ++ 0 ∷ 9 ∷ 9 ∷ 9 ∷ 9 ∷ 9 ∷ 9 ∷ [])
    ∷ (akash ++ 0 ∷ 0 ∷ 0 ∷ 0 ∷ 0 ∷ [])
    ∷ (rick ++ 0 ∷ 7 ∷ 7 ∷ 7 ∷ 7 ∷ 7 ∷ [])
    ∷ (raj ++ 0 ∷ 0 ∷ 0 ∷ 0 ∷ 0 ∷ 0 ∷ 0 ∷ [])
    ∷ (rick ++ 0 ∷ 0 ∷ 0 ∷ 0 ∷ 0 ∷ 0 ∷ [])
    ∷ []

abbrev temp : List ℕ
temp = 5 ∷ 5 ∷ 5 ∷ 5 ∷ 5 ∷ 5 ∷ 5 ∷ 5 ∷ 5 ∷ 5 ∷ []

names_t-Views : Views 10 names_t names
unfolding strcpy
names_t-Views = ((refl, refl), ((refl, refl), ((refl, refl), ((refl, refl), ((refl, refl), tt)))))

main_sorts : sort_strings_main temp names_t ≡ ok (names, akash ∷ raj ∷ raj ∷ rick ∷ rick ∷ [])
unfolding sort_strings_main print_names outer_loop inner_loop compare_rows swap copy_to_row strcpy
    strcmp
main_sorts = refl

-- With the array that the program declares: Akash, Nikhil, Raj, Rick, Vikrant.
own_names :
    sort_strings_main temp initial_names
    ≡ ok (vikrant ∷ raj ∷ nikhil ∷ akash ∷ rick ∷ [], akash ∷ nikhil ∷ raj ∷ rick ∷ vikrant ∷ [])
unfolding sort_strings_main print_names outer_loop inner_loop compare_rows swap copy_to_row strcpy
    strcmp
own_names = refl

-- A name of ten bytes has no room for its NUL.
no_room : strcpy temp (akash ++ akash) ≡ fault
unfolding strcpy
no_room = refl

sort_strings_main-refines_example :
    (sort_strings_main temp names_t ≡ ok (names, sort_names (length names) names))
    × IsSorted (sort_names (length names) names)
    × Perm (sort_names (length names) names) names
sort_strings_main-refines_example =
    sort_strings_main-refines temp names_t names refl refl names_t-Views
