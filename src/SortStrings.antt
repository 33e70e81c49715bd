-- ===== src/SortStrings.antt =====
-- HW3_APES/PROBLEM4/sort_strings.c: the exchange sort on an array of names, each in a row of bytes, which
-- `strcpy` moves through the buffer `temp`. HW3_APES/PROBLEM4/animal_lkm.c has the same two loops, and
-- Animals models them on lists. Bytes behind a row's NUL stay there when a shorter name is copied to it.
-- An access outside of the array, or behind the end of a row, is a fault; the counters of type
-- `uint8_t` stay below 6.
pub mod Swap
pub mod Loops
pub mod Tests
use Prim.Native.Nat.{gt}
use advanced_practical_embed.Base.{ℕ, zero, suc, List, [], ◌∷◌, get_elem?, set}
use advanced_practical_embed.Run.{Run, ok, or_fault, ◌>>=◌}
use advanced_practical_embed.CStrings.{c_string, strcpy}
use advanced_practical_embed.Animals.{strcmp}

abbrev pub Rows : Type 0
Rows = List (List ℕ)

-- The rest of a row behind a string literal is filled with zeros.
abbrev pub padding : ℕ → List ℕ
padding zero = []
padding (suc n) = 0 ∷ padding n

-- `names_t` as it is declared
abbrev pub initial_names : Rows
initial_names =
    (b'V' ∷ b'i' ∷ b'k' ∷ b'r' ∷ b'a' ∷ b'n' ∷ b't' ∷ padding 3)
    ∷ (b'R' ∷ b'a' ∷ b'j' ∷ padding 7)
    ∷ (b'N' ∷ b'i' ∷ b'k' ∷ b'h' ∷ b'i' ∷ b'l' ∷ padding 4)
    ∷ (b'A' ∷ b'k' ∷ b'a' ∷ b's' ∷ b'h' ∷ padding 5)
    ∷ (b'R' ∷ b'i' ∷ b'c' ∷ b'k' ∷ padding 6)
    ∷ []

-- `strcpy(names_t[i], src)`
unfoldable pub copy_to_row : ℕ → List ℕ → Rows → Run Rows
copy_to_row i src names_t =
    or_fault (get_elem? names_t i) >>= λ dst. strcpy dst src >>= λ copy. ok (set names_t i copy)

-- The three calls of `strcpy` that exchange two names: `temp` and the array afterwards.
unfoldable pub swap : ℕ → ℕ → List ℕ → Rows → Run (List ℕ × Rows)
swap i j temp names_t = or_fault (get_elem? names_t i) >>= λ first. strcpy temp first >>= λ saved.
    or_fault (get_elem? names_t j) >>= λ second. copy_to_row i second names_t >>= λ moved.
    copy_to_row j saved moved >>= λ swapped. ok (saved, swapped)

-- `status = strcmp(names_t[i],names_t[j]); if(status >0)`
unfoldable pub compare_rows : ℕ → ℕ → List ℕ → Rows → Run (List ℕ × Rows)
compare_rows i j temp names_t = or_fault (get_elem? names_t i) >>= λ first.
    or_fault (get_elem? names_t j) >>= λ second. c_string first >>= λ a. c_string second >>= λ b.
    elim (strcmp a b) [ gt ↦ swap i j temp names_t | _ ↦ ok (temp, names_t) ]

-- The loop on `j`, with `left` rounds to go.
unfoldable pub inner_loop : ℕ → ℕ → ℕ → List ℕ → Rows → Run (List ℕ × Rows)
inner_loop zero i j temp names_t = ok (temp, names_t)
inner_loop (suc left) i j temp names_t =
    compare_rows i j temp names_t >>= λ (temp', names'). inner_loop left i (suc j) temp' names'

-- The loop on `i`, with `left` rounds to go; the loop on `j` has one round fewer.
unfoldable pub outer_loop : ℕ → ℕ → List ℕ → Rows → Run Rows
outer_loop zero i temp names_t = ok names_t
outer_loop (suc left) i temp names_t = inner_loop left i (suc i) temp names_t >>= λ (temp', names').
    outer_loop left (suc i) temp' names'

-- `for(i=0;i<5;i++) printf("\n\r%s",names_t[i]);`
unfoldable pub print_names : ℕ → ℕ → Rows → Run (List (List ℕ))
print_names zero i names_t = ok []
print_names (suc left) i names_t = or_fault (get_elem? names_t i) >>= λ row.
    c_string row >>= λ name. print_names left (suc i) names_t >>= λ names. ok (name ∷ names)

-- `main`, on the array that it declares and the bytes of `temp`: the names that it prints before and
-- after it sorts them.
unfoldable pub sort_strings_main : List ℕ → Rows → Run (List (List ℕ) × List (List ℕ))
sort_strings_main temp names_t = print_names 5 0 names_t >>= λ before.
    outer_loop 5 0 temp names_t >>= λ sorted. print_names 5 0 sorted >>= λ after. ok (before, after)
