-- ===== src/Bbg/Letters.antt =====
-- The two loops of `child1_thread_callback`, one round at a time. A character is its byte. No count
-- reaches 2^31, as the text is shorter than that.
pub mod Counts
use advanced_practical_embed.Base.{
  ℕ, zero, suc, ◌+◌, ◌-◌, Bool, true, false, ◌&&◌, List, [], ◌∷◌, Option, none, some, leb, ltb, set,
  get_elem?, if◌then◌else◌,
}

-- `pos`, where the character is a letter
unfoldable pub position : ℕ → Option ℕ
position c =
    if leb 97 c && leb c 122
    then some (c - 97)
    else if leb 65 c && leb c 90
    then some (c + 32 - 97)
    else none

-- `int count_array[26] = {0};`
abbrev pub zeros : ℕ → List ℕ
zeros zero = []
zeros (suc n) = 0 ∷ zeros n

-- `count_array[pos]++`; `none` is an access outside of the array
unfoldable pub bump : List ℕ → ℕ → Option (List ℕ)
bump counts pos = elim (get_elem? counts pos) [
  | none ↦ none
  | some n ↦ some (set counts pos (n + 1))
]

-- what the first loop does with one character
unfoldable pub count_char : ℕ → List ℕ → Option (List ℕ)
count_char c counts = elim (position c) [ none ↦ some counts | some pos ↦ bump counts pos ]
