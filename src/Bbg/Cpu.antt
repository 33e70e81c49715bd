-- ===== src/Bbg/Cpu.antt =====
-- How `child2_thread_callback` reads /proc/stat. Its text is the list of its bytes; a field has no sign.
-- `atoi` gives an `int`, and the sums are those of `int`: where a result is not below 2^31, C promises
-- nothing of what follows, and the model gives `none`, as for a crash.
pub mod Digits
pub mod Fields
pub mod Sums
use advanced_practical_embed.Base.{
  ℕ, zero, suc, ◌+◌, ◌-◌, ◌*◌, Bool, true, false, ◌&&◌, List, [], ◌∷◌, ◌++◌, Option, none, some,
  leb, ltb, ◌==◌, if◌then◌else◌,
}

-- `fgets(input_string, 47, fptr1)`: at most 46 bytes, up to the end of the line
unfoldable pub fgets : ℕ → List ℕ → List ℕ
fgets zero text = []
fgets (suc n) [] = []
fgets (suc n) (c ∷ text) = let rest = fgets n text in if c == 10 then c ∷ [] else c ∷ rest

-- The pieces that `strtok` gives one after the other, with " " between them. `token` has begun.
abbrev pub end_token : List ℕ → List (List ℕ) → List (List ℕ)
end_token [] rest = rest
end_token (c ∷ token) rest = (c ∷ token) ∷ rest

unfoldable pub tokens : List ℕ → List ℕ → List (List ℕ)
tokens token [] = end_token token []
tokens token (c ∷ text) = elim (c == 32) [
  | true ↦ end_token token (tokens [] text)
  | false ↦ tokens (token ++ c ∷ []) text
]

abbrev pub is_digit : ℕ → Bool
is_digit c = leb 48 c && leb c 57

unfoldable pub leading_number : ℕ → List ℕ → ℕ
leading_number n [] = n
leading_number n (c ∷ text) =
    let rest = leading_number (n * 10 + (c - 48)) text in if is_digit c then rest else n

-- A value as an `int`, if it is one.
abbrev pub int_limit : ℕ
int_limit = 2147483648

unfoldable pub as_int {ℓ} : {A : Type ℓ} → ℕ → A → Option A
as_int n a = if ltb n int_limit then some a else none

unfoldable pub atoi : List ℕ → Option ℕ
unfolding as_int leading_number
atoi text = as_int (leading_number 0 text) (leading_number 0 text)

-- `for (i = 0; i < 9; i++) { substr = strtok(NULL, " "); cpu[i] = atoi(substr); }`; `none` also where
-- `strtok` gives NULL, which `atoi` reads through
unfoldable pub read_fields : ℕ → List (List ℕ) → Option (List ℕ)
read_fields zero pieces = some []
read_fields (suc n) [] = none
read_fields (suc n) (piece ∷ pieces) = elim (read_fields n pieces) [
  | none ↦ none
  | some fields ↦ elim (atoi piece) [ none ↦ none | some field ↦ some (field ∷ fields) ]
]

-- `cpu_usage` and `cpu_time`, whose quotient is logged; the terms have no sign, so that where the whole
-- sum of `int`s is an `int`, so is each part of it
unfoldable pub utilization : List ℕ → Option (ℕ × ℕ)
unfolding as_int
utilization (u ∷ n ∷ s ∷ i ∷ w ∷ q ∷ f ∷ t ∷ rest) =
    let cpu_time = u + n + s + i + w + q + f + t in
    let idle_time = i + w in as_int cpu_time (cpu_time - idle_time, cpu_time)
utilization _ = none

-- One look at /proc/stat; `none` is a crash, or a number too large for an `int`.
unfoldable pub sample : List ℕ → Option (ℕ × ℕ)
sample stat = elim (tokens [] (fgets 46 stat)) [
  | [] ↦ none
  | name ∷ pieces ↦ elim (read_fields 9 pieces) [ none ↦ none | some cpu ↦ utilization cpu ]
]
