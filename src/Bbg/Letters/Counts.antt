-- ===== src/Bbg/Letters/Counts.antt =====
-- The counts against an independent count of each letter.
use advanced_practical_embed.Base.{
  ℕ, zero, suc, ◌+◌, ◌<◌, ◌≡◌, refl, ap, ◌∙◌, ◌||◌, List, [], ◌∷◌, ◌++◌, none, some, arith, ◌==◌,
  length, length-set, set, get_elem?, if◌then◌else◌, inl, inr, Option-cases,
}
use advanced_practical_embed.Bbg.Letters.{position, zeros, bump, count_char}

-- 1 where the character is the letter number `k`, in either case.
abbrev pub is_letter : ℕ → ℕ → ℕ
is_letter k c = if c == 97 + k || c == 65 + k then 1 else 0

-- How often the letter number `k` stands in the text, in either case.
abbrev pub occurrences : ℕ → List ℕ → ℕ
occurrences k [] = 0
occurrences k (c ∷ text) = is_letter k c + occurrences k text

-- The array counts each of the 26 letters in the text.
pub record Counted (text : List ℕ) (counts : List ℕ) : Type 0 where
  pub size : length counts ≡ 26
  pub entries : (k : ℕ) → k < 26 → get_elem? counts k ≡ some (occurrences k text)

pub occurrences-snoc :
    (k : ℕ) (text : List ℕ) (c : ℕ)
    → occurrences k (text ++ c ∷ []) ≡ occurrences k text + is_letter k c
occurrences-snoc k [] c = omega arith
occurrences-snoc k (d ∷ text) c = omega (arith, occurrences-snoc k text c)

get_elem?-set :
    (xs : List ℕ) (i k v : ℕ)
    → i < length xs
    → get_elem? (set xs i v) k ≡ (if k == i then some v else get_elem? xs k)
get_elem?-set [] i k v h = absurd (omega arith)
get_elem?-set (x ∷ xs) zero zero v h = refl
get_elem?-set (x ∷ xs) zero (suc k) v h = ground arith
get_elem?-set (x ∷ xs) (suc i) zero v h = ground arith
get_elem?-set (x ∷ xs) (suc i) (suc k) v h = ground (arith, get_elem?-set xs i k v)

zeros_lem : (n k : ℕ) → k < n → get_elem? (zeros n) k ≡ some 0
zeros_lem zero k h = absurd (omega arith)
zeros_lem (suc n) zero h = refl
zeros_lem (suc n) (suc k) h = zeros_lem n k (omega arith)

pub zeros-Counted : Counted [] (zeros 26)
zeros-Counted = record { size = refl; entries = λ k h. zeros_lem 26 k h }

position-lt : (c : ℕ) {p : ℕ} → position c ≡ some p → p < 26
unfolding position
position-lt c h = ground arith

position-occurs :
    (c k : ℕ) {p : ℕ} → k < 26 → position c ≡ some p → is_letter k c ≡ (if k == p then 1 else 0)
unfolding position
position-occurs c k h e = ground arith

position-none : (c k : ℕ) → k < 26 → position c ≡ none → is_letter k c ≡ 0
unfolding position
position-none c k h e = ground arith

bump-ok :
    (counts : List ℕ) (p : ℕ) {n : ℕ}
    → get_elem? counts p ≡ some n
    → bump counts p ≡ some (set counts p (n + 1))
unfolding bump
bump-ok counts p h = rw (h, bump)

-- One round of the loop counts one more character, and stays within the array.
pub count_char-Counted :
    (text : List ℕ) (c : ℕ) (counts : List ℕ)
    → Counted text counts
    → (counts' : List ℕ) × (count_char c counts ≡ some counts') × Counted (text ++ c ∷ []) counts'
unfolding count_char
count_char-Counted text c counts k = elim (Option-cases (position c)) [
  | inl other ↦ (
    counts,
    rw (other, count_char),
    record {
      size = k.size;
      entries = λ j h.
          k.entries j h
          ∙ ap some (omega (arith, occurrences-snoc j text c, position-none c j h other));
    },
  )
  | inr (p, e) ↦
      let small = position-lt c e in
      let old = k.entries p small in
      let new = occurrences p text + 1 in
      (
        set counts p new,
        rw (e, count_char) (bump-ok counts p old),
        record {
          size = length-set counts p new ∙ k.size;
          entries = λ j h.
              get_elem?-set counts p j new (omega (arith, k.size))
              ∙ ground (arith, k.entries j h, occurrences-snoc j text c, position-occurs c j h e);
        },
      )
]
