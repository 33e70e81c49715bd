-- ===== src/Bbg/Cpu/Digits.antt =====
-- Numbers as /proc/stat prints them, and what `atoi` reads of them.
use advanced_practical_embed.Base.{
  ℕ, zero, suc, ◌+◌, ◌-◌, ◌*◌, ◌/◌, ◌%◌, ◌≤◌, ◌<◌, ◌≡◌, refl, ap, ◌∙◌, List, [], ◌∷◌, ◌++◌, some,
  ltb, if◌then◌else◌, arith, dec_lt, lt→ltb, le→ltb, none,
}
use advanced_practical_embed.Bbg.Cpu.{leading_number, int_limit, as_int, atoi}

-- A number in decimal digits.
unfoldable pub show : ℕ → ℕ → List ℕ
show zero n = []
show (suc fuel) n =
    let rest = show fuel (n / 10) ++ (48 + n % 10) ∷ [] in if ltb n 10 then (48 + n) ∷ [] else rest

abbrev pub decimal : ℕ → List ℕ
decimal n = show (suc n) n

abbrev pub AllDigits : List ℕ → Type 0
AllDigits [] = Unit
AllDigits (c ∷ cs) = (48 ≤ c) × (c ≤ 57) × AllDigits cs

AllDigits-snoc : (cs : List ℕ) (c : ℕ) → AllDigits cs → 48 ≤ c → c ≤ 57 → AllDigits (cs ++ c ∷ [])
AllDigits-snoc [] c h p q = (p, q, tt)
AllDigits-snoc (d ∷ cs) c h p q = (h.0, h.1, AllDigits-snoc cs c h.2 p q)

pub show-AllDigits : (fuel n : ℕ) → AllDigits (show fuel n)
unfolding show
show-AllDigits zero n = tt
show-AllDigits (suc fuel) n = elim (dec_lt n 10) [
  | yes small ↦ rw (lt→ltb n 10 small) (omega arith)
  | no large ↦ rw (le→ltb n 10 (omega arith)) (
      AllDigits-snoc (show fuel (n / 10)) (48 + n % 10) (show-AllDigits fuel (n / 10)) (omega arith)
        (omega arith))
]

-- what `atoi` makes of digits
abbrev value : ℕ → List ℕ → ℕ
value n [] = n
value n (c ∷ cs) = value (n * 10 + (c - 48)) cs

value-snoc : (n : ℕ) (cs : List ℕ) (c : ℕ) → value n (cs ++ c ∷ []) ≡ value n cs * 10 + (c - 48)
value-snoc n [] c = refl
value-snoc n (d ∷ cs) c = value-snoc (n * 10 + (d - 48)) cs c

value-show : (fuel n : ℕ) → n < fuel → value 0 (show fuel n) ≡ n
unfolding show
value-show zero n h = absurd (omega arith)
value-show (suc fuel) n h = elim (dec_lt n 10) [
  | yes small ↦ rw (lt→ltb n 10 small) (omega arith)
  | no large ↦ rw (le→ltb n 10 (omega arith)) (
      omega (
        arith,
        value-snoc 0 (show fuel (n / 10)) (48 + n % 10),
        value-show fuel (n / 10) (omega arith),
      ))
]

leading_number-value : (n : ℕ) (cs : List ℕ) → AllDigits cs → leading_number n cs ≡ value n cs
unfolding leading_number
leading_number-value n [] h = refl
leading_number-value n (c ∷ cs) h = ground (arith, leading_number-value (n * 10 + (c - 48)) cs)

leading_number-decimal : (n : ℕ) → leading_number 0 (decimal n) ≡ n
leading_number-decimal n =
    leading_number-value 0 (decimal n) (show-AllDigits (suc n) n)
    ∙ value-show (suc n) n (omega arith)

pub atoi-decimal : (n : ℕ) → atoi (decimal n) ≡ (if ltb n int_limit then some n else none)
unfolding atoi as_int
atoi-decimal n = ap (λ v. if ltb v int_limit then some v else none) (leading_number-decimal n)
