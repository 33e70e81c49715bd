-- ===== src/Bbg/Cpu/Sums.antt =====
-- The sums that are made of the fields.
use advanced_practical_embed.Base.{
  ℕ, ◌+◌, ◌-◌, ◌≤◌, ◌≡◌, refl, ap, false, List, [], ◌∷◌, some, ltb, if◌then◌else◌, arith, dec_lt,
  lt→ltb, le→ltb, Option, none, Bool, true, ◌&&◌,
}
use advanced_practical_embed.Bbg.Cpu.{int_limit, as_int, utilization}

-- The numbers that a line holds are values of an `int`.
abbrev pub all_ints : List ℕ → Bool
all_ints [] = true
all_ints (n ∷ ns) = ltb n int_limit && all_ints ns

-- What is made of the fields, if there are any.
abbrev pub used : Option (List ℕ) → Option (ℕ × ℕ)
used none = none
used (some cpu) = utilization cpu

pub used-if :
    (all fits : Bool) (ns : List ℕ) (r : ℕ × ℕ)
    → utilization ns ≡ (if fits then some r else none)
    → used (if all then some ns else none) ≡ (if all && fits then some r else none)
used-if true fits ns r e = e
used-if false fits ns r e = refl

pub utilization-sums :
    (u n s i w q f t g : ℕ)
    → utilization (u ∷ n ∷ s ∷ i ∷ w ∷ q ∷ f ∷ t ∷ g ∷ []) ≡ (
        if ltb (u + n + s + i + w + q + f + t) int_limit
        then some (u + n + s + q + f + t, u + n + s + i + w + q + f + t)
        else none)
unfolding utilization as_int
utilization-sums u n s i w q f t g =
    let total = u + n + s + i + w + q + f + t in
    let busy : total - (i + w) ≡ u + n + s + q + f + t = omega arith in
    ap (λ usage. if ltb total int_limit then some (usage, total) else none) busy

and_same : (a b : Bool) → ((a && true) && b) ≡ (b && a)
and_same true true = refl
and_same true false = refl
and_same false true = refl
and_same false false = refl

and_false : (a : Bool) → (a && false) ≡ false
and_false true = refl
and_false false = refl

-- Where the sum is an `int`, so are its terms.
pub all_ints-sum :
    (u n s i w q f t g : ℕ)
    → (all_ints (u ∷ n ∷ s ∷ i ∷ w ∷ q ∷ f ∷ t ∷ g ∷ [])
        && ltb (u + n + s + i + w + q + f + t) int_limit)
      ≡ (ltb (u + n + s + i + w + q + f + t) int_limit && ltb g int_limit)
all_ints-sum u n s i w q f t g =
    let total = u + n + s + i + w + q + f + t in
    elim (dec_lt total int_limit) [
      | yes fits ↦
          let below = λ (x : ℕ) (h : x ≤ total). lt→ltb x int_limit (omega (fits, h, arith)) in
          rw
            (
              below u (omega arith),
              below n (omega arith),
              below s (omega arith),
              below i (omega arith),
              below w (omega arith),
              below q (omega arith),
              below f (omega arith),
              below t (omega arith),
            )
            (and_same (ltb g int_limit) (ltb total int_limit))
      | no past ↦
          rw (le→ltb total int_limit (omega (past, arith)))
            (and_false (all_ints (u ∷ n ∷ s ∷ i ∷ w ∷ q ∷ f ∷ t ∷ g ∷ [])))
    ]
