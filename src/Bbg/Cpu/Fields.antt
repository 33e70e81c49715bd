-- ===== src/Bbg/Cpu/Fields.antt =====
-- The first line of /proc/stat, and what the thread reads of it.
use advanced_practical_embed.Base.{
  ℕ, zero, suc, ◌+◌, ◌-◌, ◌/◌, ◌%◌, ◌≤◌, ◌<◌, ◌≡◌, refl, sym, ap, ◌∙◌, false, List, [], ◌∷◌, ◌++◌,
  append_assoc, append-nil, some, ltb, ◌==◌, length, if◌then◌else◌, arith, dec_lt, lt→ltb, le→ltb,
  Option, none, Bool, true, ◌&&◌,
}
use advanced_practical_embed.Bbg.Cpu.{
  fgets, end_token, tokens, int_limit, atoi, read_fields, utilization, sample,
}
use advanced_practical_embed.Bbg.Cpu.Digits.{show, decimal, AllDigits, show-AllDigits, atoi-decimal}
use advanced_practical_embed.Bbg.Cpu.Sums.{all_ints, used, used-if, utilization-sums, all_ints-sum}

-- The fields of a line, each behind a space.
abbrev pub print_fields : List ℕ → List ℕ
print_fields [] = []
print_fields (n ∷ ns) = 32 ∷ decimal n ++ print_fields ns

-- "cpu " and the fields
abbrev pub print_line : List ℕ → List ℕ
print_line ns = 99 ∷ 112 ∷ 117 ∷ 32 ∷ print_fields ns

-- What may follow the fields: nothing, where `fgets` has cut the line there, or the next field.
data Rest : List ℕ → Type 0 where
  nothing : Rest []
  space : (text : List ℕ) → Rest (32 ∷ text)

following : List ℕ → List (List ℕ)
following [] = []
following (c ∷ text) = tokens [] text

-- the step of `read_fields`, on what its two parts give
abbrev both : Option ℕ → Option (List ℕ) → Option (List ℕ)
both _ none = none
both none (some fields) = none
both (some field) (some fields) = some (field ∷ fields)

both-elim :
    (o : Option ℕ) (os : Option (List ℕ))
    → elim os as (λ _. Option (List ℕ)) [
      | none ↦ none
      | some fields ↦ elim o as (λ _. Option (List ℕ)) [
        | none ↦ none
        | some field ↦ some (field ∷ fields)
      ]
    ]
      ≡ both o os
both-elim o none = refl
both-elim none (some fields) = refl
both-elim (some field) (some fields) = refl

both-if :
    (small smalls : Bool) (n : ℕ) (ns : List ℕ)
    → both (if small then some n else none) (if smalls then some ns else none)
      ≡ (if small && smalls then some (n ∷ ns) else none)
both-if true true n ns = refl
both-if true false n ns = refl
both-if false true n ns = refl
both-if false false n ns = refl

tokens-step :
    (c : ℕ) (token text : List ℕ)
    → (c == 32) ≡ false
    → tokens token (c ∷ text) ≡ tokens (token ++ c ∷ []) text
unfolding tokens
tokens-step c token text e = rw (tokens, e) refl

tokens-digits :
    (ds token rest : List ℕ) → AllDigits ds → tokens token (ds ++ rest) ≡ tokens (token ++ ds) rest
tokens-digits [] token rest h = rw (append-nil token) refl
tokens-digits (c ∷ ds) token rest h =
    tokens-step c token (ds ++ rest) (ground arith)
    ∙ tokens-digits ds (token ++ c ∷ []) rest h.2
    ∙ ap (λ front. tokens front rest) (append_assoc token (c ∷ []) ds)

end_token-snoc :
    (xs : List ℕ) (x : ℕ) (rest : List (List ℕ))
    → end_token (xs ++ x ∷ []) rest ≡ (xs ++ x ∷ []) ∷ rest
end_token-snoc [] x rest = refl
end_token-snoc (y ∷ xs) x rest = refl

end_token-decimal : (n : ℕ) (rest : List (List ℕ)) → end_token (decimal n) rest ≡ decimal n ∷ rest
unfolding show
end_token-decimal n rest = elim (dec_lt n 10) [
  | yes small ↦ rw (lt→ltb n 10 small) refl
  | no large ↦ rw (le→ltb n 10 (omega arith)) (end_token-snoc (show n (n / 10)) (48 + n % 10) rest)
]

tokens-last :
    (n : ℕ) (rest : List ℕ) → Rest rest → tokens (decimal n) rest ≡ decimal n ∷ following rest
unfolding tokens following
tokens-last n rest nothing = end_token-decimal n []
tokens-last n rest (space text) = end_token-decimal n (tokens [] text)

decimals : List ℕ → List (List ℕ)
decimals [] = []
decimals (n ∷ ns) = decimal n ∷ decimals ns

tokens-fields :
    (m : ℕ) (ns rest : List ℕ)
    → Rest rest
    → tokens (decimal m) (print_fields ns ++ rest) ≡ decimal m ∷ (decimals ns ++ following rest)
unfolding tokens decimals
tokens-fields m [] rest r = tokens-last m rest r
tokens-fields m (n ∷ ns) rest r =
    end_token-decimal m (tokens [] ((decimal n ++ print_fields ns) ++ rest))
    ∙ ap (λ text. decimal m ∷ tokens [] text) (append_assoc (decimal n) (print_fields ns) rest)
    ∙ ap (λ pieces. decimal m ∷ pieces)
        (tokens-digits (decimal n) [] (print_fields ns ++ rest) (show-AllDigits (suc n) n)
          ∙ tokens-fields n ns rest r)

read_fields-decimals :
    (ns : List ℕ) (more : List (List ℕ))
    → read_fields (length ns) (decimals ns ++ more) ≡ (if all_ints ns then some ns else none)
unfolding read_fields decimals
read_fields-decimals [] more = refl
read_fields-decimals (n ∷ ns) more =
    both-elim (atoi (decimal n)) (read_fields (length ns) (decimals ns ++ more))
    ∙ ap (both (atoi (decimal n))) (read_fields-decimals ns more)
    ∙ ap (λ o. both o (if all_ints ns then some ns else none)) (atoi-decimal n)
    ∙ both-if (ltb n int_limit) (all_ints ns) n ns

abbrev OneLine : List ℕ → Type 0
OneLine [] = Unit
OneLine (c ∷ cs) = (10 < c) × OneLine cs

OneLine-append : (xs ys : List ℕ) → OneLine xs → OneLine ys → OneLine (xs ++ ys)
OneLine-append [] ys h k = k
OneLine-append (x ∷ xs) ys h k = (h.0, OneLine-append xs ys h.1 k)

AllDigits-OneLine : (cs : List ℕ) → AllDigits cs → OneLine cs
AllDigits-OneLine [] h = tt
AllDigits-OneLine (c ∷ cs) h = (omega arith, AllDigits-OneLine cs h.2)

print_fields-OneLine : (ns : List ℕ) → OneLine (print_fields ns)
print_fields-OneLine [] = tt
print_fields-OneLine (n ∷ ns) = (
  omega arith,
  OneLine-append (decimal n) (print_fields ns)
      (AllDigits-OneLine (decimal n) (show-AllDigits (suc n) n)) (print_fields-OneLine ns),
)

fgets-line :
    (m k : ℕ) (xs rest : List ℕ)
    → m ≡ length xs + k
    → OneLine xs
    → fgets m (xs ++ rest) ≡ xs ++ fgets k rest
unfolding fgets
fgets-line m k [] rest e h = ap (λ size. fgets size rest) (omega (e, arith))
fgets-line zero k (x ∷ xs) rest e h = absurd (omega (e, arith))
fgets-line (suc m) k (x ∷ xs) rest e h =
    let off : (x == 10) ≡ false = ground arith in
    rw (off) (ap (λ line. x ∷ line) (fgets-line m k xs rest (omega (e, arith)) h.1))

fgets-Rest : (k : ℕ) (rest : List ℕ) → Rest rest → Rest (fgets k rest)
unfolding fgets
fgets-Rest zero rest r = nothing
fgets-Rest (suc k) [] r = nothing
fgets-Rest (suc k) _ (space text) = space (fgets k text)

first_field :
    (n : ℕ) (ns rest : List ℕ)
    → Rest rest
    → tokens [] (print_line (n ∷ ns) ++ rest)
      ≡ (99 ∷ 112 ∷ 117 ∷ []) ∷ (decimals (n ∷ ns) ++ following rest)
unfolding tokens decimals
first_field n ns rest r =
    ap (λ text. (99 ∷ 112 ∷ 117 ∷ []) ∷ tokens [] text)
      (append_assoc (decimal n) (print_fields ns) rest)
    ∙ ap (λ pieces. (99 ∷ 112 ∷ 117 ∷ []) ∷ pieces)
        (tokens-digits (decimal n) [] (print_fields ns ++ rest) (show-AllDigits (suc n) n)
          ∙ tokens-fields n ns rest r)

print_line-OneLine : (ns : List ℕ) → OneLine (print_line ns)
print_line-OneLine ns =
    (omega arith, (omega arith, (omega arith, (omega arith, print_fields-OneLine ns))))

used-elim :
    (cpu : Option (List ℕ))
    → elim cpu as (λ _. Option (ℕ × ℕ)) [ none ↦ none | some cpu ↦ utilization cpu ] ≡ used cpu
used-elim none = refl
used-elim (some cpu) = refl

sample-used :
    (stat name : List ℕ) (pieces : List (List ℕ))
    → tokens [] (fgets 46 stat) ≡ name ∷ pieces
    → sample stat ≡ used (read_fields 9 pieces)
unfolding sample
sample-used stat name pieces e = rw (sample, e) (used-elim (read_fields 9 pieces))

sample-fields :
    (ns text : List ℕ)
    → length ns ≡ 9
    → length (print_line ns) ≤ 46
    → sample (print_line ns ++ 32 ∷ text) ≡ used (if all_ints ns then some ns else none)
sample-fields [] text nine fits = absurd (omega (nine, arith))
sample-fields (n ∷ ns) text nine fits =
    let line = print_line (n ∷ ns) in
    let k = 46 - length line in
    let rest = fgets k (32 ∷ text) in
    sample-used (line ++ 32 ∷ text) (99 ∷ 112 ∷ 117 ∷ []) (decimals (n ∷ ns) ++ following rest) (
      ap (λ bytes. tokens [] bytes)
        (fgets-line 46 k line (32 ∷ text) (omega (fits, arith)) (print_line-OneLine (n ∷ ns)))
      ∙ first_field n ns rest (fgets-Rest k (32 ∷ text) (space text)))
    ∙ ap used (
        ap (λ size. read_fields size (decimals (n ∷ ns) ++ following rest)) (sym nine)
        ∙ read_fields-decimals (n ∷ ns) (following rest))

-- Where the first nine fields of the line of /proc/stat are within the 46 bytes that `fgets` reads, and
-- more fields are behind them: if the ninth and the sum of the first eight are below 2^31, then the
-- thread takes as the usage the sum of these eight but the fourth and the fifth, and as the time the sum
-- of all eight; and if not, then a number is too large for an `int`, and no result is given.
pub sample_roundtrip :
    (u n s i w q f t g : ℕ) (text : List ℕ)
    → length (print_line (u ∷ n ∷ s ∷ i ∷ w ∷ q ∷ f ∷ t ∷ g ∷ [])) ≤ 46
    → sample (print_line (u ∷ n ∷ s ∷ i ∷ w ∷ q ∷ f ∷ t ∷ g ∷ []) ++ 32 ∷ text) ≡ (
        if ltb (u + n + s + i + w + q + f + t) 2147483648 && ltb g 2147483648
        then some (u + n + s + q + f + t, u + n + s + i + w + q + f + t)
        else none)
sample_roundtrip u n s i w q f t g text fits =
    sample-fields (u ∷ n ∷ s ∷ i ∷ w ∷ q ∷ f ∷ t ∷ g ∷ []) text refl fits
    ∙ used-if (all_ints (u ∷ n ∷ s ∷ i ∷ w ∷ q ∷ f ∷ t ∷ g ∷ []))
        (ltb (u + n + s + i + w + q + f + t) int_limit) (u ∷ n ∷ s ∷ i ∷ w ∷ q ∷ f ∷ t ∷ g ∷ [])
        (u + n + s + q + f + t, u + n + s + i + w + q + f + t) (utilization-sums u n s i w q f t g)
    ∙ ap
        (λ fits. if fits then some (u + n + s + q + f + t, u + n + s + i + w + q + f + t) else none)
        (all_ints-sum u n s i w q f t g)
