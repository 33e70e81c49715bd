-- ===== src/Clients/Loops.antt =====
-- What the loops of the programs do on a block of the right size.
use advanced_practical_embed.Base.{
  ℕ, zero, suc, ◌+◌, ◌%◌, ◌≤◌, ◌<◌, ◌≡◌, refl, sym, ap, ◌∙◌, List, [], ◌∷◌, none, some, ℤ, pos,
  arith, length, length-set, set, get_elem?, drop, take, ◌++◌, Bool-cases, inl, inr, ◌==◌,
}
use advanced_practical_embed.Run.{ok, fault}
use advanced_practical_embed.MySort.Merging.Steps.{load-ok, store-ok}
use advanced_practical_embed.Clients.{
  Machine, block, fill, print_all, print_rows, Item, line_break, number,
}

pub length-block : (g : ℕ → ℤ) (i n : ℕ) → length (block g i n) ≡ n
length-block g i zero = refl
length-block g i (suc n) = ap suc (length-block g (suc i) n)

drop-get_elem? :
    (a : List ℤ) (i : ℕ)
    → i < length a
    → (x : ℤ) × (get_elem? a i ≡ some x) × (drop i a ≡ x ∷ drop (suc i) a)
drop-get_elem? [] i h = absurd (omega arith)
drop-get_elem? (x ∷ a) zero h = (x, refl, refl)
drop-get_elem? (x ∷ a) (suc i) h = drop-get_elem? a i (omega arith)

drop_all : (a : List ℤ) (i : ℕ) → length a ≤ i → drop i a ≡ []
drop_all [] zero h = refl
drop_all [] (suc i) h = refl
drop_all (x ∷ a) zero h = absurd (omega arith)
drop_all (x ∷ a) (suc i) h = drop_all a i (omega arith)

-- The numbers that `count` calls of `rand` give from call `k` on, below the modulus.
unfoldable pub draws : Machine → ℕ → ℕ → ℕ → List ℤ
draws m modulus k zero = []
draws m modulus k (suc count) = pos (m.rand k % modulus) ∷ draws m modulus (suc k) count

take_full : (a : List ℤ) (i : ℕ) → i ≡ length a → a ≡ take i a ++ []
take_full [] zero e = refl
take_full [] (suc i) e = refl
take_full (x ∷ a) zero e = absurd (omega (e, arith))
take_full (x ∷ a) (suc i) e = ap (◌∷◌ x) (take_full a i (omega (e, arith)))

take-set :
    (a : List ℤ) (i : ℕ) (v : ℤ) (rest : List ℤ)
    → i < length a
    → take (suc i) (set a i v) ++ rest ≡ take i a ++ v ∷ rest
take-set [] i v rest h = absurd (omega arith)
take-set (x ∷ a) zero v rest h = refl
take-set (x ∷ a) (suc i) v rest h = ap (◌∷◌ x) (take-set a i v rest (omega arith))

pub fill-ok :
    (m : Machine) (modulus drawn left i : ℕ) (a : List ℤ)
    → i + left ≡ length a
    → (b : List ℤ) × (fill m modulus drawn left i (some a) ≡ ok (some b))
      × (length b ≡ length a)
      × (b ≡ take i a ++ draws m modulus (drawn + i) left)
unfolding fill draws
fill-ok m modulus drawn zero i a e = (a, refl, refl, take_full a i (omega (e, arith)))
fill-ok m modulus drawn (suc left) i a e =
    let v = pos (m.rand (drawn + i) % modulus) in
    let size = length-set a i v in
    let next : drawn + suc i ≡ suc (drawn + i) = omega arith in
    let (b, run, same, entries) =
      fill-ok m modulus drawn left (suc i) (set a i v) (omega (arith, size)) in
    (
      b,
      rw (store-ok a i v (omega arith)) run,
      same ∙ size,
      entries
          ∙ take-set a i v (draws m modulus (drawn + suc i) left) (omega arith)
          ∙ ap (λ k. take i a ++ v ∷ draws m modulus k left) next,
    )

pub print_all-ok :
    (left i : ℕ) (a : List ℤ) → i + left ≡ length a → print_all left i (some a) ≡ ok (drop i a)
unfolding print_all
print_all-ok zero i a e = rw (drop_all a i (omega arith))
print_all-ok (suc left) i a e =
    let (x, at, split) = drop-get_elem? a i (omega arith) in
    rw (load-ok a i x at, print_all-ok left (suc i) a (omega arith), split)

-- The numbers among what is printed.
abbrev pub numbers : List Item → List ℤ
numbers [] = []
numbers (line_break ∷ items) = numbers items
numbers (number x ∷ items) = x ∷ numbers items

-- A line break stands before each entry whose index is a multiple of 8, counted from `i` on, and
-- nowhere else.
abbrev pub InRows : ℕ → List Item → Type 0
InRows i [] = Unit
InRows i (line_break ∷ number x ∷ items) = (i % 8 ≡ 0) × InRows (suc i) items
InRows i (line_break ∷ items) = ⊥
InRows i (number x ∷ items) = (0 < i % 8) × InRows (suc i) items

pub print_rows-ok :
    (left i : ℕ) (a : List ℤ)
    → i + left ≡ length a
    → (rows : List Item) × (print_rows left i (some a) ≡ ok rows)
      × (numbers rows ≡ drop i a)
      × InRows i rows
unfolding print_rows
print_rows-ok zero i a e = ([], refl, sym (drop_all a i (omega arith)), tt)
print_rows-ok (suc left) i a e =
    let (x, at, split) = drop-get_elem? a i (omega arith) in
    let (rows, run, nums, shape) = print_rows-ok left (suc i) a (omega arith) in
    elim (Bool-cases ((i % 8) == 0)) [
      | inl start ↦ (
        line_break ∷ number x ∷ rows,
        rw (load-ok a i x at, run, start),
        ap (◌∷◌ x) nums ∙ sym split,
        (ground arith, shape),
      )
      | inr within ↦ (
        number x ∷ rows,
        rw (load-ok a i x at, run, within),
        ap (◌∷◌ x) nums ∙ sym split,
        (ground arith, shape),
      )
    ]

pub fill_null :
    (m : Machine) (modulus drawn left i : ℕ) → 0 < left → fill m modulus drawn left i none ≡ fault
unfolding fill
fill_null m modulus drawn zero i h = absurd (omega arith)
fill_null m modulus drawn (suc left) i h = refl

pub print_all_null : (left i : ℕ) → 0 < left → print_all left i none ≡ fault
unfolding print_all
print_all_null zero i h = absurd (omega arith)
print_all_null (suc left) i h = refl
