-- ===== src/MySort/Order.antt =====
-- What sorting means, independently of the loops: ascending and descending lists, and the merge of
-- two lists that takes the right one on a tie.
use mathlib.Core.List.Perm
use mathlib.Core.Logic.Or
use mathlib.Core.List.{Pairwise-cons, forall_mem-cons, mem-append}
use native.Mathlib.Bridge.{le_prop}
use advanced_practical_embed.Base.{
  ◌+◌, ◌≡◌, refl, true, false, inl, inr, List, [], ◌∷◌, ◌++◌, Perm, Pairwise, Mem, arith, ℤ, ◌≤ℤ◌,
  ltb_ℤ, ≤ℤ_trans, Bool-cases, append-nil, perm_middle, length, length-perm, length-append,
}

abbrev pub IsAscending : List ℤ → Type 0
IsAscending = Pairwise (λ x y. x ≤ℤ y)

abbrev pub IsDescending : List ℤ → Type 0
IsDescending = Pairwise (λ x y. y ≤ℤ x)

unfoldable pub interleave : List ℤ → List ℤ → List ℤ
interleave [] ys = ys
interleave (x ∷ xs) [] = x ∷ xs
interleave (x ∷ xs) (y ∷ ys) = elim (ltb_ℤ x y) [
  | true ↦ x ∷ interleave xs (y ∷ ys)
  | false ↦ y ∷ interleave (x ∷ xs) ys
]

pub interleave_left :
    (x y : ℤ) (xs ys : List ℤ)
    → ltb_ℤ x y ≡ true
    → interleave (x ∷ xs) (y ∷ ys) ≡ x ∷ interleave xs (y ∷ ys)
unfolding interleave
interleave_left x y xs ys h = ground arith

pub interleave_right :
    (x y : ℤ) (xs ys : List ℤ)
    → ltb_ℤ x y ≡ false
    → interleave (x ∷ xs) (y ∷ ys) ≡ y ∷ interleave (x ∷ xs) ys
unfolding interleave
interleave_right x y xs ys h = ground arith

pub nil-interleave : (ys : List ℤ) → interleave [] ys ≡ ys
unfolding interleave
nil-interleave ys = refl

pub interleave-nil : (xs : List ℤ) → interleave xs [] ≡ xs
unfolding interleave
interleave-nil [] = refl
interleave-nil (x ∷ xs) = refl

pub interleave-perm : (xs ys : List ℤ) → Perm (interleave xs ys) (xs ++ ys)
unfolding interleave
interleave-perm [] ys = Perm.rfl
interleave-perm (x ∷ xs) [] = rw (append-nil xs) Perm.rfl
interleave-perm (x ∷ xs) (y ∷ ys) = elim (Bool-cases (ltb_ℤ x y)) [
  | inl h ↦ rw (interleave_left x y xs ys h) (Perm.cons x (interleave-perm xs (y ∷ ys)))
  | inr h ↦
      rw (interleave_right x y xs ys h) (
        Perm.trans (Perm.cons y (interleave-perm (x ∷ xs) ys))
          (Perm.symm (perm_middle (x ∷ xs) ys)))
]

abbrev IsBelow : ℤ → List ℤ → Type 0
IsBelow a xs = (x : ℤ) → Mem x xs → a ≤ℤ x

IsBelow-append : (a : ℤ) (xs ys : List ℤ) → IsBelow a xs → IsBelow a ys → IsBelow a (xs ++ ys)
IsBelow-append a xs ys hx hy x m = Or.elim le_prop (mem-append.0 m) (hx x) (hy x)

IsBelow-perm : (a : ℤ) {xs ys : List ℤ} → Perm xs ys → IsBelow a ys → IsBelow a xs
IsBelow-perm a p h x m = h x ((Perm.mem_iff p).0 m)

IsBelow-head : (a b : ℤ) (xs : List ℤ) → a ≤ℤ b → IsAscending (b ∷ xs) → IsBelow a (b ∷ xs)
IsBelow-head a b xs p s =
    (forall_mem-cons (λ x. le_prop)).1 (p, λ x m. ≤ℤ_trans a b x p ((Pairwise-cons.0 s).0 x m))

pub interleave-IsAscending :
    (xs ys : List ℤ) → IsAscending xs → IsAscending ys → IsAscending (interleave xs ys)
unfolding interleave
interleave-IsAscending [] ys sx sy = sy
interleave-IsAscending (x ∷ xs) [] sx sy = sx
interleave-IsAscending (x ∷ xs) (y ∷ ys) sx sy =
    let (below_x, tail_x) = Pairwise-cons.0 sx in
    let (below_y, tail_y) = Pairwise-cons.0 sy in
    elim (Bool-cases (ltb_ℤ x y)) [
      | inl h ↦ rw (interleave_left x y xs ys h) (
          Pairwise.cons
            (IsBelow-perm _ (interleave-perm xs (y ∷ ys))
              (IsBelow-append x xs (y ∷ ys) below_x (IsBelow-head x y ys (ground arith) sy)))
            (interleave-IsAscending xs (y ∷ ys) tail_x sy))
      | inr h ↦ rw (interleave_right x y xs ys h) (
          Pairwise.cons
            (IsBelow-perm _ (interleave-perm (x ∷ xs) ys)
              (IsBelow-append y (x ∷ xs) ys (IsBelow-head y x xs (ground arith) sx) below_y))
            (interleave-IsAscending (x ∷ xs) ys sx tail_y))
    ]

pub length-interleave : (xs ys : List ℤ) → length (interleave xs ys) ≡ length xs + length ys
length-interleave xs ys = omega (arith, length-perm (interleave-perm xs ys), length-append xs ys)
