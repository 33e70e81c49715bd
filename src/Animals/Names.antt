-- ===== src/Animals/Names.antt =====
-- `strcmp` is a total order, and the exchange sort sorts by it.
use mathlib.Core.List.Perm
use mathlib.Core.List.{forall_mem-cons, not-mem-nil}
use Prim.Native.Nat.{Ordering, lt, eq, gt}
use advanced_practical_embed.Base.{
  ℕ, zero, suc, ◌≤◌, ◌≡◌, refl, ◌≢◌, List, [], ◌∷◌, Perm, Pairwise, Mem, arith, length, length-perm,
  ◌⊎◌, inl, inr,
}
use advanced_practical_embed.Animals.{strcmp, exchange, sort_names}

pub strcmp-eq : (a b : List ℕ) → strcmp a b ≡ eq → a ≡ b
unfolding strcmp
strcmp-eq [] [] h = refl
strcmp-eq [] (y ∷ b) h = cc
strcmp-eq (x ∷ a) [] h = cc
strcmp-eq (x ∷ a) (y ∷ b) h = let tail = strcmp-eq a b in ground arith

pub strcmp_refl : (a : List ℕ) → strcmp a a ≡ eq
unfolding strcmp
strcmp_refl [] = refl
strcmp_refl (x ∷ a) = let tail = strcmp_refl a in ground arith

pub strcmp-total : (a b : List ℕ) → strcmp a b ≡ gt → strcmp b a ≢ gt
unfolding strcmp
strcmp-total [] [] h = cc
strcmp-total [] (y ∷ b) h = cc
strcmp-total (x ∷ a) [] h = λ e. cc
strcmp-total (x ∷ a) (y ∷ b) h = let tail = strcmp-total a b in ground arith

pub strcmp_trans : (a b c : List ℕ) → strcmp a b ≢ gt → strcmp b c ≢ gt → strcmp a c ≢ gt
unfolding strcmp
strcmp_trans [] b [] h k = λ e. cc
strcmp_trans [] b (z ∷ c) h k = λ e. cc
strcmp_trans (x ∷ a) [] c h k = absurd (h refl)
strcmp_trans (x ∷ a) (y ∷ b) [] h k = absurd (k refl)
strcmp_trans (x ∷ a) (y ∷ b) (z ∷ c) h k = let tail = strcmp_trans a b c in ground arith

-- `a` does not come after `b`.
abbrev pub IsLe : List ℕ → List ℕ → Type 0
IsLe a b = strcmp a b ≢ gt

abbrev pub IsSorted : List (List ℕ) → Type 0
IsSorted = Pairwise IsLe

pub Ordering-cases : (o : Ordering) → (o ≡ gt) ⊎ (o ≢ gt)
Ordering-cases gt = inl refl
Ordering-cases eq = inr (λ e. cc)
Ordering-cases lt = inr (λ e. cc)

IsLe-prop : (a b : List ℕ) → IsProp (IsLe a b)
IsLe-prop a b = hlevel

pub exchange-after :
    (x y : List ℕ) (ys : List (List ℕ))
    → strcmp x y ≡ gt
    → exchange x (y ∷ ys) ≡ ((exchange y ys).0, x ∷ (exchange y ys).1)
unfolding exchange
exchange-after x y ys h = rw (exchange, h)

pub exchange-before :
    (x y : List ℕ) (ys : List (List ℕ))
    → strcmp x y ≢ gt
    → exchange x (y ∷ ys) ≡ ((exchange x ys).0, y ∷ (exchange x ys).1)
unfolding exchange
exchange-before x y ys h = ground arith

-- The smallest name and the others.
exchange-Least :
    (x : List ℕ) (ys : List (List ℕ))
    → Perm ((exchange x ys).0 ∷ (exchange x ys).1) (x ∷ ys)
      × IsLe (exchange x ys).0 x
      × ((z : List ℕ) → Mem z (exchange x ys).1 → IsLe (exchange x ys).0 z)
unfolding exchange
exchange-Least x [] = (Perm.rfl, λ e. cc (strcmp_refl x), λ z m. absurd (not-mem-nil m))
exchange-Least x (y ∷ ys) = elim (Ordering-cases (strcmp x y)) [
  | inl h ↦
      let (same, below, least) = exchange-Least y ys in
      let first = strcmp_trans (exchange y ys).0 y x below (strcmp-total x y h) in
      rw (exchange-after x y ys h) (
        Perm.trans (Perm.swap x (exchange y ys).0 (exchange y ys).1) (Perm.cons x same),
        first,
        (forall_mem-cons (λ z. IsLe-prop _ z)).1 (first, least),
      )
  | inr h ↦
      let (same, below, least) = exchange-Least x ys in
      let second = strcmp_trans (exchange x ys).0 x y below h in
      rw (exchange-before x y ys h) (
        Perm.trans (Perm.swap y (exchange x ys).0 (exchange x ys).1)
            (Perm.trans (Perm.cons y same) (Perm.swap x y ys)),
        below,
        (forall_mem-cons (λ z. IsLe-prop _ z)).1 (second, least),
      )
]

sort_names-Sorted :
    (n : ℕ) (names : List (List ℕ))
    → length names ≤ n
    → IsSorted (sort_names n names) × Perm (sort_names n names) names
unfolding sort_names
sort_names-Sorted zero [] h = (Pairwise.nil, Perm.rfl)
sort_names-Sorted zero (x ∷ names) h = absurd (omega arith)
sort_names-Sorted (suc n) [] h = (Pairwise.nil, Perm.rfl)
sort_names-Sorted (suc n) (x ∷ names) h =
    let (same, below, least) = exchange-Least x names in
    let size = length-perm same in
    let (sorted, same') = sort_names-Sorted n (exchange x names).1 (omega (arith, size)) in
    (
      Pairwise.cons (λ z m. least z ((Perm.mem_iff same').0 m)) sorted,
      Perm.trans (Perm.cons (exchange x names).0 same') same,
    )

-- The two loops put any names in the order of `strcmp`, and keep each of them.
pub sort_names-IsSorted :
    (names : List (List ℕ))
    → IsSorted (sort_names (length names) names) × Perm (sort_names (length names) names) names
sort_names-IsSorted names = sort_names-Sorted (length names) names (omega arith)
