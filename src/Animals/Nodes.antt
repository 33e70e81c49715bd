-- ===== src/Animals/Nodes.antt =====
-- The list of the animals: each name once, in order, with the number of its occurrences.
use mathlib.Core.List.{
  Pairwise-cons, forall_mem-cons, not-mem-nil, mem-cons_self, mem-cons_of_mem, mem-append_right,
}
use mathlib.Core.Path.{subst}
use native.Mathlib.Bridge.{le_prop}
use Prim.Native.Nat.{Ordering, lt, eq, gt}
use advanced_practical_embed.Base.{
  ℕ, zero, suc, ◌+◌, ◌<◌, ◌≡◌, refl, sym, ap, ◌∙◌, ◌≢◌, List, [], ◌∷◌, ◌++◌, Perm, Pairwise, Mem,
  arith, length, length-perm, ◌⊎◌, inl, inr, drop, length-drop, ℤ, Option,
}
use advanced_practical_embed.Run.{ok}
use advanced_practical_embed.Animals.{
  strcmp, tally, unique, Animal, sort_names, second_set, animal_ecosystem_start,
}
use advanced_practical_embed.Animals.Names.{
  strcmp-eq, strcmp_refl, strcmp_trans, IsLe, IsSorted, sort_names-IsSorted,
}

strcmp-flip : (a b : List ℕ) → strcmp a b ≡ lt → strcmp b a ≡ gt
unfolding strcmp
strcmp-flip [] [] h = cc
strcmp-flip [] (y ∷ b) h = refl
strcmp-flip (x ∷ a) [] h = cc
strcmp-flip (x ∷ a) (y ∷ b) h = let tail = strcmp-flip a b in ground arith

Ordering-split : (o : Ordering) → (o ≡ gt) ⊎ ((o ≡ eq) ⊎ (o ≡ lt))
Ordering-split gt = inl refl
Ordering-split eq = inr (inl refl)
Ordering-split lt = inr (inr refl)

pub lt_trans : (a b c : List ℕ) → strcmp a b ≡ lt → IsLe b c → strcmp a c ≡ lt
lt_trans a b c h k = let below = strcmp_trans a b c (λ e. cc) k in go (strcmp a c) refl below
  where
    go : (o : Ordering) → strcmp a c ≡ o → o ≢ gt → strcmp a c ≡ lt
    go lt e n = e
    go gt e n = absurd (n refl)
    go eq e n =
        let same : b ≡ b = refl in
        absurd (k (subst (λ z. strcmp b z ≡ gt) (strcmp-eq a c e) (strcmp-flip a b h)))

unfoldable pub repeat : ℕ → List ℕ → List (List ℕ)
repeat zero x = []
repeat (suc n) x = x ∷ repeat n x

-- The names that a list of nodes stands for, each as often as its node counts.
unfoldable pub expand : List Animal → List (List ℕ)
expand [] = []
expand (a ∷ nodes) = repeat a.count a.animal_name ++ expand nodes

tally-none :
    (x : List ℕ) (ys : List (List ℕ)) → ((z : List ℕ) → Mem z ys → strcmp x z ≡ lt) → tally x ys ≡ 0
unfolding tally
tally-none x [] h = refl
tally-none x (y ∷ ys) h =
    let (first, others) = (forall_mem-cons (λ z. hlevel)).0 h in
    rw (tally, first) (tally-none x ys others)

tally-nil : (x : List ℕ) → tally x [] ≡ 0
unfolding tally
tally-nil x = refl

tally-found :
    (x y : List ℕ) (ys : List (List ℕ)) → strcmp x y ≡ eq → tally x (y ∷ ys) ≡ suc (tally x ys)
unfolding tally
tally-found x y ys e = rw (tally, e)

-- In a sorted list that starts at `x`, the copies of `x` come first.
tally-split :
    (x : List ℕ) (ys : List (List ℕ))
    → ((z : List ℕ) → Mem z ys → IsLe x z)
    → IsSorted ys
    → (repeat (tally x ys) x ++ drop (tally x ys) ys ≡ ys)
      × ((z : List ℕ) → Mem z (drop (tally x ys) ys) → strcmp x z ≡ lt)
      × IsSorted (drop (tally x ys) ys)
unfolding repeat
tally-split x [] h s = rw (tally-nil x) (refl, λ z m. absurd (not-mem-nil m), s)
tally-split x (y ∷ ys) h s =
    let (first, others) = (forall_mem-cons (λ z. hlevel)).0 h in
    let (above, tail) = Pairwise-cons.0 s in
    let (both, beyond, sorted) = tally-split x ys others tail in
    elim (Ordering-split (strcmp x y)) [
      | inl e ↦ absurd (first e)
      | inr (inl e) ↦
          let same = strcmp-eq x y e in
          rw (tally-found x y ys e) (
            subst (λ z. z ∷ (repeat (tally x ys) x ++ drop (tally x ys) ys) ≡ y ∷ ys) (sym same)
                (ap (◌∷◌ y) both),
            beyond,
            sorted,
          )
      | inr (inr e) ↦
          let later : (z : List ℕ) → Mem z (y ∷ ys) → strcmp x z ≡ lt =
            (forall_mem-cons (λ z. hlevel)).1 (e, λ z m. lt_trans x y z e (above z m)) in
          rw (tally-none x (y ∷ ys) later) (refl, later, s)
    ]

-- Each name on one node, in ascending order.
abbrev pub IsStrict : List Animal → Type 0
IsStrict = Pairwise (λ a b. strcmp a.animal_name b.animal_name ≡ lt)

unique-Nodes :
    (fuel : ℕ) (names : List (List ℕ))
    → length names < fuel
    → IsSorted names
    → (root : List Animal) × (unique fuel names ≡ ok root)
      × (expand root ≡ names)
      × IsStrict root
      × ((a : Animal) → Mem a root → Mem a.animal_name names × (0 < a.count))
unfolding unique expand repeat
unique-Nodes zero names f s = absurd (omega arith)
unique-Nodes (suc fuel) [] f s = ([], refl, refl, Pairwise.nil, λ a m. absurd (not-mem-nil m))
unique-Nodes (suc fuel) (x ∷ names) f s =
    let (above, tail) = Pairwise-cons.0 s in
    let (both, beyond, sorted) = tally-split x names above tail in
    let (root, ran, back, strict, found) =
      unique-Nodes fuel (drop (tally x names) names)
        (omega (arith, length-drop (tally x names) names)) sorted in
    let node : Animal = record { animal_name = x; count = suc (tally x names) } in
    rw (tally-found x x names (strcmp_refl x)) (
      node ∷ root,
      rw ran refl,
      ap (λ l. repeat (suc (tally x names)) x ++ l) back ∙ ap (◌∷◌ x) both,
      Pairwise.cons (λ a m. beyond a.animal_name (found a m).0) strict,
      (forall_mem-cons (λ a. hlevel (le_prop))).1 (
        (mem-cons_self, omega arith),
        λ a m. (
          mem-cons_of_mem x (
              subst (λ l. Mem a.animal_name l) both
                (mem-append_right (repeat (tally x names) x) (found a m).0)),
          (found a m).1,
        ),
      ),
    )

-- On any seed array of names the entry function lists nodes whose names are in strictly ascending
-- order and whose counts are not 0, such that the names with their counts are those of the seed array.
pub start_lists_unique :
    (names_t : List (List ℕ)) (find_count : ℤ) (find_name : Option (List ℕ))
    → (root : List Animal) × (animal_ecosystem_start names_t find_count find_name
        ≡ ok (second_set find_count find_name root))
      × Perm (expand root) names_t
      × IsStrict root
      × ((a : Animal) → Mem a root → 0 < a.count)
unfolding animal_ecosystem_start
start_lists_unique names_t find_count find_name =
    let (sorted, same) = sort_names-IsSorted names_t in
    let size = length-perm same in
    let (root, ran, back, strict, found) =
      unique-Nodes (length names_t + 1) (sort_names (length names_t) names_t) (omega (arith, size))
        sorted in
    (root, rw ran refl, subst (λ l. Perm l names_t) (sym back) same, strict, λ a m. (found a m).1)
