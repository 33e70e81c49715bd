-- ===== src/MySort/Sorting.antt =====
-- `mergesort` on a range of an array: what it leaves there, and ranges that are too long for `temp`.
use mathlib.Core.List.Perm
use mathlib.Core.List.{Pairwise-singleton}
use advanced_practical_embed.Base.{
  ℕ, zero, suc, ◌+◌, ◌-◌, ◌/◌, ◌≤◌, ◌<◌, ◌≡◌, refl, sym, ap, ◌∙◌, List, [], ◌∷◌, ◌++◌, arith, ℤ,
  append-nil, append_assoc, length, length-append, length-perm, lt→ltb, le→ltb, take, drop,
  take-append-drop, length-take, length-drop, Perm, Pairwise, dec_lt,
}
use advanced_practical_embed.Run.{Run, ok, fault, ◌>>=◌}
use advanced_practical_embed.MySort.{merge, mergesort_fuel, mergesort, temp_size}
use advanced_practical_embed.MySort.Order.{
  IsAscending, interleave, interleave-perm, interleave-IsAscending,
}
use advanced_practical_embed.MySort.Merging.Range.{merge-ok, merge-fault}

-- A range of one entry or none is left alone.
mergesort_fuel-short :
    (fuel : ℕ) (a : List ℤ) (i j : ℕ) → j ≤ i → mergesort_fuel (suc fuel) a i j ≡ ok a
unfolding mergesort_fuel
mergesort_fuel-short fuel a i j h = rw (le→ltb i j h)

mergesort_fuel-long :
    (fuel : ℕ) (a : List ℤ) (i j : ℕ)
    → i < j
    → mergesort_fuel (suc fuel) a i j ≡ (
        mergesort_fuel fuel a i ((i + j) / 2) >>= λ b.
        mergesort_fuel fuel b ((i + j) / 2 + 1) j >>= λ c.
        merge c i ((i + j) / 2) ((i + j) / 2 + 1) j)
unfolding mergesort_fuel
mergesort_fuel-long fuel a i j h = rw (lt→ltb i j h)

-- The entries `xs` of a range, sorted in place.
pub record Sorted (p xs q : List ℤ) (r : Run (List ℤ)) : Type 0 where
  pub result : List ℤ
  pub returned : r ≡ ok (p ++ (result ++ q))
  pub ascending : IsAscending result
  pub same : Perm result xs

module _ (fuel : ℕ) (p xs q : List ℤ) (i j : ℕ) (start : i ≡ length p) (end : i + length xs ≡ suc j)
    (long : i < j) where
  abbrev middle : ℕ
  middle = (i + j) / 2

  abbrev lower : List ℤ
  lower = take (middle + 1 - i) xs

  abbrev upper : List ℤ
  upper = drop (middle + 1 - i) xs

  length-lower : length lower ≡ middle + 1 - i
  length-lower = omega (arith, length-take (middle + 1 - i) xs)

  length-upper : length upper ≡ j - middle
  length-upper = omega (arith, length-drop (middle + 1 - i) xs)

  split : p ++ (xs ++ q) ≡ p ++ (lower ++ (upper ++ q))
  split =
      ap (λ l. p ++ (l ++ q)) (sym (take-append-drop (middle + 1 - i) xs))
      ∙ ap (◌++◌ p) (append_assoc lower upper q)

  -- The two recursive calls and the merge, when the calls sort.
  mergesort_fuel-halves :
      (l r : List ℤ)
      → mergesort_fuel fuel (p ++ (lower ++ (upper ++ q))) i middle ≡ ok (p ++ (l ++ (upper ++ q)))
      → mergesort_fuel fuel ((p ++ l) ++ (upper ++ q)) (middle + 1) j ≡ ok ((p ++ l) ++ (r ++ q))
      → mergesort_fuel (suc fuel) (p ++ (xs ++ q)) i j
        ≡ merge (p ++ (l ++ (r ++ q))) i middle (middle + 1) j
  mergesort_fuel-halves l r el er =
      rw
        (
          mergesort_fuel-long fuel (p ++ (xs ++ q)) i j long,
          split,
          el,
          ← append_assoc p l (upper ++ q),
        )
        (rw er (ap (λ a. merge a i middle (middle + 1) j) (append_assoc p l (r ++ q))))

  -- The first call sorts the lower half in place.
  abbrev LowerSorted : Type 0
  LowerSorted =
      Sorted p lower (upper ++ q) (mergesort_fuel fuel (p ++ (lower ++ (upper ++ q))) i middle)

  abbrev UpperSorted : LowerSorted → Type 0
  UpperSorted sl =
      Sorted (p ++ sl.result) upper q
        (mergesort_fuel fuel ((p ++ sl.result) ++ (upper ++ q)) (middle + 1) j)

  module _ (sl : LowerSorted) (sr : UpperSorted sl) where
    size_left : length sl.result ≡ middle + 1 - i
    size_left = length-perm sl.same ∙ length-lower

    size_right : length sr.result ≡ j - middle
    size_right = length-perm sr.same ∙ length-upper

    halves_same : Perm (interleave sl.result sr.result) xs
    halves_same =
        Perm.trans (interleave-perm sl.result sr.result)
          (rw (take-append-drop (middle + 1 - i) xs) at (Perm.append sl.same sr.same))

    halves_merge :
        mergesort_fuel (suc fuel) (p ++ (xs ++ q)) i j
        ≡ merge (p ++ (sl.result ++ (sr.result ++ q))) i middle (middle + 1) j
    halves_merge = mergesort_fuel-halves sl.result sr.result sl.returned sr.returned

    halves-Sorted :
        length xs ≤ temp_size → Sorted p xs q (mergesort_fuel (suc fuel) (p ++ (xs ++ q)) i j)
    halves-Sorted small = record {
      result = interleave sl.result sr.result;
      returned =
          halves_merge
          ∙ merge-ok p sl.result sr.result q i middle (middle + 1) j start
              (omega (arith, size_left)) (omega arith) (omega (arith, size_right))
              (omega (arith, size_right)) (omega (arith, size_left, size_right));
      ascending = interleave-IsAscending sl.result sr.result sl.ascending sr.ascending;
      same = halves_same;
    }

    halves-fault : temp_size < length xs → mergesort_fuel (suc fuel) (p ++ (xs ++ q)) i j ≡ fault
    halves-fault large =
        halves_merge
        ∙ merge-fault p sl.result sr.result q i middle (middle + 1) j start
            (omega (arith, size_left)) (omega arith) (omega (arith, size_right))
            (omega (arith, size_right)) (omega (arith, size_left, size_right))

  lower-fault :
      mergesort_fuel fuel (p ++ (lower ++ (upper ++ q))) i middle ≡ fault
      → mergesort_fuel (suc fuel) (p ++ (xs ++ q)) i j ≡ fault
  lower-fault e = rw (mergesort_fuel-long fuel (p ++ (xs ++ q)) i j long, split, e)

  upper-fault :
      (sl : LowerSorted)
      → mergesort_fuel fuel ((p ++ sl.result) ++ (upper ++ q)) (middle + 1) j ≡ fault
      → mergesort_fuel (suc fuel) (p ++ (xs ++ q)) i j ≡ fault
  upper-fault sl e = rw (
    mergesort_fuel-long fuel (p ++ (xs ++ q)) i j long,
    split,
    sl.returned,
    ← append_assoc p sl.result (upper ++ q),
    e,
  )

IsAscending-short : (xs : List ℤ) → length xs ≤ 1 → IsAscending xs
IsAscending-short [] h = Pairwise.nil
IsAscending-short (x ∷ []) h = Pairwise-singleton _ x
IsAscending-short (x ∷ y ∷ xs) h = absurd (omega arith)

mergesort_fuel-Sorted :
    (fuel : ℕ) (p xs q : List ℤ) (i j : ℕ)
    → i ≡ length p
    → i + length xs ≡ suc j
    → j - i < fuel
    → length xs ≤ temp_size
    → Sorted p xs q (mergesort_fuel fuel (p ++ (xs ++ q)) i j)
mergesort_fuel-Sorted zero p xs q i j start end f small = absurd (omega arith)
mergesort_fuel-Sorted (suc fuel) p xs q i j start end f small = elim (dec_lt i j) [
  | no short ↦ record {
    result = xs;
    returned = mergesort_fuel-short fuel (p ++ (xs ++ q)) i j (omega arith);
    ascending = IsAscending-short xs (omega arith);
    same = Perm.rfl;
  }
  | yes long ↦
      let size_l = length-lower fuel p xs q i j start end long in
      let size_u = length-upper fuel p xs q i j start end long in
      let sl =
        mergesort_fuel-Sorted fuel p (lower fuel p xs q i j start end long)
          (upper fuel p xs q i j start end long ++ q) i ((i + j) / 2) start (omega arith)
          (omega arith) (omega arith) in
      halves-Sorted fuel p xs q i j start end long sl
        (mergesort_fuel-Sorted fuel (p ++ sl.result) (upper fuel p xs q i j start end long) q
          ((i + j) / 2 + 1) j (omega (arith, length-append p sl.result, length-perm sl.same))
          (omega arith) (omega arith) (omega arith))
        small
]

mergesort_fuel-fault :
    (fuel : ℕ) (p xs q : List ℤ) (i j : ℕ)
    → i ≡ length p
    → i + length xs ≡ suc j
    → j - i < fuel
    → temp_size < length xs
    → mergesort_fuel fuel (p ++ (xs ++ q)) i j ≡ fault
mergesort_fuel-fault zero p xs q i j start end f large = absurd (omega arith)
mergesort_fuel-fault (suc fuel) p xs q i j start end f large =
    let long : i < j = omega arith in
    let l = lower fuel p xs q i j start end long in
    let u = upper fuel p xs q i j start end long in
    let size_l = length-lower fuel p xs q i j start end long in
    let size_u = length-upper fuel p xs q i j start end long in
    elim (dec_lt temp_size (length l)) [
      | yes lower_large ↦ lower-fault fuel p xs q i j start end long (
          mergesort_fuel-fault fuel p l (u ++ q) i ((i + j) / 2) start (omega arith) (omega arith)
            lower_large)
      | no lower_small ↦
          let sl =
            mergesort_fuel-Sorted fuel p l (u ++ q) i ((i + j) / 2) start (omega arith)
              (omega arith) (omega arith) in
          let next : (i + j) / 2 + 1 ≡ length (p ++ sl.result) =
            omega (arith, length-append p sl.result, length-perm sl.same) in
          elim (dec_lt temp_size (length u)) [
            | yes upper_large ↦ upper-fault fuel p xs q i j start end long sl (
                mergesort_fuel-fault fuel (p ++ sl.result) u q ((i + j) / 2 + 1) j next
                  (omega arith) (omega arith) upper_large)
            | no upper_small ↦
                halves-fault fuel p xs q i j start end long sl
                  (mergesort_fuel-Sorted fuel (p ++ sl.result) u q ((i + j) / 2 + 1) j next
                    (omega arith) (omega arith) (omega arith))
                  large
          ]
    ]

-- `mergesort(a, 0, n - 1)` on an array of 1 to 256 entries ends without a fault, and leaves the
-- array in ascending order with the same entries.
pub mergesort_sorts :
    (a : List ℤ)
    → 0 < length a
    → length a ≤ temp_size
    → (b : List ℤ) × (mergesort a 0 (length a - 1) ≡ ok b) × IsAscending b × Perm b a
unfolding mergesort
mergesort_sorts a pos_length small =
    let s =
      mergesort_fuel-Sorted (length a - 1 - 0 + 1) [] a [] 0 (length a - 1) refl (omega arith)
        (omega arith) small in
    (
      s.result,
      ap (λ l. mergesort_fuel (length a - 1 - 0 + 1) l 0 (length a - 1)) (sym (append-nil a))
          ∙ s.returned
          ∙ ap ok (append-nil s.result),
      s.ascending,
      s.same,
    )

-- `mergesort(a, 0, n - 1)` on an array of more than 256 entries writes past the end of `temp`.
pub mergesort_overflow : (a : List ℤ) → temp_size < length a → mergesort a 0 (length a - 1) ≡ fault
unfolding mergesort
mergesort_overflow a large =
    ap (λ l. mergesort_fuel (length a - 1 - 0 + 1) l 0 (length a - 1)) (sym (append-nil a))
    ∙ mergesort_fuel-fault (length a - 1 - 0 + 1) [] a [] 0 (length a - 1) refl (omega arith)
        (omega arith) large
