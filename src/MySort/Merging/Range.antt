-- ===== src/MySort/Merging/Range.antt =====
-- `merge` on two adjacent ranges of an array: the array afterwards, and ranges too long for `temp`.
use mathlib.Core.Path.{subst}
use advanced_practical_embed.Base.{
  ℕ, zero, suc, ◌+◌, ◌≤◌, ◌<◌, ◌≡◌, refl, List, [], ◌∷◌, ◌++◌, arith, ℤ, append_assoc, length,
  length-append, get_elem?-append, set-append, Window, lt→ltb, le→leb, lt→leb,
}
use advanced_practical_embed.Run.{ok, fault}
use advanced_practical_embed.MySort.{store, write_back, merge, temp_size}
use advanced_practical_embed.MySort.Order.{interleave, length-interleave}
use advanced_practical_embed.MySort.Merging.Steps.{load-ok, snoc-append}
use advanced_practical_embed.MySort.Merging.Temp.{Ranges, merge_temp-ok, merge_temp-fault}

store-ok :
    (p : List ℤ) (x : ℤ) (q : List ℤ) (i : ℕ) (v : ℤ)
    → i ≡ length p
    → store (p ++ x ∷ q) i v ≡ ok (p ++ v ∷ q)
unfolding store
store-ok p x q i v h = rw (
  lt→ltb i (length (p ++ x ∷ q)) (omega (arith, length-append p (x ∷ q))),
  set-append p x q i v h,
)

write_back-ok :
    (fuel : ℕ) (pre ts : List ℤ) (i j j2 : ℕ) (p old q : List ℤ)
    → i ≡ length p
    → j ≡ length pre
    → length old ≡ length ts
    → i + length ts ≡ suc j2
    → length ts < fuel
    → write_back fuel (pre ++ ts) i j j2 (p ++ (old ++ q)) ≡ ok (p ++ (ts ++ q))
unfolding write_back
write_back-ok zero pre ts i j j2 p old q hi hj same e f = absurd (omega arith)
write_back-ok (suc fuel) pre [] i j j2 p [] q hi hj same e f = rw (lt→leb i j2 (omega arith))
write_back-ok (suc fuel) pre [] i j j2 p (o ∷ old) q hi hj same e f = absurd (omega arith)
write_back-ok (suc fuel) pre (t ∷ ts) i j j2 p [] q hi hj same e f = absurd (omega arith)
write_back-ok (suc fuel) pre (t ∷ ts) i j j2 p (o ∷ old) q hi hj same e f =
    rw
      (
        le→leb i j2 (omega arith),
        load-ok (pre ++ t ∷ ts) j t (get_elem?-append pre t ts j hj),
        store-ok p o (old ++ q) i t hi,
        ← snoc-append pre t ts,
        ← snoc-append p t (old ++ q),
        ← snoc-append p t (ts ++ q),
      )
      (write_back-ok fuel (pre ++ t ∷ []) ts (i + 1) (j + 1) j2 (p ++ t ∷ []) old q
        (omega (arith, length-append p (t ∷ []))) (omega (arith, length-append pre (t ∷ [])))
        (omega arith) (omega arith) (omega arith))

-- A stretch of a list is a window of it.
Window-append : (p xs q : List ℤ) (i : ℕ) → i ≡ length p → Window (p ++ (xs ++ q)) i xs
Window-append p [] q i h = tt
Window-append p (x ∷ xs) q i h = (
  get_elem?-append p x (xs ++ q) i h,
  subst (λ a. Window a (suc i) xs) (snoc-append p x (xs ++ q))
      (Window-append (p ++ x ∷ []) xs q (suc i) (omega (arith, length-append p (x ∷ [])))),
)

-- The array is a prefix, the two ranges, and a rest.
module _ (p xs ys q : List ℤ) (i j1 i2 j2 : ℕ) where
  abbrev pub joined : List ℤ
  joined = p ++ (xs ++ (ys ++ q))

  module _ (start : i ≡ length p) (mid : i + length xs ≡ suc j1) (next : i2 ≡ suc j1)
      (end : i2 + length ys ≡ suc j2) (some_right : 0 < length ys) where
    joined-Ranges : Ranges joined i j1 i2 j2 xs ys
    joined-Ranges = record {
      left = Window-append p xs (ys ++ q) i start;
      right =
          rw (← append_assoc p xs (ys ++ q))
            (Window-append (p ++ xs) ys q i2 (omega (arith, length-append p xs)));
      left_end = mid;
      right_end = end;
      ordered = omega arith;
    }

    pub merge-ok :
        length xs + length ys ≤ temp_size
        → merge joined i j1 i2 j2 ≡ ok (p ++ (interleave xs ys ++ q))
    unfolding merge
    merge-ok small =
        rw
          (
            merge_temp-ok (j2 + 2) joined i j1 i2 j2 [] xs ys joined-Ranges (omega arith)
                (omega arith),
            ← append_assoc xs ys q,
          )
          (write_back-ok (j2 + 2) [] (interleave xs ys) i 0 j2 p (xs ++ ys) q start refl
            (omega (arith, length-append xs ys, length-interleave xs ys))
            (omega (arith, length-interleave xs ys)) (omega (arith, length-interleave xs ys)))

    pub merge-fault : temp_size < length xs + length ys → merge joined i j1 i2 j2 ≡ fault
    unfolding merge
    merge-fault large = rw (
        merge_temp-fault (j2 + 2) joined i j1 i2 j2 [] xs ys joined-Ranges (omega arith)
          (omega arith) (omega arith))
