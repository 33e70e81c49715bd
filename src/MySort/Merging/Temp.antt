-- ===== src/MySort/Merging/Temp.antt =====
-- What the three loops of `merge` that fill `temp` leave in it, and when `temp` overflows.
use advanced_practical_embed.Base.{
  ℕ, zero, suc, ◌+◌, ◌≤◌, ◌<◌, ◌≡◌, ap, ◌∙◌, inl, inr, List, [], ◌∷◌, ◌++◌, arith, ℤ, ltb_ℤ,
  Bool-cases, append-nil, length, length-append, Window, dec_lt,
}
use advanced_practical_embed.Run.{ok, fault}
use advanced_practical_embed.MySort.{merge_temp, temp_size}
use advanced_practical_embed.MySort.Order.{
  interleave, interleave_left, interleave_right, nil-interleave, interleave-nil,
}
use advanced_practical_embed.MySort.Merging.Steps.{
  snoc-append, Window-shift, copy_rest-ok, copy_rest-fault, merge_temp-left, merge_temp-right,
  merge_temp-full, merge_temp-left_empty, merge_temp-right_empty,
}

-- The ranges `i .. j1` and `j .. j2` of the array hold `xs` and `ys`.
pub record Ranges (a : List ℤ) (i j1 j j2 : ℕ) (xs ys : List ℤ) : Type 0 where
  pub left : Window a i xs
  pub right : Window a j ys
  pub left_end : i + length xs ≡ suc j1
  pub right_end : j + length ys ≡ suc j2
  pub ordered : j1 ≤ j2

Ranges-left :
    {a : List ℤ} {i j1 j j2 : ℕ} {x : ℤ} {xs ys : List ℤ}
    → Ranges a i j1 j j2 (x ∷ xs) ys
    → Ranges a (i + 1) j1 j j2 xs ys
Ranges-left {a} {i} {xs} r = record {
  left = Window-shift a i xs r.left.1;
  right = r.right;
  left_end = omega arith;
  right_end = r.right_end;
  ordered = r.ordered;
}

Ranges-right :
    {a : List ℤ} {i j1 j j2 : ℕ} {y : ℤ} {xs ys : List ℤ}
    → Ranges a i j1 j j2 xs (y ∷ ys)
    → Ranges a i j1 (j + 1) j2 xs ys
Ranges-right {a} {j} {ys} r = record {
  left = r.left;
  right = Window-shift a j ys r.right.1;
  left_end = r.left_end;
  right_end = omega arith;
  ordered = r.ordered;
}

pub merge_temp-ok :
    (fuel : ℕ) (a : List ℤ) (i j1 j j2 : ℕ) (temp xs ys : List ℤ)
    → Ranges a i j1 j j2 xs ys
    → length xs + length ys < fuel
    → length temp + length xs + length ys ≤ temp_size
    → merge_temp fuel a i j1 j j2 temp ≡ ok (temp ++ interleave xs ys)
merge_temp-ok zero a i j1 j j2 temp xs ys r f b = absurd (omega arith)
merge_temp-ok (suc fuel) a i j1 j j2 temp [] ys r f b =
    merge_temp-left_empty fuel a i j1 j j2 temp (omega arith)
    ∙ rw
        (
          copy_rest-ok (j2 + 2) a i j1 temp [] tt (omega arith) (omega arith) (omega arith),
          append-nil temp,
          nil-interleave,
        )
        (copy_rest-ok (j2 + 2) a j j2 temp ys r.right r.right_end (omega arith) (omega arith))
merge_temp-ok (suc fuel) a i j1 j j2 temp (x ∷ xs) [] r f b =
    let size = length-append temp (x ∷ xs) in
    merge_temp-right_empty fuel a i j1 j j2 temp (omega arith) (omega arith)
    ∙ rw (
      copy_rest-ok (j2 + 2) a i j1 temp (x ∷ xs) r.left r.left_end (omega arith) (omega arith),
      copy_rest-ok (j2 + 2) a j j2 (temp ++ x ∷ xs) [] tt (omega arith) (omega arith) (omega arith),
      append-nil,
      interleave-nil,
    )
merge_temp-ok (suc fuel) a i j1 j j2 temp (x ∷ xs) (y ∷ ys) r f b = elim (Bool-cases (ltb_ℤ x y)) [
  | inl lt ↦ rw (interleave_left x y xs ys lt) (
      merge_temp-left fuel a i j1 j j2 temp x y (omega arith) (omega arith) r.left.0 r.right.0 lt
        (omega arith)
      ∙ merge_temp-ok fuel a (i + 1) j1 j j2 (temp ++ x ∷ []) xs (y ∷ ys) (Ranges-left r)
          (omega arith) (omega (arith, length-append temp (x ∷ [])))
      ∙ ap ok (snoc-append temp x (interleave xs (y ∷ ys))))
  | inr ge ↦ rw (interleave_right x y xs ys ge) (
      merge_temp-right fuel a i j1 j j2 temp x y (omega arith) (omega arith) r.left.0 r.right.0 ge
        (omega arith)
      ∙ merge_temp-ok fuel a i j1 (j + 1) j2 (temp ++ y ∷ []) (x ∷ xs) ys (Ranges-right r)
          (omega arith) (omega (arith, length-append temp (y ∷ [])))
      ∙ ap ok (snoc-append temp y (interleave (x ∷ xs) ys)))
]

-- More than 256 entries do not fit: some write to `temp` is out of bounds.
pub merge_temp-fault :
    (fuel : ℕ) (a : List ℤ) (i j1 j j2 : ℕ) (temp xs ys : List ℤ)
    → Ranges a i j1 j j2 xs ys
    → length xs + length ys < fuel
    → length temp ≤ temp_size
    → temp_size < length temp + length xs + length ys
    → merge_temp fuel a i j1 j j2 temp ≡ fault
merge_temp-fault zero a i j1 j j2 temp xs ys r f b o = absurd (omega arith)
merge_temp-fault (suc fuel) a i j1 j j2 temp [] ys r f b o =
    merge_temp-left_empty fuel a i j1 j j2 temp (omega arith)
    ∙ rw
        (
          copy_rest-ok (j2 + 2) a i j1 temp [] tt (omega arith) (omega arith) (omega arith),
          append-nil temp,
        )
        (copy_rest-fault (j2 + 2) a j j2 temp ys r.right r.right_end (omega arith) b (omega arith))
merge_temp-fault (suc fuel) a i j1 j j2 temp (x ∷ xs) [] r f b o =
    merge_temp-right_empty fuel a i j1 j j2 temp (omega arith) (omega arith)
    ∙ rw (
        copy_rest-fault (j2 + 2) a i j1 temp (x ∷ xs) r.left r.left_end (omega arith) b
          (omega arith))
merge_temp-fault (suc fuel) a i j1 j j2 temp (x ∷ xs) (y ∷ ys) r f b o =
    elim (dec_lt (length temp) temp_size) [
      | no full ↦
          merge_temp-full fuel a i j1 j j2 temp x y (omega arith) (omega arith) r.left.0 r.right.0
            (omega arith)
      | yes room ↦
          let size = λ (v : ℤ). length-append temp (v ∷ []) in
          elim (Bool-cases (ltb_ℤ x y)) [
            | inl lt ↦
                merge_temp-left fuel a i j1 j j2 temp x y (omega arith) (omega arith) r.left.0
                  r.right.0 lt room
                ∙ merge_temp-fault fuel a (i + 1) j1 j j2 (temp ++ x ∷ []) xs (y ∷ ys)
                    (Ranges-left r) (omega arith) (omega (arith, size x)) (omega (arith, size x))
            | inr ge ↦
                merge_temp-right fuel a i j1 j j2 temp x y (omega arith) (omega arith) r.left.0
                  r.right.0 ge room
                ∙ merge_temp-fault fuel a i j1 (j + 1) j2 (temp ++ y ∷ []) (x ∷ xs) ys
                    (Ranges-right r) (omega arith) (omega (arith, size y)) (omega (arith, size y))
          ]
    ]
