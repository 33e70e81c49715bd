-- ===== src/MySort/Merging/Steps.antt =====
-- `merge` on two adjacent ranges, by its three loops: what `temp` holds, and the array afterwards.
use advanced_practical_embed.Base.{
  set, ℕ, zero, suc, ◌+◌, ◌≤◌, ◌<◌, ◌≡◌, sym, ap, ◌∙◌, true, false, inl, inr, List, [], ◌∷◌, ◌++◌,
  arith, ℤ, ltb_ℤ, Bool-cases, append-nil, append_assoc, length, length-append, get_elem?, Window,
  lt→ltb, le→ltb, le→leb, lt→leb, some, dec_lt,
}
use advanced_practical_embed.Run.{ok, fault, ◌>>=◌}
use advanced_practical_embed.MySort.{
  store, load, push, merge_while, copy_rest, merge_temp, temp_size,
}

pub push-ok : (temp : List ℤ) (v : ℤ) → length temp < temp_size → push temp v ≡ ok (temp ++ v ∷ [])
unfolding push
push-ok temp v h = rw (lt→ltb _ _ h)

push-fault : (temp : List ℤ) (v : ℤ) → temp_size ≤ length temp → push temp v ≡ fault
unfolding push
push-fault temp v h = rw (le→ltb _ _ h)

pub load-ok : (a : List ℤ) (i : ℕ) (v : ℤ) → get_elem? a i ≡ some v → load a i ≡ ok v
unfolding load
load-ok a i v h = rw h

pub store-ok : (a : List ℤ) (i : ℕ) (v : ℤ) → i < length a → store a i v ≡ ok (set a i v)
unfolding store
store-ok a i v h = rw (lt→ltb i (length a) h)

pub snoc-append : (xs : List ℤ) (x : ℤ) (ys : List ℤ) → (xs ++ x ∷ []) ++ ys ≡ xs ++ x ∷ ys
snoc-append xs x ys = append_assoc xs (x ∷ []) ys

pub Window-shift : (a : List ℤ) (i : ℕ) (xs : List ℤ) → Window a (suc i) xs → Window a (i + 1) xs
Window-shift a i xs w = let e : i + 1 ≡ suc i = omega arith in rw e w

pub copy_rest-end :
    (fuel : ℕ) (a : List ℤ) (i last : ℕ) (temp : List ℤ)
    → last < i
    → copy_rest (suc fuel) a i last temp ≡ ok temp
unfolding copy_rest
copy_rest-end fuel a i last temp h = rw (lt→leb _ _ h)

pub copy_rest-ok :
    (fuel : ℕ) (a : List ℤ) (i last : ℕ) (temp xs : List ℤ)
    → Window a i xs
    → i + length xs ≡ suc last
    → length xs < fuel
    → length temp + length xs ≤ temp_size
    → copy_rest fuel a i last temp ≡ ok (temp ++ xs)
unfolding copy_rest
copy_rest-ok zero a i last temp xs w e f b = absurd (omega arith)
copy_rest-ok (suc fuel) a i last temp [] w e f b =
    copy_rest-end fuel a i last temp (omega arith) ∙ ap ok (sym (append-nil temp))
copy_rest-ok (suc fuel) a i last temp (x ∷ xs) w e f b =
    rw
      (
        le→leb i last (omega arith),
        load-ok a i x w.0,
        push-ok temp x (omega arith),
        copy_rest-ok fuel a (i + 1) last (temp ++ x ∷ []) xs (Window-shift a i xs w.1) (omega arith)
            (omega arith) (omega (arith, length-append temp (x ∷ []))),
      )
      (ap ok (snoc-append temp x xs))

pub copy_rest-fault :
    (fuel : ℕ) (a : List ℤ) (i last : ℕ) (temp xs : List ℤ)
    → Window a i xs
    → i + length xs ≡ suc last
    → length xs < fuel
    → length temp ≤ temp_size
    → temp_size < length temp + length xs
    → copy_rest fuel a i last temp ≡ fault
unfolding copy_rest
copy_rest-fault zero a i last temp xs w e f b o = absurd (omega arith)
copy_rest-fault (suc fuel) a i last temp [] w e f b o = absurd (omega arith)
copy_rest-fault (suc fuel) a i last temp (x ∷ xs) w e f b o =
    elim (dec_lt (length temp) temp_size) [
      | yes room ↦
          let size = length-append temp (x ∷ []) in
          rw (
            le→leb i last (omega arith),
            load-ok a i x w.0,
            push-ok temp x room,
            copy_rest-fault fuel a (i + 1) last (temp ++ x ∷ []) xs (Window-shift a i xs w.1)
                (omega arith) (omega arith) (omega arith) (omega arith),
          )
      | no full ↦
          rw (le→leb i last (omega arith), load-ok a i x w.0, push-fault temp x (omega arith))
    ]

-- `merge_temp` moves on by one round of its first loop, or runs into a full `temp`.
module _ (fuel : ℕ) (a : List ℤ) (i j1 j j2 : ℕ) (temp : List ℤ) where
  pub merge_temp-left :
      (x y : ℤ)
      → i ≤ j1
      → j ≤ j2
      → get_elem? a i ≡ some x
      → get_elem? a j ≡ some y
      → ltb_ℤ x y ≡ true
      → length temp < temp_size
      → merge_temp (suc fuel) a i j1 j j2 temp ≡ merge_temp fuel a (i + 1) j1 j j2 (temp ++ x ∷ [])
  unfolding merge_temp merge_while
  merge_temp-left x y hi hj lx ly lt room =
      rw (
        le→leb i j1 hi,
        le→leb j j2 hj,
        load-ok a i x lx,
        load-ok a j y ly,
        lt,
        push-ok temp x room,
      )

  pub merge_temp-right :
      (x y : ℤ)
      → i ≤ j1
      → j ≤ j2
      → get_elem? a i ≡ some x
      → get_elem? a j ≡ some y
      → ltb_ℤ x y ≡ false
      → length temp < temp_size
      → merge_temp (suc fuel) a i j1 j j2 temp ≡ merge_temp fuel a i j1 (j + 1) j2 (temp ++ y ∷ [])
  unfolding merge_temp merge_while
  merge_temp-right x y hi hj lx ly lt room =
      rw (
        le→leb i j1 hi,
        le→leb j j2 hj,
        load-ok a i x lx,
        load-ok a j y ly,
        lt,
        push-ok temp y room,
      )

  pub merge_temp-full :
      (x y : ℤ)
      → i ≤ j1
      → j ≤ j2
      → get_elem? a i ≡ some x
      → get_elem? a j ≡ some y
      → temp_size ≤ length temp
      → merge_temp (suc fuel) a i j1 j j2 temp ≡ fault
  unfolding merge_temp merge_while
  merge_temp-full x y hi hj lx ly full = elim (Bool-cases (ltb_ℤ x y)) [
    | inl e ↦ rw (
      le→leb i j1 hi,
      le→leb j j2 hj,
      load-ok a i x lx,
      load-ok a j y ly,
      e,
      push-fault temp x full,
    )
    | inr e ↦ rw (
      le→leb i j1 hi,
      le→leb j j2 hj,
      load-ok a i x lx,
      load-ok a j y ly,
      e,
      push-fault temp y full,
    )
  ]

  pub merge_temp-left_empty :
      j1 < i
      → merge_temp (suc fuel) a i j1 j j2 temp
        ≡ (copy_rest (j2 + 2) a i j1 temp >>= λ t. copy_rest (j2 + 2) a j j2 t)
  unfolding merge_temp merge_while
  merge_temp-left_empty h = rw (lt→leb i j1 h)

  pub merge_temp-right_empty :
      i ≤ j1
      → j2 < j
      → merge_temp (suc fuel) a i j1 j j2 temp
        ≡ (copy_rest (j2 + 2) a i j1 temp >>= λ t. copy_rest (j2 + 2) a j j2 t)
  unfolding merge_temp merge_while
  merge_temp-right_empty hi hj = rw (le→leb i j1 hi, lt→leb j j2 hj)
