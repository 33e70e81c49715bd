-- ===== src/SortStrings/Swap.antt =====
-- One comparison of sort_strings.c, and the exchange that may follow.
use advanced_practical_embed.Base.{
  ℕ, suc, ◌+◌, ◌≡◌, refl, sym, arith, some, List, [], ◌∷◌, ◌++◌, append_assoc, get_elem?, set,
  length, length-append, get_elem?-append, set-append,
}
use advanced_practical_embed.Run.{ok}
use advanced_practical_embed.CStrings.{c_string, strcpy_lem}
use advanced_practical_embed.SortStrings.{Rows, copy_to_row, swap}

-- A row of `width` bytes that holds a name.
abbrev pub Holds : ℕ → List ℕ → List ℕ → Type 0
Holds width row name = (c_string row ≡ ok name) × (length row ≡ width)

-- The rows of an array and their names.
abbrev pub Views : ℕ → Rows → List (List ℕ) → Type 0
Views width [] [] = Unit
Views width [] (name ∷ names) = ⊥
Views width (row ∷ rows) [] = ⊥
Views width (row ∷ rows) (name ∷ names) = Holds width row name × Views width rows names

-- An array with row `x` behind `front`, and row `y` behind `x` and `passed`.
abbrev pub split_at : Rows → List ℕ → Rows → List ℕ → Rows → Rows
split_at front x passed y ys = front ++ x ∷ (passed ++ y ∷ ys)

split_at_assoc :
    (front : Rows) (x : List ℕ) (passed : Rows) (y : List ℕ) (ys : Rows)
    → split_at front x passed y ys ≡ (front ++ x ∷ passed) ++ y ∷ ys
split_at_assoc front x passed y ys = sym (append_assoc front (x ∷ passed) (y ∷ ys))

module _ (front passed ys : Rows) (i j : ℕ) (at_i : i ≡ length front)
    (at_j : j ≡ suc i + length passed) where
  at_second : (x : List ℕ) → j ≡ length (front ++ x ∷ passed)
  at_second x = omega (arith, length-append front (x ∷ passed))

  pub first_row : (x y : List ℕ) → get_elem? (split_at front x passed y ys) i ≡ some x
  first_row x y = get_elem?-append front x (passed ++ y ∷ ys) i at_i

  pub second_row : (x y : List ℕ) → get_elem? (split_at front x passed y ys) j ≡ some y
  second_row x y =
      rw (split_at_assoc front x passed y ys)
        (get_elem?-append (front ++ x ∷ passed) y ys j (at_second x))

  set_first :
      (x y v : List ℕ) → set (split_at front x passed y ys) i v ≡ split_at front v passed y ys
  set_first x y v = set-append front x (passed ++ y ∷ ys) i v at_i

  set_second :
      (x y v : List ℕ) → set (split_at front x passed y ys) j v ≡ split_at front x passed v ys
  set_second x y v =
      rw (split_at_assoc front x passed y ys, split_at_assoc front x passed v ys)
        (set-append (front ++ x ∷ passed) y ys j v (at_second x))

  -- The exchange moves both names, through a buffer that has the size of a row.
  pub swap_lem :
      (width : ℕ) (x y a b temp : List ℕ)
      → Holds width x a
      → Holds width y b
      → length temp ≡ width
      → (x' : List ℕ) × (y' : List ℕ) × (temp' : List ℕ) × (swap i j temp
            (split_at front x passed y ys)
          ≡ ok (temp', split_at front y' passed x' ys))
        × Holds width x' a
        × Holds width y' b
        × (length temp' ≡ width)
  unfolding swap copy_to_row
  swap_lem width x y a b temp hx hy ht =
      let (saved, save, saved_a, saved_size) = strcpy_lem temp x a hx.0 (omega (arith, hx.1)) in
      let (y', move, moved_b, moved_size) = strcpy_lem x y b hy.0 (omega (arith, hx.1, hy.1)) in
      let (x', back, back_a, back_size) = strcpy_lem y saved a saved_a (omega (arith, hy.1)) in
      (
        x',
        y',
        saved,
        rw
            (
              first_row x y,
              save,
              second_row x y,
              move,
              set_first x y y',
              second_row y' y,
              back,
              set_second y' y x',
            )
            refl,
        (back_a, omega (arith, hy.1)),
        (moved_b, omega (arith, hx.1)),
        omega arith,
      )
