-- ===== src/SortStrings/Loops.antt =====
-- The loops of sort_strings.c on an array of bytes do what the sort of Animals does on a list of names.
use Prim.Native.Nat.{gt}
use advanced_practical_embed.Base.{
  ℕ, zero, suc, ◌+◌, ◌≡◌, ◌≢◌, inl, inr, refl, ap, sym, ◌∙◌, arith, some, List, [], ◌∷◌, ◌++◌,
  append_assoc, get_elem?, length, length-append, get_elem?-append, Perm, length-perm,
}
use advanced_practical_embed.Run.{ok}
use advanced_practical_embed.CStrings.{c_string}
use advanced_practical_embed.Animals.{strcmp, exchange, sort_names}
use advanced_practical_embed.Animals.Names.{
  IsSorted, Ordering-cases, exchange-after, exchange-before, sort_names-IsSorted,
}
use advanced_practical_embed.SortStrings.{
  Rows, swap, compare_rows, inner_loop, outer_loop, print_names, sort_strings_main,
}
use advanced_practical_embed.SortStrings.Swap.{Holds, Views, first_row, second_row, swap_lem}

length-Views :
    (width : ℕ) (rows : Rows) (names : List (List ℕ))
    → Views width rows names
    → length rows ≡ length names
length-Views width [] [] v = refl
length-Views width [] (name ∷ names) v = absurd v
length-Views width (row ∷ rows) [] v = absurd v
length-Views width (row ∷ rows) (name ∷ names) (h, v) = ap suc (length-Views width rows names v)

length-exchange : (a : List ℕ) (names : List (List ℕ)) → length (exchange a names).1 ≡ length names
unfolding exchange
length-exchange a [] = refl
length-exchange a (b ∷ names) = elim (Ordering-cases (strcmp a b)) [
  | inl after ↦ rw (exchange-after a b names after) (ap suc (length-exchange b names))
  | inr before ↦ rw (exchange-before a b names before) (ap suc (length-exchange a names))
]

module _ (width : ℕ) where
  -- What a loop on `j` over the rows `ys` has to leave, behind `front` and the row `i`.
  abbrev Exchanged : ℕ → ℕ → Rows → List ℕ → Rows → Rows → List ℕ → List ℕ → List (List ℕ) → Type 0
  Exchanged i j front x passed ys temp a names =
      (x' : List ℕ) × (ys' : Rows) × (temp' : List ℕ) × (inner_loop (length ys) i j temp
          (front ++ x ∷ (passed ++ ys))
        ≡ ok (temp', front ++ x' ∷ (passed ++ ys')))
      × Holds width x' (exchange a names).0
      × Views width ys' (exchange a names).1
      × (length temp' ≡ width)

  compare_after :
      (i j : ℕ) (x y a b temp : List ℕ) (rows : Rows)
      → get_elem? rows i ≡ some x
      → get_elem? rows j ≡ some y
      → c_string x ≡ ok a
      → c_string y ≡ ok b
      → strcmp a b ≡ gt
      → compare_rows i j temp rows ≡ swap i j temp rows
  unfolding compare_rows
  compare_after i j x y a b temp rows at_i at_j ha hb after = rw (at_i, at_j, ha, hb) (ground arith)

  compare_before :
      (i j : ℕ) (x y a b temp : List ℕ) (rows : Rows)
      → get_elem? rows i ≡ some x
      → get_elem? rows j ≡ some y
      → c_string x ≡ ok a
      → c_string y ≡ ok b
      → strcmp a b ≢ gt
      → compare_rows i j temp rows ≡ ok (temp, rows)
  unfolding compare_rows
  compare_before i j x y a b temp rows at_i at_j ha hb before =
      rw (at_i, at_j, ha, hb) (ground arith)

  -- One more row, behind those that the loop has passed.
  pass_row :
      (front : Rows) (x : List ℕ) (passed : Rows) (y : List ℕ) (ys : Rows)
      → front ++ x ∷ ((passed ++ y ∷ []) ++ ys) ≡ front ++ x ∷ (passed ++ y ∷ ys)
  pass_row front x passed y ys = ap (λ rows. front ++ x ∷ rows) (append_assoc passed (y ∷ []) ys)

  inner_lem :
      (ys : Rows) (names : List (List ℕ)) (front passed : Rows) (x a temp : List ℕ) (i j : ℕ)
      → i ≡ length front
      → j ≡ suc i + length passed
      → Holds width x a
      → Views width ys names
      → length temp ≡ width
      → Exchanged i j front x passed ys temp a names
  unfolding inner_loop exchange
  inner_lem [] [] front passed x a temp i j at_i at_j hx v ht = (x, [], temp, refl, hx, tt, ht)
  inner_lem [] (b ∷ names) front passed x a temp i j at_i at_j hx v ht = absurd v
  inner_lem (y ∷ ys) [] front passed x a temp i j at_i at_j hx v ht = absurd v
  inner_lem (y ∷ ys) (b ∷ names) front passed x a temp i j at_i at_j hx (hy, v) ht =
      let ex = first_row front passed ys i j at_i at_j x y in
      let ey = second_row front passed ys i j at_i at_j x y in
      let next : (z : List ℕ) → suc j ≡ suc i + length (passed ++ z ∷ []) =
        λ z. omega (arith, length-append passed (z ∷ [])) in
      elim (Ordering-cases (strcmp a b)) [
        | inl after ↦
            let (x', y', temp', swapped, hx', hy', ht') =
              swap_lem front passed ys i j at_i at_j width x y a b temp hx hy ht in
            let (least, rest, last, e, hl, hr, size) =
              inner_lem ys names front (passed ++ x' ∷ []) y' b temp' i (suc j) at_i (next x') hy' v
                ht' in
            (
              least,
              x' ∷ rest,
              last,
              rw (compare_after i j x y a b temp _ ex ey hx.0 hy.0 after, swapped)
                  (ap (inner_loop (length ys) i (suc j) temp')
                      (sym (pass_row front y' passed x' ys))
                    ∙ e
                    ∙ ap (λ rows. ok (last, rows)) (pass_row front least passed x' rest)),
              rw (exchange-after a b names after) hl,
              rw (exchange-after a b names after) (hx', hr),
              size,
            )
        | inr before ↦
            let (least, rest, last, e, hl, hr, size) =
              inner_lem ys names front (passed ++ y ∷ []) x a temp i (suc j) at_i (next y) hx v
                ht in
            (
              least,
              y ∷ rest,
              last,
              rw (compare_before i j x y a b temp _ ex ey hx.0 hy.0 before) (
                  ap (inner_loop (length ys) i (suc j) temp) (sym (pass_row front x passed y ys))
                  ∙ e
                  ∙ ap (λ rows. ok (last, rows)) (pass_row front least passed y rest)),
              rw (exchange-before a b names before) hl,
              rw (exchange-before a b names before) (hy, hr),
              size,
            )
      ]

  outer_lem :
      (n : ℕ) (rows : Rows) (names : List (List ℕ)) (front : Rows) (temp : List ℕ) (i : ℕ)
      → length rows ≡ n
      → i ≡ length front
      → Views width rows names
      → length temp ≡ width
      → (sorted : Rows) × (outer_loop n i temp (front ++ rows) ≡ ok (front ++ sorted))
        × Views width sorted (sort_names n names)
  unfolding outer_loop sort_names
  outer_lem zero [] [] front temp i size at_i v ht = ([], refl, tt)
  outer_lem zero [] (a ∷ names) front temp i size at_i v ht = absurd v
  outer_lem zero (x ∷ rows) names front temp i size at_i v ht = absurd (omega arith)
  outer_lem (suc n) [] names front temp i size at_i v ht = absurd (omega arith)
  outer_lem (suc n) (x ∷ rows) [] front temp i size at_i v ht = absurd v
  outer_lem (suc n) (x ∷ rows) (a ∷ names) front temp i size at_i (hx, v) ht =
      let (x', rest, temp', e, hx', v', ht') =
        inner_lem rows names front [] x a temp i (suc i) at_i (omega arith) hx v ht in
      let same : length rows ≡ n = omega arith in
      let (sorted, e', hs) =
        outer_lem n rest (exchange a names).1 (front ++ x' ∷ []) temp' (suc i)
          (omega (
            arith,
            length-Views width rest _ v',
            length-exchange a names,
            length-Views width rows names v,
          ))
          (omega (arith, length-append front (x' ∷ []))) v' ht' in
      let first : inner_loop n i (suc i) temp (front ++ x ∷ rows) ≡ ok (temp', front ++ x' ∷ rest) =
        rw same at e in
      let others : outer_loop n (suc i) temp' (front ++ x' ∷ rest) ≡ ok (front ++ x' ∷ sorted) =
        ap (outer_loop n (suc i) temp') (sym (append_assoc front (x' ∷ []) rest))
        ∙ e'
        ∙ ap ok (append_assoc front (x' ∷ []) sorted) in
      (x' ∷ sorted, rw first others, (hx', hs))

  print_lem :
      (n : ℕ) (rows : Rows) (names : List (List ℕ)) (front : Rows) (i : ℕ)
      → length rows ≡ n
      → i ≡ length front
      → Views width rows names
      → print_names n i (front ++ rows) ≡ ok names
  unfolding print_names
  print_lem zero [] [] front i size at_i v = refl
  print_lem zero [] (a ∷ names) front i size at_i v = absurd v
  print_lem zero (x ∷ rows) names front i size at_i v = absurd (omega arith)
  print_lem (suc n) [] names front i size at_i v = absurd (omega arith)
  print_lem (suc n) (x ∷ rows) [] front i size at_i v = absurd v
  print_lem (suc n) (x ∷ rows) (a ∷ names) front i size at_i (hx, v) =
      let rest =
        print_lem n rows names (front ++ x ∷ []) (suc i) (omega arith)
          (omega (arith, length-append front (x ∷ []))) v in
      rw (get_elem?-append front x rows i at_i, hx.0, ← append_assoc front (x ∷ []) rows, rest) refl

-- On any five names in rows of ten bytes, whatever stands behind their NULs, and with a buffer of ten
-- bytes, the program makes no access outside of the array, a row or the buffer; it prints the names as
-- they were and then the same names in the order of `strcmp`: byte by byte and in place, it implements
-- the sort of lists.
pub sort_strings_main-refines :
    (temp : List ℕ) (rows : Rows) (names : List (List ℕ))
    → length rows ≡ 5
    → length temp ≡ 10
    → Views 10 rows names
    → (sort_strings_main temp rows ≡ ok (names, sort_names (length names) names))
      × IsSorted (sort_names (length names) names)
      × Perm (sort_names (length names) names) names
unfolding sort_strings_main
sort_strings_main-refines temp rows names size ht v =
    let count : length names ≡ 5 = omega (arith, length-Views 10 rows names v) in
    let (in_order, same) = sort_names-IsSorted names in
    let (sorted, e, hs) = outer_lem 10 5 rows names [] temp 0 size refl v ht in
    let view : Views 10 sorted (sort_names (length names) names) = rw count hs in
    let size' : length sorted ≡ 5 =
      omega (arith, length-Views 10 sorted _ view, length-perm same) in
    (
      rw
          (
            print_lem 10 5 rows names [] 0 size refl v,
            e,
            print_lem 10 5 sorted _ [] 0 size' refl view,
          )
          refl,
      in_order,
      same,
    )
