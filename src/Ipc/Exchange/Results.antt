-- ===== src/Ipc/Exchange/Results.antt =====
-- What the log holds, for a program whose writes deliver its messages.
use advanced_practical_embed.Base.{
  ℕ, zero, suc, ◌≤◌, ◌<◌, ◌≡◌, refl, sym, ap, ◌∙◌, inl, inr, false, List, [], ◌∷◌, ◌++◌, none, some,
  arith, length, take, get_elem?,
}
use advanced_practical_embed.Ipc.Packets.{Packet, one, two, heard}
use advanced_practical_embed.Ipc.Messages.{thread2_messages, nth, first}
use advanced_practical_embed.Ipc.Transport.{Transport}
use advanced_practical_embed.Ipc.Exchange.{
  Pc, sending, report, finished, ended, Mover, Protocol, System, start, Reach, move,
}
use advanced_practical_embed.Ipc.Exchange.Links.{Delivers}
use advanced_practical_embed.Ipc.Exchange.Stages.{Range1, Range2, heard1, heard2, misuses}
use advanced_practical_embed.Ipc.Exchange.Ends.{Reach-Kept}
use advanced_practical_embed.Ipc.Exchange.Measure.{Turns, stuck-IsComplete}

pub get_elem?-prefix {ℓ} :
    {A : Type ℓ} (xs ys : List A) (r : ℕ) → r < length xs → get_elem? (xs ++ ys) r ≡ get_elem? xs r
get_elem?-prefix [] ys r h = absurd (omega arith)
get_elem?-prefix (x ∷ xs) ys zero h = refl
get_elem?-prefix (x ∷ xs) ys (suc r) h = get_elem?-prefix xs ys r (omega arith)

take-suc {ℓ} :
    {A : Type ℓ} (n : ℕ) (xs : List A) (x : A)
    → get_elem? xs n ≡ some x
    → take (suc n) xs ≡ take n xs ++ x ∷ []
take-suc n [] x h = cc
take-suc zero (y ∷ xs) x h = cc
take-suc (suc n) (y ∷ xs) x h = ap (◌∷◌ y) (take-suc n xs x h)

take-all {ℓ} : {A : Type ℓ} (xs : List A) (n : ℕ) → length xs ≤ n → take n xs ≡ xs
take-all [] zero h = refl
take-all [] (suc n) h = refl
take-all (x ∷ xs) zero h = absurd (omega arith)
take-all (x ∷ xs) (suc n) h = ap (◌∷◌ x) (take-all xs n (omega arith))

get_elem?-nth :
    (l : List Packet) (beyond : ℕ → Packet) (n : ℕ)
    → n < length l
    → get_elem? l n ≡ some (nth l beyond n)
unfolding nth
get_elem?-nth [] beyond n h = absurd (omega arith)
get_elem?-nth (p ∷ l) beyond zero h = refl
get_elem?-nth (p ∷ l) beyond (suc n) h = get_elem?-nth l beyond n (omega arith)

-- Up to its length an array is what stands in the source.
pub first-nth :
    (l : List Packet) (beyond : ℕ → Packet) (n : ℕ)
    → n ≤ length l
    → first (nth l beyond) n ≡ take n l
unfolding first
first-nth l beyond zero h = refl
first-nth l beyond (suc n) h =
    ap (λ xs. xs ++ nth l beyond n ∷ []) (first-nth l beyond n (omega arith))
    ∙ sym (take-suc n l (nth l beyond n) (get_elem?-nth l beyond n h))

heard1-le : (pc : Pc) (i : ℕ) → Range1 pc i → heard1 pc i ≤ 10
heard1-le report zero r = omega arith
heard1-le report (suc i) r = omega arith
heard1-le _ i r = omega arith

heard2-le : (pc : Pc) (i : ℕ) → Range2 pc i → heard2 pc i ≤ 10
heard2-le sending i r = omega arith
heard2-le _ i r = omega arith

-- Thread 1's array `a1` is a parameter, since sockets.c fills it differently.
module _ (T : Transport) (P : Protocol) (a1 : List Packet) (ten : length a1 ≡ 10)
    (beyond1 beyond2 : ℕ → Packet) (ways1 : Delivers T.capacity P.payload1 (nth a1 beyond1))
    (ways2 : Delivers T.capacity P.payload2 (nth thread2_messages beyond2)) where
  -- Both threads have logged a beginning of the other's messages.
  abbrev pub InOrder : System T → Type 0
  InOrder s =
      (n1 : ℕ) × (n2 : ℕ) × (heard one s.log ≡ take n1 thread2_messages)
      × (heard two s.log ≡ take n2 a1)

  pub Reach-InOrder :
      {junk1 junk2 : Packet} {s : System T} → Reach T P junk1 junk2 s → s.flag ≡ false → InOrder s
  unfolding thread2_messages
  Reach-InOrder {s} r quiet = elim (Reach-Kept T P _ _ ways1 ways2 r quiet) [
    | inl g ↦ (
      heard1 s.th1.pc s.th1.i,
      heard2 s.th2.pc s.th2.i,
      g.logged.logged1 ∙ first-nth thread2_messages beyond2 _ (heard1-le _ _ g.range1),
      g.logged.logged2 ∙ first-nth a1 beyond1 _ (omega (arith, ten, heard2-le _ _ g.range2)),
    )
    | inr c ↦ (
      10,
      10,
      c.all_logged.logged1 ∙ first-nth thread2_messages beyond2 10 (omega arith),
      c.all_logged.logged2 ∙ first-nth a1 beyond1 10 (omega (arith, ten)),
    )
  ]

  -- Where no thread can move, `main` has ended and all ten messages of each side are logged; and
  -- whether a stream was misused depends on the program alone.
  pub Turns-complete :
      {n : ℕ} (junk1 junk2 : Packet) {t : System T}
      → Turns T P n (start T P junk1 junk2) t
      → ((m : Mover) → move T P m t ≡ none)
      → (t.main ≡ ended)
        × (heard one t.log ≡ thread2_messages)
        × (heard two t.log ≡ a1)
        × (t.misused ≡ misuses P finished)
  unfolding thread2_messages
  Turns-complete junk1 junk2 {t} r stuck =
      let c = stuck-IsComplete T P _ _ ways1 ways2 junk1 junk2 r stuck in
      (
        c.ended_main,
        c.all_logged.logged1 ∙ first-nth thread2_messages beyond2 10 (omega arith),
        c.all_logged.logged2
            ∙ first-nth a1 beyond1 10 (omega (arith, ten))
            ∙ take-all a1 10 (omega (arith, ten)),
        c.used,
      )
