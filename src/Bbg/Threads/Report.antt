-- ===== src/Bbg/Threads/Report.antt =====
-- What the first thread reports of the letters.
use mathlib.Core.Path.{subst}
use advanced_practical_embed.Base.{
  After, After-if, After-option, ℕ, suc, ◌≤◌, ◌<◌, ◌≡◌, refl, sym, ap, ◌∙◌, Bool, true, List, [],
  ◌∷◌, ◌++◌, append-nil, ltb, leb, get_elem?, take, if◌then◌else◌, arith, ltb→lt, ltb→le,
}
use advanced_practical_embed.Bbg.Letters.{count_char}
use advanced_practical_embed.Bbg.Letters.Counts.{Counted, zeros-Counted, count_char-Counted}
use advanced_practical_embed.Bbg.Cpu.{sample}
use advanced_practical_embed.Bbg.Threads.{
  main_entering, main_exiting, entering1, processed, completed1, entering2, stopped2, letter, cpu,
  Place1, Place2, MainPlace, boot, create1, create2, join1, join2, leave, ended, counting, printing,
  closing, looping, clearing, sampling, resetting, State, child1_step, child2_step, main_step,
  Reach, begin, by_main, by_child1, by_child2, usr1, usr2,
}
use advanced_practical_embed.Bbg.Threads.Order.{
  Told, Staged1, Staged1-unborn, joined1, joined2, Reach-InOrder,
}
use advanced_practical_embed.Bbg.Threads.Lines.{
  reported, completions, interruptions, report, reported-snoc, interruptions-snoc, IsAt, Kept,
  silent, take_end, take_next, interrupted, print_letter,
}

module _ (text : List ℕ) (stat : ℕ → List ℕ) (told : Bool) where
  abbrev KeptIn : State → Type 0
  KeptIn s = Kept text told s.place1 s.i s.counts s.log

  child1-Kept :
      (p : Place1) (s : State)
      → s.place1 ≡ p
      → (s.flag2 ≡ true → told ≡ true)
      → Kept text told p s.i s.counts s.log
      → After KeptIn (child1_step text stat p s)
  unfolding child1_step
  child1-Kept Place1.unborn s at t k = tt
  child1-Kept Place1.finished s at t k = tt
  child1-Kept Place1.entry s at t k =
      let k' = silent text told Place1.entry s.i s.counts s.log entering1 refl refl refl k in
      record { at = (k'.at.0, k'.at.1, zeros-Counted, omega arith); why = k'.why }
  child1-Kept counting s at t k =
      let (r, d, counted, small) = k.at in
      After-option KeptIn (get_elem? text s.i) _ _
        (λ e.
          let k' = silent text told counting s.i s.counts s.log processed refl refl refl k in
          record {
            at = (
              k'.at.0,
              k'.at.1,
              subst (λ x. Counted x s.counts) (take_end text s.i e) counted,
              omega arith,
            );
            why = k'.why;
          })
        (λ c e.
          let (split, within) = take_next text s.i e in
          let (next, run, counted') = count_char-Counted (take s.i text) c s.counts counted in
          After-if KeptIn s.flag2 _ _
            (λ f. interrupted text told s.i s.counts s.log 0 (omega arith) r d (t f))
            (λ f.
              After-option KeptIn (count_char c s.counts) _ _ (λ e'. absurd (cc (sym e' ∙ run)))
                (λ b e'.
                  subst (λ q. Kept text told q (suc s.i) b s.log) (sym at)
                    (record {
                      at = (
                        r,
                        d,
                        (let same : next ≡ b = cc (sym run ∙ e') in rw (split, ← same) counted'),
                        omega arith,
                      );
                      why = k.why;
                    }))))
  child1-Kept printing s at t k =
      let (r, d, counted, small) = k.at in
      After-if KeptIn (ltb s.i 26) _ _
        (λ e.
          After-if KeptIn s.flag2 _ _
            (λ f. interrupted text told s.i s.counts s.log s.i small r d (t f))
            (λ f.
              After-option KeptIn (get_elem? s.counts s.i) _ _
                (λ e'. absurd (cc (counted.entries s.i (ltb→lt s.i 26 e))))
                (λ n e'.
                  subst
                    (λ q.
                      Kept text told q (suc s.i) s.counts
                        (if leb n 100 then s.log ++ letter s.i n ∷ [] else s.log))
                    (sym at) (print_letter text told s.i s.counts s.log n e' (ltb→lt s.i 26 e) k))))
        (λ e.
          let last : s.i ≡ 26 = omega (arith, ltb→le s.i 26 e) in
          record { at = (r ∙ ap (report text) last, d); why = k.why })
  child1-Kept closing s at t k = record {
    at = (
      26,
      omega arith,
      reported-snoc s.log completed1 ∙ append-nil (reported s.log) ∙ k.at.0,
      λ h. refl,
    );
    why = λ h. k.why (omega (arith, interruptions-snoc s.log completed1));
  }

  child2-Kept : (p : Place2) (s : State) → KeptIn s → After KeptIn (child2_step text stat p s)
  unfolding child2_step
  child2-Kept Place2.unborn s k = tt
  child2-Kept Place2.finished s k = tt
  child2-Kept Place2.entry s k =
      silent text told s.place1 s.i s.counts s.log entering2 refl refl refl k
  child2-Kept looping s k =
      After-if KeptIn s.flag2 _ _
        (λ e. silent text told s.place1 s.i s.counts s.log stopped2 refl refl refl k)
        (λ e. After-if KeptIn s.flag _ _ (λ e. k) (λ e. tt))
  child2-Kept clearing s k = k
  child2-Kept sampling s k =
      After-option KeptIn (sample (stat s.samples)) _ _ (λ e. k)
        (λ (usage, time) e.
          silent text told s.place1 s.i s.counts s.log (cpu usage time) refl refl refl k)
  child2-Kept resetting s k = k

  main-Kept :
      (m : MainPlace) (s : State)
      → (m ≡ create1 → s.place1 ≡ Place1.unborn)
      → KeptIn s
      → After KeptIn (main_step text stat m s)
  unfolding main_step
  main-Kept boot s u k = silent text told s.place1 s.i s.counts s.log main_entering refl refl refl k
  main-Kept create1 s u k =
      let k' = subst (λ p. Kept text told p s.i s.counts s.log) (u refl) k in
      record { at = k'.at; why = k'.why }
  main-Kept create2 s u k = k
  main-Kept join1 s u k = joined1 KeptIn s.place1 (record s { main = join2 }) (λ e. k)
  main-Kept join2 s u k = joined2 KeptIn s.place2 (record s { main = leave }) (λ e. k)
  main-Kept leave s u k = silent text told s.place1 s.i s.counts s.log main_exiting refl refl refl k
  main-Kept ended s u k = tt

module _ (text : List ℕ) (stat : ℕ → List ℕ) where
  heard_told : (told flag2 : Bool) (p : Place2) → Told p told flag2 → flag2 ≡ true → told ≡ true
  heard_told told flag2 clearing t h = t.0
  heard_told told flag2 Place2.finished t h = t
  heard_told told flag2 Place2.unborn t h = sym t ∙ h
  heard_told told flag2 _ t h = sym t ∙ h

  Reach-Kept :
      {told : Bool} {s : State}
      → Reach text stat told s
      → Kept text told s.place1 s.i s.counts s.log
  Reach-Kept begin = record { at = (refl, refl); why = λ h. absurd (omega arith) }
  Reach-Kept (by_main {told} {s} r ok e) =
      let o = Reach-InOrder text stat r in
      subst (After (KeptIn text stat told)) e (
        main-Kept text stat told s.main s
          (λ m. Staged1-unborn s.place1 (subst (Staged1 s.place1) m o.staged1)) (Reach-Kept r))
  Reach-Kept (by_child1 {told} {s} r ok e) =
      let o = Reach-InOrder text stat r in
      subst (After (KeptIn text stat told)) e (
        child1-Kept text stat told s.place1 s refl (heard_told told s.flag2 s.place2 o.heard)
          (Reach-Kept r))
  Reach-Kept (by_child2 {told} {s} r ok e) =
      subst (After (KeptIn text stat told)) e (child2-Kept text stat told s.place2 s (Reach-Kept r))
  Reach-Kept (usr1 r h) = Reach-Kept r
  Reach-Kept (usr2 r h) = let k = Reach-Kept r in record { at = k.at; why = λ h. refl }

  -- In any interleaving of the threads and the signals, the letters and numbers in the log are those of
  -- the first letters of the alphabet, in order, with how often the text has them in either case,
  -- without those above 100; if the log says that the work is completed, all 26 letters are covered;
  -- and if it says that the work was left early, USR2 has come.
  pub child1_report :
      (told : Bool) (s : State)
      → Reach text stat told s
      → ((n : ℕ) × (n ≤ 26) × (reported s.log ≡ report text n) × (0 < completions s.log → n ≡ 26))
        × (0 < interruptions s.log → told ≡ true)
  child1_report told s r =
      let k = Reach-Kept r in
      (so_far s.place1 s.i s.counts (reported s.log) (completions s.log) k.at, k.why)
    where
      so_far :
          (p : Place1) (i : ℕ) (counts : List ℕ) (r : List (ℕ × ℕ)) (d : ℕ)
          → IsAt text p i counts r d
          → (n : ℕ) × (n ≤ 26) × (r ≡ report text n) × (0 < d → n ≡ 26)
      so_far counting i counts r d at = (0, omega arith, at.0, λ h. absurd (omega (arith, at.1)))
      so_far printing i counts r d at = (i, at.3, at.0, λ h. absurd (omega (arith, at.1)))
      so_far closing i counts r d at = (26, omega arith, at.0, λ h. refl)
      so_far Place1.finished i counts r d at = at
      so_far Place1.unborn i counts r d at =
          (0, omega arith, at.0, λ h. absurd (omega (arith, at.1)))
      so_far Place1.entry i counts r d at =
          (0, omega arith, at.0, λ h. absurd (omega (arith, at.1)))
