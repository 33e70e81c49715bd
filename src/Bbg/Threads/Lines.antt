-- ===== src/Bbg/Threads/Lines.antt =====
-- What the log says of the letters, and what holds of it at each place of the first thread.
use mathlib.Core.Path.{subst}
use advanced_practical_embed.Base.{
  ℕ, zero, suc, ◌+◌, ◌≤◌, ◌<◌, ◌≡◌, refl, sym, ap, ◌∙◌, Bool, true, List, [], ◌∷◌, ◌++◌, append-nil,
  append_assoc, none, some, leb, get_elem?, take, length, if◌then◌else◌, arith, inl, inr,
  Bool-cases,
}
use advanced_practical_embed.Bbg.Letters.Counts.{occurrences, Counted}
use advanced_practical_embed.Bbg.Threads.{
  Line, stopped1, completed1, letter, Place1, counting, printing, closing,
}

abbrev pub letter_of : Line → List (ℕ × ℕ)
letter_of (letter k n) = (k, n) ∷ []
letter_of _ = []

-- The letters and counts in the log, in order.
abbrev pub reported : List Line → List (ℕ × ℕ)
reported [] = []
reported (l ∷ log) = letter_of l ++ reported log

abbrev pub completed_of : Line → ℕ
completed_of completed1 = 1
completed_of _ = 0

-- How often the log says that the first thread has completed its work.
abbrev pub completions : List Line → ℕ
completions [] = 0
completions (l ∷ log) = completed_of l + completions log

abbrev pub stopped_of : Line → ℕ
stopped_of stopped1 = 1
stopped_of _ = 0

-- How often the log says that it has left before that.
abbrev pub interruptions : List Line → ℕ
interruptions [] = 0
interruptions (l ∷ log) = stopped_of l + interruptions log

-- The first `n` letters of the alphabet with their numbers of occurrences, without those above 100.
abbrev pub report : List ℕ → ℕ → List (ℕ × ℕ)
report text zero = []
report text (suc n) =
    report text n ++ (if leb (occurrences n text) 100 then (n, occurrences n text) ∷ [] else [])

pub reported-snoc :
    (log : List Line) (l : Line) → reported (log ++ l ∷ []) ≡ reported log ++ letter_of l
reported-snoc [] l = append-nil (letter_of l)
reported-snoc (k ∷ log) l =
    ap (◌++◌ (letter_of k)) (reported-snoc log l)
    ∙ sym (append_assoc (letter_of k) (reported log) (letter_of l))

pub completions-snoc :
    (log : List Line) (l : Line) → completions (log ++ l ∷ []) ≡ completions log + completed_of l
completions-snoc [] l = omega arith
completions-snoc (k ∷ log) l = omega (arith, completions-snoc log l)

pub interruptions-snoc :
    (log : List Line) (l : Line) → interruptions (log ++ l ∷ []) ≡ interruptions log + stopped_of l
interruptions-snoc [] l = omega arith
interruptions-snoc (k ∷ log) l = omega (arith, interruptions-snoc log l)

abbrev pub IsAt : List ℕ → Place1 → ℕ → List ℕ → List (ℕ × ℕ) → ℕ → Type 0
IsAt text counting i counts r d =
    (r ≡ []) × (d ≡ 0) × Counted (take i text) counts × (i ≤ length text)
IsAt text printing i counts r d = (r ≡ report text i) × (d ≡ 0) × Counted text counts × (i ≤ 26)
IsAt text closing i counts r d = (r ≡ report text 26) × (d ≡ 0)
IsAt text Place1.finished i counts r d = (n : ℕ) × (n ≤ 26) × (r ≡ report text n) × (0 < d → n ≡ 26)
IsAt text _ i counts r d = (r ≡ []) × (d ≡ 0)

pub record Kept (text : List ℕ) (told : Bool) (p : Place1) (i : ℕ) (counts : List ℕ)
    (log : List Line) : Type 0 where
  pub at : IsAt text p i counts (reported log) (completions log)
  pub why : 0 < interruptions log → told ≡ true

-- A line that is not about the letters changes nothing.
pub silent :
    (text : List ℕ) (told : Bool) (p : Place1) (i : ℕ) (counts : List ℕ) (log : List Line)
    (l : Line)
    → letter_of l ≡ []
    → completed_of l ≡ 0
    → stopped_of l ≡ 0
    → Kept text told p i counts log
    → Kept text told p i counts (log ++ l ∷ [])
silent text told p i counts log l a b c k = record {
  at =
      subst (λ r. IsAt text p i counts r (completions (log ++ l ∷ [])))
        (sym (reported-snoc log l ∙ ap (◌++◌ (reported log)) a ∙ append-nil (reported log)))
        (subst (λ d. IsAt text p i counts (reported log) d) (omega (arith, completions-snoc log l))
          k.at);
  why = λ h. k.why (omega (arith, interruptions-snoc log l));
}

pub take_end : (text : List ℕ) (i : ℕ) → get_elem? text i ≡ none → take i text ≡ text
take_end [] zero h = refl
take_end [] (suc i) h = refl
take_end (c ∷ text) zero h = cc
take_end (c ∷ text) (suc i) h = ap (◌∷◌ c) (take_end text i h)

pub take_next :
    (text : List ℕ) (i : ℕ) {c : ℕ}
    → get_elem? text i ≡ some c
    → (take (suc i) text ≡ take i text ++ c ∷ []) × (i < length text)
take_next [] i h = cc
take_next (d ∷ text) zero h = (ground arith, omega arith)
take_next (d ∷ text) (suc i) h =
    let (split, small) = take_next text i h in (ap (◌∷◌ d) split, omega arith)

module _ (text : List ℕ) (told : Bool) (i : ℕ) (counts : List ℕ) (log : List Line) where
  -- the early exit after `n` letters
  pub interrupted :
      (n : ℕ)
      → n ≤ 26
      → reported log ≡ report text n
      → completions log ≡ 0
      → told ≡ true
      → Kept text told Place1.finished i counts (log ++ stopped1 ∷ [])
  interrupted n small r d t = record {
    at = (
      n,
      small,
      reported-snoc log stopped1 ∙ append-nil (reported log) ∙ r,
      λ h. absurd (omega (arith, completions-snoc log stopped1)),
    );
    why = λ h. t;
  }

  -- one letter more
  pub print_letter :
      (n : ℕ)
      → get_elem? counts i ≡ some n
      → i < 26
      → Kept text told printing i counts log
      → Kept text told printing (suc i) counts (if leb n 100 then log ++ letter i n ∷ [] else log)
  print_letter n e small k =
      let (r, d, counted, _) = k.at in
      let same : n ≡ occurrences i text = cc (counted.entries i small) in
      elim (Bool-cases (leb (occurrences i text) 100)) [
        | inl few ↦
            rw (same, few)
              (record {
                at = (
                  reported-snoc log (letter i (occurrences i text))
                      ∙ ap (λ x. x ++ (i, occurrences i text) ∷ []) r
                      ∙ rw few,
                  omega (arith, completions-snoc log (letter i (occurrences i text))),
                  counted,
                  omega arith,
                );
                why = λ h.
                    k.why (omega (arith, interruptions-snoc log (letter i (occurrences i text))));
              })
        | inr many ↦
            rw (same, many)
              (record {
                at = (r ∙ sym (append-nil (report text i)) ∙ rw many, d, counted, omega arith);
                why = k.why;
              })
      ]
