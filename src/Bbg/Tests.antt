-- ===== src/Bbg/Tests.antt =====
-- The threads on a short text, by evaluation.
use advanced_practical_embed.Base.{
  ℕ, zero, suc, ◌≤◌, ◌<◌, ◌≡◌, ◌≢◌, refl, Bool, true, false, List, [], ◌∷◌, ◌++◌, arith, none, some,
  inl, inr, Bool-cases, Option-cases,
}
use advanced_practical_embed.Bbg.Cpu.{
  sample, utilization, fgets, tokens, read_fields, atoi, as_int, leading_number,
}
use advanced_practical_embed.Bbg.Cpu.Digits.{show}
use advanced_practical_embed.Bbg.Cpu.Fields.{print_line, sample_roundtrip}
use advanced_practical_embed.Bbg.Letters.{count_char, position, bump}
use advanced_practical_embed.Bbg.Threads.{
  State, boot, ended, main_step, child1_step, child2_step, Reach, begin, by_main, by_child1,
  by_child2, usr2,
}
use advanced_practical_embed.Bbg.Threads.Lines.{reported, report, completions, interruptions}
use advanced_practical_embed.Bbg.Threads.Report.{child1_report}
use advanced_practical_embed.Bbg.Threads.Ends.{usr2_needed, usr2_ends}

-- "Ab a!"
abbrev text : List ℕ
text = 65 ∷ 98 ∷ 32 ∷ 97 ∷ 33 ∷ []

abbrev stat : ℕ → List ℕ
stat n = []

record Course (told : Bool) : Type 0 where
  last : State
  reach : Reach text stat told last

module _ {told : Bool} where
  main_goes : Course told → Course told
  main_goes c = elim (Bool-cases c.last.crashed) [
    | inl _ ↦ c
    | inr ok ↦ elim (Option-cases (main_step text stat c.last.main c.last)) [
      | inl _ ↦ c
      | inr (s, e) ↦ record { last = s; reach = by_main c.reach ok e }
    ]
  ]

  child1_goes : Course told → Course told
  child1_goes c = elim (Bool-cases c.last.crashed) [
    | inl _ ↦ c
    | inr ok ↦ elim (Option-cases (child1_step text stat c.last.place1 c.last)) [
      | inl _ ↦ c
      | inr (s, e) ↦ record { last = s; reach = by_child1 c.reach ok e }
    ]
  ]

  child2_goes : Course told → Course told
  child2_goes c = elim (Bool-cases c.last.crashed) [
    | inl _ ↦ c
    | inr ok ↦ elim (Option-cases (child2_step text stat c.last.place2 c.last)) [
      | inl _ ↦ c
      | inr (s, e) ↦ record { last = s; reach = by_child2 c.reach ok e }
    ]
  ]

  rounds : ℕ → Course told → Course told
  rounds zero c = c
  rounds (suc n) c = rounds n (main_goes (child2_goes (child1_goes c)))

unfoldable quiet : ℕ → Course false
unfolding main_goes child1_goes child2_goes rounds Bool-cases Option-cases
quiet n = rounds n (record { last = _; reach = begin })

-- All but the second thread have nothing to do any more.
abbrev waiting : Course false
waiting = quiet 45

waits_on : waiting.last.main ≢ boot
unfolding quiet main_step child1_step child2_step count_char position bump
waits_on e = cc

unfoldable done_course : Course true
unfolding main_goes child1_goes child2_goes rounds Bool-cases Option-cases
done_course = rounds 6 (record { last = _; reach = usr2 waiting.reach waits_on })

child1_report_example :
    ((n : ℕ) × (n ≤ 26)
      × (reported waiting.last.log ≡ report text n)
      × (0 < completions waiting.last.log → n ≡ 26))
    × (0 < interruptions waiting.last.log → false ≡ true)
child1_report_example = child1_report text stat false waiting.last waiting.reach

completed : completions waiting.last.log ≡ 1
unfolding quiet main_step child1_step child2_step count_char position bump
completed = refl

usr2_needed_example : waiting.last.main ≢ ended
usr2_needed_example = usr2_needed text stat waiting.last waiting.reach

main_stuck : main_step text stat done_course.last.main done_course.last ≡ none
unfolding done_course quiet main_step child1_step child2_step count_char position bump
main_stuck = refl

child1_stuck : child1_step text stat done_course.last.place1 done_course.last ≡ none
unfolding done_course quiet main_step child1_step child2_step count_char position bump
child1_stuck = refl

child2_stuck : child2_step text stat done_course.last.place2 done_course.last ≡ none
unfolding done_course quiet main_step child1_step child2_step count_char position bump
child2_stuck = refl

usr2_ends_example : done_course.last.main ≡ ended
usr2_ends_example =
    usr2_ends text stat done_course.last done_course.reach main_stuck child1_stuck child2_stuck

-- The first line of /proc/stat soon after a start, with a tenth field.
abbrev fields : List ℕ
fields = 170 ∷ 0 ∷ 205 ∷ 4032 ∷ 61 ∷ 0 ∷ 7 ∷ 0 ∷ 0 ∷ []

sample_roundtrip_example : sample (print_line fields ++ 32 ∷ 48 ∷ 10 ∷ []) ≡ some (382, 4475)
unfolding show
sample_roundtrip_example = sample_roundtrip 170 0 205 4032 61 0 7 0 0 (48 ∷ 10 ∷ []) (omega arith)

sample_run : sample (print_line fields ++ 32 ∷ 48 ∷ 10 ∷ []) ≡ some (382, 4475)
unfolding sample fgets tokens read_fields atoi as_int leading_number show utilization
sample_run = refl

-- An idle machine with many processors: the line fits, and its fourth field is past an `int`.
past_int :
    sample (print_line (170 ∷ 0 ∷ 205 ∷ 2147483648 ∷ 61 ∷ 0 ∷ 7 ∷ 0 ∷ 0 ∷ []) ++ 32 ∷ []) ≡ none
unfolding sample fgets tokens read_fields atoi as_int leading_number show
past_int = refl

-- The same line months later: `fgets` cuts it, and the sixth `strtok(NULL)` gives NULL.
cut_line_crashes :
    sample
      (print_line (91700012 ∷ 800014 ∷ 20500099 ∷ 903200321 ∷ 6100123 ∷ 0 ∷ 70111 ∷ 0 ∷ 0 ∷ []))
    ≡ none
unfolding sample fgets tokens read_fields atoi as_int leading_number show
cut_line_crashes = refl
