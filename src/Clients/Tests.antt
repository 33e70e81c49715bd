-- ===== src/Clients/Tests.antt =====
-- The programs on a machine that gives all the memory that they ask for.
use advanced_practical_embed.Base.{if◌then◌else◌, ◌*◌, ◌+◌, ◌≡◌, refl, true, false, Perm, pos}
use advanced_practical_embed.Run.{ok, fault}
use advanced_practical_embed.MySort.Order.{IsDescending}
use advanced_practical_embed.Clients.{Machine, block}
use advanced_practical_embed.Clients.Programs.{Output, my_sort_main, cron_main}
use advanced_practical_embed.Clients.Loops.{draws}
use advanced_practical_embed.Clients.Programs.Laws.{IsSorted, programs_sort}
use advanced_practical_embed.Clients.Regression.{
  Report, test0, test1, test2, test3, test4, regression_main,
}
use advanced_practical_embed.Clients.Regression.Laws.{regression_faults, test2_sorts, small_tests}

abbrev generous : Machine
generous = record {
  rand = λ k. k * 7919 + 12345;
  granted = λ call. true;
  garbage = λ call i. pos (call + i);
  kernel_alloc = true;
  temp_alloc = true;
  log_opens = true;
}

regression_faults_example :
    (test0 generous ≡ fault) × (regression_main generous ≡ fault) × (test4 generous ≡ fault)
regression_faults_example = regression_faults generous

test2_sorts_example :
    (r : Report) × (test2 generous ≡ ok r)
    × (r.passed ≡ true)
    × IsDescending r.output
    × Perm r.output r.input
test2_sorts_example = test2_sorts generous refl refl refl refl

small_tests_example :
    (r1 : Report) × (r3 : Report) × (test1 generous ≡ ok r1)
    × (test3 generous ≡ ok r3)
    × (r1.passed ≡ true)
    × (r3.passed ≡ false)
    × (r1.output ≡ block (generous.garbage 2) 0 5)
    × (r3.output ≡ block (generous.garbage 6) 0 5)
small_tests_example = small_tests generous refl refl refl refl

programs_sort_example :
    ((o : Output) × (cron_main generous ≡ (if generous.log_opens then ok o else fault))
      × IsSorted (draws generous 255 0 256) o)
    × ((o : Output) × (my_sort_main generous ≡ ok o) × IsSorted (draws generous 1024 0 256) o)
programs_sort_example = programs_sort generous refl refl refl refl
