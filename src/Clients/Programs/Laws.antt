-- ===== src/Clients/Programs/Laws.antt =====
-- What the two programs print.
use mathlib.Core.Path.{subst}
use advanced_practical_embed.Base.{
  ℕ, Bool, false, if◌then◌else◌, ◌≡◌, refl, sym, ◌∙◌, ap, true, List, some, ℤ, Perm, length,
  length-perm,
}
use advanced_practical_embed.Run.{Run, ok, fault, ◌>>=◌}
use advanced_practical_embed.MySort.Order.{IsDescending}
use advanced_practical_embed.MySort.Syscall.{success}
use advanced_practical_embed.Clients.{Machine, block, malloc, fill, print_rows, syscall, Item}
use advanced_practical_embed.Clients.Loops.{
  draws, length-block, fill-ok, print_rows-ok, numbers, InRows,
}
use advanced_practical_embed.Clients.Regression.Laws.{syscall-sorts}
use advanced_practical_embed.Clients.Programs.{Output, write_log, my_sort_main, cron_main}

-- The call succeeded, eight entries stand in a row, the first block of numbers is the given one, and
-- the second block is the same numbers in descending order.
pub record IsSorted (drawn : List ℤ) (o : Output) : Type 0 where
  pub succeeded : o.stat ≡ success
  pub input_rows : InRows 0 o.input
  pub sorted_rows : InRows 0 o.sorted
  pub descending : IsDescending (numbers o.sorted)
  pub shown : numbers o.input ≡ drawn
  pub same : Perm (numbers o.sorted) drawn

write_log_lem :
    (opens : Bool) (next : Run Output) {o : Output}
    → next ≡ ok o
    → (write_log opens >>= λ written. next) ≡ (if opens then ok o else fault)
unfolding write_log
write_log_lem true next e = e
write_log_lem false next e = refl

-- The two blocks through the steps that the programs share.
record Session (m : Machine) (modulus : ℕ) : Type 0 where
  out : List ℤ
  input : List Item
  sorted : List Item
  filled :
      fill m modulus 0 256 0 (some (block (m.garbage 0) 0 256)) ≡ ok (some (draws m modulus 0 256))
  called :
      syscall m (some (draws m modulus 0 256)) 256 (some (block (m.garbage 1) 0 256))
      ≡ ok (success, some out)
  input_printed : print_rows 256 0 (some (draws m modulus 0 256)) ≡ ok input
  sorted_printed : print_rows 256 0 (some out) ≡ ok sorted
  is_sorted :
      IsSorted (draws m modulus 0 256) (record { input = input; stat = success; sorted = sorted })

module _ (m : Machine) (g0 : m.granted 0 ≡ true) (g1 : m.granted 1 ≡ true)
    (ka : m.kernel_alloc ≡ true) (ta : m.temp_alloc ≡ true) where
  session : (modulus : ℕ) → Session m modulus
  session modulus =
      let (_, filled', size', entries) =
        fill-ok m modulus 0 256 0 (block (m.garbage 0) 0 256)
          (sym (length-block (m.garbage 0) 0 256)) in
      let b = draws m modulus 0 256 in
      let filled =
        subst (λ c. fill m modulus 0 256 0 (some (block (m.garbage 0) 0 256)) ≡ ok (some c)) entries
          filled' in
      let full = ap length (sym entries) ∙ size' ∙ length-block (m.garbage 0) 0 256 in
      let (out, called, descending, same) =
        syscall-sorts m b (block (m.garbage 1) 0 256) ka ta full in
      let (before, printed, input, rows) = print_rows-ok 256 0 b (sym full) in
      let (after, printed', sorted, rows') =
        print_rows-ok 256 0 out (sym (length-perm same ∙ full)) in
      record {
        out = out;
        input = before;
        sorted = after;
        filled = filled;
        called = called;
        input_printed = printed;
        sorted_printed = printed';
        is_sorted = record {
          succeeded = refl;
          input_rows = rows;
          sorted_rows = rows';
          descending = rw sorted descending;
          shown = input;
          same = rw sorted same;
        };
      }

  my_sort_main_sorts : (o : Output) × (my_sort_main m ≡ ok o) × IsSorted (draws m 1024 0 256) o
  unfolding my_sort_main malloc
  my_sort_main_sorts =
      let s = session 1024 in
      (
        record { input = s.input; stat = success; sorted = s.sorted },
        rw (g0, g1, s.filled, s.input_printed, s.called, s.sorted_printed),
        s.is_sorted,
      )

  cron_sorts :
      (o : Output) × (cron_main m ≡ (if m.log_opens then ok o else fault))
      × IsSorted (draws m 255 0 256) o
  unfolding cron_main malloc
  cron_sorts =
      let s = session 255 in
      (
        record { input = s.input; stat = success; sorted = s.sorted },
        rw (g0, g1, s.filled, s.called)
            (write_log_lem m.log_opens _ (rw (s.input_printed, s.sorted_printed) refl)),
        s.is_sorted,
      )

  -- With both blocks of memory given, and the kernel's two buffers: where its log opens, `main` of
  -- cron.c logs what the first 256 calls of `rand` give, modulo 255, in rows of eight and in the order
  -- drawn, and then the same numbers in rows of eight and in descending order, and where the log does
  -- not open, `main` faults; and `main` of my_sort.c prints what the first 256 calls of `rand` give,
  -- modulo 1024, in the same two ways; and in both programs the system call succeeds.
  pub programs_sort :
      ((o : Output) × (cron_main m ≡ (if m.log_opens then ok o else fault))
        × IsSorted (draws m 255 0 256) o)
      × ((o : Output) × (my_sort_main m ≡ ok o) × IsSorted (draws m 1024 0 256) o)
  programs_sort = (cron_sorts, my_sort_main_sorts)
