-- ===== src/Clients/Programs.antt =====
-- HW2_APES/PROBLEM5/regression_test/my_sort.c and HW2_APES/PROBLEM6/cron.c: both fill a buffer with
-- 256 numbers, sort it by the system call, and print it before and after. cron.c prints to a file,
-- with the process, the user and the date, which are left out.
pub mod Laws
use advanced_practical_embed.Base.{
  ℕ, ◌≡◌, refl, Bool, true, false, List, Option, ℤ, Perm, arith, ◌<◌, ◌%◌,
}
use advanced_practical_embed.Run.{Run, ok, fault, ◌>>=◌}
use advanced_practical_embed.MySort.Syscall.{Status, success}
use advanced_practical_embed.Clients.{Machine, malloc, fill, print_rows, print_all, syscall, Item}

pub record Output : Type 0 where
  pub input : List Item
  pub stat : Status
  pub sorted : List Item

abbrev pub buffer_size : ℕ
buffer_size = 256

-- `main` of my_sort.c; the numbers are printed as they are drawn
unfoldable pub my_sort_main : Machine → Run Output
my_sort_main m = do
  src_buffer ← fill m 1024 0 buffer_size 0 (malloc m 0 buffer_size)
  input ← print_rows buffer_size 0 src_buffer
  (stat, sorted_buffer) ← syscall m src_buffer buffer_size (malloc m 1 buffer_size)
  sorted ← print_rows buffer_size 0 sorted_buffer
  ok (record { input = input; stat = stat; sorted = sorted })

-- `fprintf` to a file that was opened or not; the program has only printed a message where it was not.
unfoldable pub write_log : Bool → Run (Unit {0})
write_log true = ok tt
write_log false = fault

-- `main` of cron.c; both buffers are printed to the log after the call
unfoldable pub cron_main : Machine → Run Output
unfolding write_log
cron_main m = do
  src_buffer ← fill m 255 0 buffer_size 0 (malloc m 0 buffer_size)
  (stat, sorted_buffer) ← syscall m src_buffer buffer_size (malloc m 1 buffer_size)
  written ← write_log m.log_opens
  input ← print_rows buffer_size 0 src_buffer
  sorted ← print_rows buffer_size 0 sorted_buffer
  ok (record { input = input; stat = stat; sorted = sorted })
