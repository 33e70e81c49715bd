-- ===== src/Clients/Regression.antt =====
-- HW2_APES/PROBLEM5/regression_test/regression_test.c: the five test cases, one after the other in one
-- `main`. A case reports whether it printed that it passed, with what it printed of its buffers.
pub mod Laws
use advanced_practical_embed.Base.{ℕ, Bool, true, false, not, ◌&&◌, List, [], ◌∷◌, none, ℤ, ltb}
use advanced_practical_embed.Run.{Run, ok, ◌>>=◌}
use advanced_practical_embed.Clients.{
  Machine, malloc, fill, print_all, syscall, is_null, is_success,
}

pub record Report : Type 0 where
  pub input : List ℤ
  pub output : List ℤ
  pub passed : Bool

-- The output buffer is NULL, and the size is 256.
unfoldable pub test0 : Machine → Run Report
test0 m = do
  src_buffer ← fill m 1024 0 256 0 (malloc m 0 256)
  input ← print_all 256 0 src_buffer
  (stat, sorted_buffer) ← syscall m src_buffer 256 none
  output ← print_all 256 0 sorted_buffer
  ok (record { input = input; output = output; passed = not (is_success stat) })

-- The size is 5, and the program does not look at it.
unfoldable pub test1 : Machine → Run Report
test1 m = do
  src_buffer ← fill m 1024 256 5 0 (malloc m 1 5)
  input ← print_all 5 0 src_buffer
  (stat, sorted_buffer) ← syscall m src_buffer 5 (malloc m 2 5)
  output ← print_all 5 0 sorted_buffer
  ok (record { input = input; output = output; passed = not (is_success stat) })

-- The size is 256; `buffer_size < 0` is never true of a `size_t`.
unfoldable pub test2 : Machine → Run Report
test2 m = do
  let allocated = not (is_null (malloc m 3 256)) && not (is_null (malloc m 4 256))
  src_buffer ← fill m 1024 261 256 0 (malloc m 3 256)
  input ← print_all 256 0 src_buffer
  (stat, sorted_buffer) ← syscall m src_buffer 256 (malloc m 4 256)
  output ← print_all 256 0 sorted_buffer
  ok (record { input = input; output = output; passed = allocated && is_success stat })

-- The size is 5, which the program looks at.
unfoldable pub test3 : Machine → Run Report
test3 m = do
  let checked = not (ltb 5 256) && not (is_null (malloc m 5 5)) && not (is_null (malloc m 6 5))
  src_buffer ← fill m 1024 517 5 0 (malloc m 5 5)
  input ← print_all 5 0 src_buffer
  (stat, sorted_buffer) ← syscall m src_buffer 5 (malloc m 6 5)
  output ← print_all 5 0 sorted_buffer
  ok (record { input = input; output = output; passed = checked && is_success stat })

-- The input buffer is NULL, and the size is 256.
unfoldable pub test4 : Machine → Run Report
test4 m = do
  src_buffer ← fill m 1024 522 256 0 none
  input ← print_all 256 0 src_buffer
  (stat, sorted_buffer) ← syscall m src_buffer 256 (malloc m 7 256)
  output ← print_all 256 0 sorted_buffer
  ok (record { input = input; output = output; passed = false })

-- `main`
unfoldable pub regression_main : Machine → Run (List Report)
regression_main m = do
  r0 ← test0 m
  r1 ← test1 m
  r2 ← test2 m
  r3 ← test3 m
  r4 ← test4 m
  ok (r0 ∷ r1 ∷ r2 ∷ r3 ∷ r4 ∷ [])
