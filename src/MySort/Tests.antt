-- ===== src/MySort/Tests.antt =====
-- The sort and the system call on concrete input.
use advanced_practical_embed.Base.{
  ℕ, zero, suc, ◌≤◌, ◌<◌, ◌≡◌, refl, true, false, List, [], ◌∷◌, none, some, Perm, arith, ℤ, pos,
  negsuc, ◌↔◌, ◌⊎◌, ◌≢◌, Option,
}
use advanced_practical_embed.Run.{ok, fault}
use advanced_practical_embed.MySort.{mergesort}
use advanced_practical_embed.MySort.Order.{IsAscending, IsDescending}
use advanced_practical_embed.MySort.Sorting.{mergesort_sorts}
use advanced_practical_embed.MySort.Syscall.{
  Answers, my_sort, success, temp_kernel_src_buffer, kernel_src_buffer, einval, enospc,
}
use advanced_practical_embed.MySort.Syscall.Laws.{
  my_sort_sorts, my_sort_overflow, my_sort_status, my_sort_leaks,
}

abbrev three : List ℤ
three = pos 2 ∷ negsuc 4 ∷ pos 7 ∷ []

three_sorted : mergesort three 0 2 ≡ ok (negsuc 4 ∷ pos 2 ∷ pos 7 ∷ [])
unfolding mergesort
three_sorted = refl

mergesort_sorts_example : (b : List ℤ) × (mergesort three 0 2 ≡ ok b) × IsAscending b × Perm b three
mergesort_sorts_example = mergesort_sorts three (omega arith) (omega arith)

abbrev countdown : ℕ → List ℤ
countdown zero = []
countdown (suc n) = pos n ∷ countdown n

abbrev full : List ℤ
full = countdown 256

abbrev too_many : List ℤ
too_many = countdown 257

abbrev answers : List ℤ → Answers
answers src = record {
  kernel_alloc = true;
  temp_alloc = true;
  from_user = some src;
  to_user = none;
}

my_sort_sorts_example :
    (out : List ℤ) × (my_sort (answers full) 256 []
      ≡ ok (record {
        status = success;
        sorted_buffer = out;
        allocated = temp_kernel_src_buffer ∷ [];
      }))
    × IsDescending out
    × Perm out full
my_sort_sorts_example = my_sort_sorts (answers full) full [] refl refl refl refl refl

my_sort_overflow_example : my_sort (answers too_many) 257 [] ≡ fault
my_sort_overflow_example =
    my_sort_overflow (answers too_many) too_many [] refl refl refl (omega arith)

-- the second `kmalloc` fails
abbrev no_room : Answers
no_room = record { kernel_alloc = true; temp_alloc = false; from_user = some full; to_user = none }

no_room_run :
    my_sort no_room 256 three
    ≡ ok (record { status = enospc; sorted_buffer = three; allocated = kernel_src_buffer ∷ [] })
unfolding my_sort
no_room_run = refl

my_sort_status_example :
    ((enospc ≡ einval) ↔ (256 < 256))
    × ((enospc ≡ enospc) ↔ ((256 ≤ 256) × ((true ≡ false) ⊎ (false ≡ false))))
    × (enospc ≢ success → Path (Option (List ℤ)) none none → three ≡ three)
my_sort_status_example = my_sort_status no_room 256 three no_room_run

my_sort_leaks_example : kernel_src_buffer ∷ [] ≡ kernel_src_buffer ∷ []
my_sort_leaks_example = my_sort_leaks no_room 256 three no_room_run (omega arith) refl
