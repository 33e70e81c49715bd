-- ===== src/MySort/Syscall/Laws.antt =====
-- The system call on each path.
use mathlib.Core.List.Perm
use mathlib.Core.List.{reverse, reverse-append, reverse_perm, Pairwise-reverse}
use mathlib.Core.Path.{subst}
use native.Mathlib.Bridge.{le_prop}
use advanced_practical_embed.Base.{
  ℕ, zero, suc, ◌+◌, ◌-◌, ◌≤◌, ◌<◌, ◌≡◌, refl, sym, ap, ◌∙◌, true, false, List, [], ◌∷◌, ◌++◌, none,
  some, Perm, arith, ℤ, length, get_elem?, take, append_assoc, append-nil, lt→ltb, le→ltb,
  length-perm, dec_lt, Bool-cases, Option-cases, inl, inr, ◌↔◌, ◌⊎◌, ◌≢◌, if◌then◌else◌,
}
use advanced_practical_embed.Run.{ok, fault, >>=-eq-ok}
use advanced_practical_embed.MySort.{mergesort, temp_size}
use advanced_practical_embed.MySort.Order.{IsAscending, IsDescending}
use advanced_practical_embed.MySort.Merging.Steps.{load-ok}
use advanced_practical_embed.MySort.Sorting.{mergesort_sorts, mergesort_overflow}
use advanced_practical_embed.MySort.Syscall.{
  success, einval, enospc, efault, kernel_src_buffer, temp_kernel_src_buffer, Answers, Outcome,
  reverse_copy, copy_out, sort_and_copy, my_sort,
}

take-suc :
    (n : ℕ) (xs : List ℤ)
    → n < length xs
    → (x : ℤ) × (get_elem? xs n ≡ some x) × (take (suc n) xs ≡ take n xs ++ x ∷ [])
take-suc n [] h = absurd (omega arith)
take-suc zero (y ∷ xs) h = (y, refl, refl)
take-suc (suc n) (y ∷ xs) h =
    let (x, at, split) = take-suc n xs (omega arith) in (x, at, ap (◌∷◌ y) split)

take-all : (xs : List ℤ) → take (length xs) xs ≡ xs
take-all [] = refl
take-all (x ∷ xs) = ap (◌∷◌ x) (take-all xs)

reverse_copy-reverse :
    (left fuel i n : ℕ) (temp kernel : List ℤ)
    → i + left ≡ n
    → left < fuel
    → left ≤ length temp
    → reverse_copy fuel i n temp kernel ≡ ok (kernel ++ reverse (take left temp))
unfolding reverse_copy
reverse_copy-reverse left zero i n temp kernel e f b = absurd (omega arith)
reverse_copy-reverse zero (suc fuel) i n temp kernel e f b =
    rw (le→ltb i n (omega arith)) (ap ok (sym (append-nil kernel)))
reverse_copy-reverse (suc left) (suc fuel) i n temp kernel e f b =
    let (x, at, split) = take-suc left temp b in
    let index : n - 1 - i ≡ left = omega arith in
    rw
      (
        lt→ltb i n (omega arith),
        index,
        load-ok temp left x at,
        reverse_copy-reverse left fuel (i + 1) n temp (kernel ++ x ∷ []) (omega arith) (omega arith)
            (omega arith),
        split,
        reverse-append (take left temp) (x ∷ []),
      )
      (ap ok (append_assoc kernel (x ∷ []) (reverse (take left temp))))

IsDescending-reverse : (xs : List ℤ) → IsAscending xs → IsDescending (reverse xs)
IsDescending-reverse xs s = (Pairwise-reverse (λ x y. le_prop)).1 s

pub sort_and_copy-ok :
    (k : Answers) (src : List ℤ)
    → 0 < length src
    → length src ≤ temp_size
    → (out : List ℤ) × (sort_and_copy k (length src) src ≡ ok (copy_out k out))
      × IsDescending out
      × Perm out src
unfolding sort_and_copy
sort_and_copy-ok k src pos_length small =
    let (b, sorted, ascending, same) = mergesort_sorts src pos_length small in
    let size = length-perm same in
    (
      reverse b,
      rw (
        sorted,
        reverse_copy-reverse (length src) (length src + 1) 0 (length src) b [] (omega arith)
            (omega arith) (omega arith),
        ← size,
        take-all b,
      ),
      IsDescending-reverse b ascending,
      Perm.trans (reverse_perm b) same,
    )

-- With enough numbers, both buffers and the input, the call gets to its sorting part.
pub my_sort-sort_and_copy :
    (k : Answers) (n : ℕ) (src sorted_buffer : List ℤ)
    → k.kernel_alloc ≡ true
    → k.temp_alloc ≡ true
    → k.from_user ≡ some src
    → 256 ≤ n
    → my_sort k n sorted_buffer ≡ sort_and_copy k n src
unfolding my_sort
my_sort-sort_and_copy k n src sorted_buffer ka ta from large =
    simp (le→ltb n 256 large, ka, ta, from)

-- With 256 numbers, both buffers allocated and both copies complete, `my_sort` returns 0, and the
-- user's buffer holds the same numbers in descending order.
pub my_sort_sorts :
    (k : Answers) (src sorted_buffer : List ℤ)
    → k.kernel_alloc ≡ true
    → k.temp_alloc ≡ true
    → k.from_user ≡ some src
    → k.to_user ≡ none
    → length src ≡ 256
    → (out : List ℤ) × (my_sort k 256 sorted_buffer
        ≡ ok (record {
          status = success;
          sorted_buffer = out;
          allocated = temp_kernel_src_buffer ∷ [];
        }))
      × IsDescending out
      × Perm out src
unfolding copy_out
my_sort_sorts k src sorted_buffer ka ta from to size =
    let (out, run, descending, same) = sort_and_copy-ok k src (omega arith) (omega arith) in
    (
      out,
      my_sort-sort_and_copy k 256 src sorted_buffer ka ta from (omega arith)
          ∙ subst (λ n. sort_and_copy k n src ≡ ok (copy_out k out)) size run
          ∙ rw to,
      descending,
      same,
    )

-- With more than 256 numbers, both buffers allocated and the input copied, `my_sort` writes past
-- the end of an array on the kernel's stack.
pub my_sort_overflow :
    (k : Answers) (src sorted_buffer : List ℤ)
    → k.kernel_alloc ≡ true
    → k.temp_alloc ≡ true
    → k.from_user ≡ some src
    → 256 < length src
    → my_sort k (length src) sorted_buffer ≡ fault
unfolding sort_and_copy
my_sort_overflow k src sorted_buffer ka ta from large =
    my_sort-sort_and_copy k (length src) src sorted_buffer ka ta from (omega arith)
    ∙ rw (mergesort_overflow src (omega arith))

sort_and_copy-copy_out :
    (k : Answers) (n : ℕ) (temp : List ℤ) {o : Outcome}
    → sort_and_copy k n temp ≡ ok o
    → (kernel : List ℤ) × (o ≡ copy_out k kernel)
unfolding sort_and_copy
sort_and_copy-copy_out k n temp h =
    let (t, _, rest) = >>=-eq-ok (mergesort temp 0 (n - 1)) _ h in
    let (kernel, _, end) = >>=-eq-ok (reverse_copy (n + 1) 0 n t []) _ rest in
    (kernel, ground arith)

-- How a call that returns has ended.
data Ending (k : Answers) (n : ℕ) (sorted_buffer : List ℤ) (o : Outcome) : Type 0 where
  too_small :
      n < 256
      → o ≡ record { status = einval; sorted_buffer = sorted_buffer; allocated = [] }
      → Ending k n sorted_buffer o
  no_kernel :
      256 ≤ n
      → k.kernel_alloc ≡ false
      → o ≡ record { status = enospc; sorted_buffer = sorted_buffer; allocated = [] }
      → Ending k n sorted_buffer o
  no_temp :
      256 ≤ n
      → k.kernel_alloc ≡ true
      → k.temp_alloc ≡ false
      → o ≡ record {
        status = enospc;
        sorted_buffer = sorted_buffer;
        allocated = kernel_src_buffer ∷ [];
      }
      → Ending k n sorted_buffer o
  no_input :
      256 ≤ n
      → k.kernel_alloc ≡ true
      → k.temp_alloc ≡ true
      → k.from_user ≡ none
      → o ≡ record {
        status = efault;
        sorted_buffer = sorted_buffer;
        allocated = temp_kernel_src_buffer ∷ [];
      }
      → Ending k n sorted_buffer o
  sorted :
      (kernel : List ℤ)
      → 256 ≤ n
      → k.kernel_alloc ≡ true
      → k.temp_alloc ≡ true
      → o ≡ copy_out k kernel
      → Ending k n sorted_buffer o

my_sort-Ending :
    (k : Answers) (n : ℕ) (sorted_buffer : List ℤ) {o : Outcome}
    → my_sort k n sorted_buffer ≡ ok o
    → Ending k n sorted_buffer o
unfolding my_sort
my_sort-Ending k n sorted_buffer h = elim (dec_lt n 256) [
  | yes small ↦ too_small small (ground arith)
  | no large ↦ elim (Bool-cases k.kernel_alloc) [
    | inr ka ↦ no_kernel (omega arith) ka (ground arith)
    | inl ka ↦ elim (Bool-cases k.temp_alloc) [
      | inr ta ↦ no_temp (omega arith) ka ta (ground arith)
      | inl ta ↦ elim (Option-cases k.from_user) [
        | inl none_in ↦ no_input (omega arith) ka ta none_in (ground arith)
        | inr (src, from) ↦
            let (kernel, e) =
              sort_and_copy-copy_out k n src
                (sym (my_sort-sort_and_copy k n src sorted_buffer ka ta from (omega arith)) ∙ h) in
            sorted kernel (omega arith) ka ta e
      ]
    ]
  ]
]

-- A call that returns gives `-EINVAL` exactly for fewer than 256 numbers, and `-ENOSPC` exactly for
-- 256 numbers or more where one of the two allocations fails; and any failure, unless the last copy
-- breaks off, leaves the user's sorted buffer as it was.
pub my_sort_status :
    (k : Answers) (n : ℕ) (sorted_buffer : List ℤ) {o : Outcome}
    → my_sort k n sorted_buffer ≡ ok o
    → ((o.status ≡ einval) ↔ (n < 256))
      × ((o.status ≡ enospc) ↔ ((256 ≤ n) × ((k.kernel_alloc ≡ false) ⊎ (k.temp_alloc ≡ false))))
      × (o.status ≢ success → k.to_user ≡ none → o.sorted_buffer ≡ sorted_buffer)
unfolding copy_out
my_sort_status k n sorted_buffer h = elim (my_sort-Ending k n sorted_buffer h) [
  | too_small a e ↦ grind arith
  | no_kernel a b e ↦ grind arith
  | no_temp a b c e ↦ grind arith
  | no_input a b c d e ↦ grind arith
  | sorted kernel a b c e ↦ grind arith
]

-- A call that returns, with 256 numbers or more and the first buffer allocated, leaves a buffer that
-- nobody frees: the temporary one where that was allocated too, otherwise the first.
pub my_sort_leaks :
    (k : Answers) (n : ℕ) (sorted_buffer : List ℤ) {o : Outcome}
    → my_sort k n sorted_buffer ≡ ok o
    → 256 ≤ n
    → k.kernel_alloc ≡ true
    → o.allocated ≡ (if k.temp_alloc then temp_kernel_src_buffer ∷ [] else kernel_src_buffer ∷ [])
unfolding copy_out
my_sort_leaks k n sorted_buffer h large ka = elim (my_sort-Ending k n sorted_buffer h) [
  | too_small a e ↦ absurd (omega arith)
  | no_kernel a b e ↦ ground arith
  | no_temp a b c e ↦ ground arith
  | no_input a b c d e ↦ ground arith
  | sorted kernel a b c e ↦ ground arith
]
