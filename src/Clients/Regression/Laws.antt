-- ===== src/Clients/Regression/Laws.antt =====
-- How the test cases end.
use advanced_practical_embed.Base.{
  ℕ, ◌<◌, ◌≡◌, refl, sym, ◌∙◌, true, false, List, [], ◌∷◌, none, some, ℤ, Perm, arith, length,
  Bool-cases, inl, inr, lt→ltb, length-perm,
}
use advanced_practical_embed.Run.{ok, fault}
use advanced_practical_embed.MySort.Order.{IsDescending}
use advanced_practical_embed.MySort.Syscall.{
  Status, success, einval, enospc, kernel_src_buffer, Answers, Outcome, my_sort, copy_out,
}
use advanced_practical_embed.MySort.Syscall.Laws.{
  my_sort_sorts, my_sort-sort_and_copy, sort_and_copy-ok,
}
use advanced_practical_embed.Clients.{Pointer, Machine, block, malloc, syscall}
use advanced_practical_embed.Clients.Loops.{
  length-block, fill-ok, fill_null, print_all-ok, print_all_null,
}
use advanced_practical_embed.Clients.Regression.{
  Report, test0, test1, test2, test3, test4, regression_main,
}

-- With the number of entries that it is told, at most 256, the system call comes back.
my_sort_returns :
    (k : Answers) (src sorted_buffer : List ℤ)
    → k.from_user ≡ some src
    → length src ≡ 256
    → (o : Outcome) × (my_sort k 256 sorted_buffer ≡ ok o)
unfolding my_sort
my_sort_returns k src sorted_buffer from size = elim (Bool-cases k.kernel_alloc) [
  | inr ka ↦ (record { status = enospc; sorted_buffer = sorted_buffer; allocated = [] }, simp (ka))
  | inl ka ↦ elim (Bool-cases k.temp_alloc) [
    | inr ta ↦ (
      record { status = enospc; sorted_buffer = sorted_buffer; allocated = kernel_src_buffer ∷ [] },
      simp (ka, ta),
    )
    | inl ta ↦
        let (out, run, _, _) = sort_and_copy-ok k src (omega arith) (omega arith) in
        (
          copy_out k out,
          my_sort-sort_and_copy k 256 src sorted_buffer ka ta from (omega arith) ∙ rw (← size) run,
        )
  ]
]

syscall_null :
    (m : Machine) (src : List ℤ)
    → length src ≡ 256
    → (s : Status) × (syscall m (some src) 256 none ≡ ok (s, none))
unfolding syscall
syscall_null m src size =
    let (o, run) =
      my_sort_returns
        (record {
          kernel_alloc = m.kernel_alloc;
          temp_alloc = m.temp_alloc;
          from_user = some src;
          to_user = some [];
        })
        src [] refl size in
    (o.status, rw run refl)

-- On every machine, test case 0 faults.
test0_faults : (m : Machine) → test0 m ≡ fault
unfolding test0 malloc
test0_faults m = elim (Bool-cases (m.granted 0)) [
  | inr refused ↦ rw (refused, fill_null m 1024 0 256 0 (omega arith))
  | inl given ↦
      let (b, filled, size, _) =
        fill-ok m 1024 0 256 0 (block (m.garbage 0) 0 256)
          (sym (length-block (m.garbage 0) 0 256)) in
      let full = size ∙ length-block (m.garbage 0) 0 256 in
      let (s, called) = syscall_null m b full in
      rw
        (given, filled, print_all-ok 256 0 b (sym full), called, print_all_null 256 0 (omega arith))
]

-- Whatever the machine answers, test case 0 faults, and so the test program does not get past it; and
-- test case 4 would fault too.
pub regression_faults :
    (m : Machine) → (test0 m ≡ fault) × (regression_main m ≡ fault) × (test4 m ≡ fault)
unfolding regression_main test4
regression_faults m =
    (test0_faults m, rw (test0_faults m), rw (fill_null m 1024 522 256 0 (omega arith)))

pub syscall-sorts :
    (m : Machine) (src a : List ℤ)
    → m.kernel_alloc ≡ true
    → m.temp_alloc ≡ true
    → length src ≡ 256
    → (out : List ℤ) × (syscall m (some src) 256 (some a) ≡ ok (success, some out))
      × IsDescending out
      × Perm out src
unfolding syscall
syscall-sorts m src a ka ta size =
    let (out, run, descending, same) =
      my_sort_sorts
        (record {
          kernel_alloc = m.kernel_alloc;
          temp_alloc = m.temp_alloc;
          from_user = some src;
          to_user = none;
        })
        src a ka ta refl refl size in
    (out, rw run refl, descending, same)

syscall_small :
    (m : Machine) (src : Pointer) (n : ℕ) (a : List ℤ)
    → n < 256
    → syscall m src n (some a) ≡ ok (einval, some a)
unfolding syscall my_sort
syscall_small m src n a h = rw (lt→ltb n 256 h)

-- With both blocks of memory given to test case 2, and the kernel's two buffers, the case passes, and
-- what it prints of the output is what it printed of the input, in descending order.
pub test2_sorts :
    (m : Machine)
    → m.granted 3 ≡ true
    → m.granted 4 ≡ true
    → m.kernel_alloc ≡ true
    → m.temp_alloc ≡ true
    → (r : Report) × (test2 m ≡ ok r)
      × (r.passed ≡ true)
      × IsDescending r.output
      × Perm r.output r.input
unfolding test2 malloc
test2_sorts m g3 g4 ka ta =
    let (b, filled, size, _) =
      fill-ok m 1024 261 256 0 (block (m.garbage 3) 0 256)
        (sym (length-block (m.garbage 3) 0 256)) in
    let full = size ∙ length-block (m.garbage 3) 0 256 in
    let (out, called, descending, same) =
      syscall-sorts m b (block (m.garbage 4) 0 256) ka ta full in
    (
      record { input = b; output = out; passed = true },
      rw (
        g3,
        g4,
        filled,
        print_all-ok 256 0 b (sym full),
        called,
        print_all-ok 256 0 out (sym (length-perm same ∙ full)),
      ),
      refl,
      descending,
      same,
    )

-- With their blocks of memory given, test case 1 passes and test case 3 fails, and both print as their
-- output what `malloc` left in the block: the system call refuses the five numbers with an error, which
-- test case 1 takes for success, though its comment expects it to fail.
pub small_tests :
    (m : Machine)
    → m.granted 1 ≡ true
    → m.granted 2 ≡ true
    → m.granted 5 ≡ true
    → m.granted 6 ≡ true
    → (r1 : Report) × (r3 : Report) × (test1 m ≡ ok r1)
      × (test3 m ≡ ok r3)
      × (r1.passed ≡ true)
      × (r3.passed ≡ false)
      × (r1.output ≡ block (m.garbage 2) 0 5)
      × (r3.output ≡ block (m.garbage 6) 0 5)
unfolding test1 test3 malloc
small_tests m g1 g2 g5 g6 =
    let (b1, filled1, size1, _) = fill-ok m 1024 256 5 0 (block (m.garbage 1) 0 5) (omega arith) in
    let (b3, filled3, size3, _) = fill-ok m 1024 517 5 0 (block (m.garbage 5) 0 5) (omega arith) in
    (
      record { input = b1; output = block (m.garbage 2) 0 5; passed = true },
      record { input = b3; output = block (m.garbage 6) 0 5; passed = false },
      rw (
        g1,
        g2,
        filled1,
        print_all-ok 5 0 b1 (sym size1),
        syscall_small m (some b1) 5 (block (m.garbage 2) 0 5) (omega arith),
        print_all-ok 5 0 (block (m.garbage 2) 0 5) (omega arith),
      ),
      rw (
        g5,
        g6,
        filled3,
        print_all-ok 5 0 b3 (sym size3),
        syscall_small m (some b3) 5 (block (m.garbage 6) 0 5) (omega arith),
        print_all-ok 5 0 (block (m.garbage 6) 0 5) (omega arith),
      ),
      refl,
      refl,
      refl,
      refl,
    )
