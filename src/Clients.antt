-- ===== src/Clients.antt =====
-- The user programs that call `my_sort` as system call 399, in HW2_APES. A pointer to `int32_t` is
-- NULL or the entries of its block; a read or write through NULL is a fault. What `rand`, `malloc` and
-- the kernel's allocator answer is given by a `Machine`. `%ld` prints an entry as it is.
pub mod Loops
pub mod Programs
pub mod Regression
pub mod Tests
use advanced_practical_embed.Base.{
  ℕ, zero, suc, ◌+◌, ◌%◌, Bool, true, false, List, [], ◌∷◌, Option, none, some, ℤ, pos, ◌==◌,
  if◌then◌else◌,
}
use advanced_practical_embed.Run.{Run, ok, ◌>>=◌, or_fault}
use advanced_practical_embed.MySort.{load, store}
use advanced_practical_embed.MySort.Syscall.{Status, success, einval, enospc, efault, my_sort}

abbrev pub Pointer : Type 0
Pointer = Option (List ℤ)

pub record Machine : Type 0 where
  pub rand : ℕ → ℕ  -- the answers of `rand`, in order
  pub granted : ℕ → Bool  -- whether a call of `malloc` gives memory, by its number
  pub garbage : ℕ → ℕ → ℤ  -- what such a block holds at first
  pub kernel_alloc : Bool  -- the kernel gives the system call its first buffer
  pub temp_alloc : Bool  -- and its second
  pub log_opens : Bool  -- whether `fopen` opens the log of cron.c

abbrev pub is_null : Pointer → Bool
is_null none = true
is_null (some a) = false

abbrev pub block : (ℕ → ℤ) → ℕ → ℕ → List ℤ
block garbage i zero = []
block garbage i (suc n) = garbage i ∷ block garbage (suc i) n

-- call number `call` of `malloc`, for `n` entries
unfoldable pub malloc : Machine → ℕ → ℕ → Pointer
malloc m call n = if m.granted call then some (block (m.garbage call) 0 n) else none

-- `for (i = 0; i < buffer_size; i++) *(src_buffer + i) = rand() % modulus;` with `left` rounds to go,
-- where `drawn` numbers were drawn before the loop
unfoldable pub fill : Machine → ℕ → ℕ → ℕ → ℕ → Pointer → Run Pointer
fill m modulus drawn zero i src = ok src
fill m modulus drawn (suc left) i src = or_fault src >>= λ a.
    store a i (pos (m.rand (drawn + i) % modulus)) >>= λ b.
    fill m modulus drawn left (suc i) (some b)

-- `for (i = 0; i < buffer_size; i++) printf("\t%ld", *(buffer + i));`
unfoldable pub print_all : ℕ → ℕ → Pointer → Run (List ℤ)
print_all zero i buffer = ok []
print_all (suc left) i buffer = or_fault buffer >>= λ a.
    load a i >>= λ x. print_all left (suc i) buffer >>= λ rest. ok (x ∷ rest)

-- What the loops with line breaks print.
pub data Item : Type 0 where
  line_break : Item
  number : ℤ → Item

-- The same loop with `if (i % 8 == 0)` a line break.
unfoldable pub print_rows : ℕ → ℕ → Pointer → Run (List Item)
print_rows zero i buffer = ok []
print_rows (suc left) i buffer = or_fault buffer >>= λ a. load a i >>= λ x.
    print_rows left (suc i) buffer >>= λ rest.
    ok (if (i % 8) == 0 then line_break ∷ number x ∷ rest else number x ∷ rest)

abbrev pub is_success : Status → Bool
is_success success = true
is_success _ = false

-- `syscall(399, src_buffer, buffer_size, sorted_buffer)`. The kernel's copies fail at NULL and
-- succeed at a block of the program.
unfoldable pub syscall : Machine → Pointer → ℕ → Pointer → Run (Status × Pointer)
syscall m src n none =
    my_sort
      (record {
        kernel_alloc = m.kernel_alloc;
        temp_alloc = m.temp_alloc;
        from_user = src;
        to_user = some [];
      })
      n []
    >>= λ o. ok (o.status, none)
syscall m src n (some a) =
    my_sort
      (record {
        kernel_alloc = m.kernel_alloc;
        temp_alloc = m.temp_alloc;
        from_user = src;
        to_user = none;
      })
      n a
    >>= λ o. ok (o.status, some o.sorted_buffer)
