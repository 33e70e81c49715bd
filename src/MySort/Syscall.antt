-- ===== src/MySort/Syscall.antt =====
-- `SYSCALL_DEFINE3(my_sort, ...)`: the checks, the two kernel buffers, and the copies from and to
-- user space. The kernel's allocator and copies are outside of the repository: what they answer is
-- given by an `Answers`. Buffer sizes are below 2^30, so that `4 * buffer_size` fits a `size_t`.
pub mod Laws
use advanced_practical_embed.Base.{
  ℕ, zero, suc, ◌+◌, ◌-◌, Bool, List, [], ◌∷◌, ◌++◌, Option, none, some, ℤ, ltb, if◌then◌else◌,
}
use advanced_practical_embed.Run.{Run, ok, out_of_fuel, ◌>>=◌}
use advanced_practical_embed.MySort.{load, mergesort}

-- the codes that the call returns: 0, -EINVAL, -ENOSPC, -EFAULT
pub data Status : Type 0 where
  success einval enospc efault : Status

-- the two buffers of the kernel
pub data Buffer : Type 0 where
  kernel_src_buffer temp_kernel_src_buffer : Buffer

-- What the kernel answers to the call's requests.
pub record Answers : Type 0 where
  pub kernel_alloc : Bool  -- the first `kmalloc` gives memory
  pub temp_alloc : Bool  -- the second `kmalloc` gives memory
  pub from_user : Option (List ℤ)  -- what `copy_from_user` delivers, if it delivers all
  pub to_user : Option (List ℤ)  -- what a `copy_to_user` that breaks off leaves in the user's buffer

-- The state after the call: the code, the user's sorted buffer, the buffers that are not freed.
pub record Outcome : Type 0 where
  pub status : Status
  pub sorted_buffer : List ℤ
  pub allocated : List Buffer

-- `for (i = 0; i < buffer_size; i++) kernel[i] = temp[buffer_size - 1 - i];` where `kernel` is the
-- list of the entries written so far
pub reverse_copy : ℕ → ℕ → ℕ → List ℤ → List ℤ → Run (List ℤ)
reverse_copy zero i buffer_size temp kernel = out_of_fuel
reverse_copy (suc fuel) i buffer_size temp kernel =
    let round = load temp (buffer_size - 1 - i) >>= λ x.
    reverse_copy fuel (i + 1) buffer_size temp (kernel ++ x ∷ []) in
    if ltb i buffer_size then round else ok kernel

-- the end of the call, once `kernel` is filled
pub copy_out : Answers → List ℤ → Outcome
copy_out k kernel = elim k.to_user [
  | none ↦ record {
    status = success;
    sorted_buffer = kernel;
    allocated = temp_kernel_src_buffer ∷ [];
  }
  | some left ↦ record {
    status = efault;
    sorted_buffer = left;
    allocated = temp_kernel_src_buffer ∷ [];
  }
]

-- the part of the call after `copy_from_user`
pub sort_and_copy : Answers → ℕ → List ℤ → Run Outcome
sort_and_copy k buffer_size temp = mergesort temp 0 (buffer_size - 1) >>= λ t.
    reverse_copy (buffer_size + 1) 0 buffer_size t [] >>= λ kernel. ok (copy_out k kernel)

unfoldable pub my_sort : Answers → ℕ → List ℤ → Run Outcome
my_sort k buffer_size sorted_buffer =
    let stop : Status → List Buffer → Run Outcome =
      λ s live. ok (record { status = s; sorted_buffer = sorted_buffer; allocated = live }) in
    let copied : Run Outcome = elim k.from_user [
      | none ↦ stop efault (temp_kernel_src_buffer ∷ [])
      | some temp ↦ sort_and_copy k buffer_size temp
    ] in
    if ltb buffer_size 256
    then stop einval []
    else if k.kernel_alloc
    then if k.temp_alloc then copied else stop enospc (kernel_src_buffer ∷ [])
    else stop enospc []
