-- ===== src/MySort.antt =====
-- HW2_APES/PROBLEM5/system_call/sys.c: `merge`, `mergesort` and the system call `my_sort`.
-- An `int32_t` array is the list of its entries; a read or write outside of it is a fault.
pub mod Order
pub mod Merging
pub mod Sorting
pub mod Syscall
pub mod Tests
use advanced_practical_embed.Base.{
  ℕ, zero, suc, ◌+◌, ◌-◌, ◌/◌, Bool, true, false, ◌&&◌, List, [], ◌∷◌, ◌++◌, Option, none, some, ℤ,
  ltb_ℤ, ltb, leb, if◌then◌else◌, length, get_elem?, set,
}
use advanced_practical_embed.Run.{Run, ok, fault, out_of_fuel, ◌>>=◌, or_fault}

-- `int32_t temp[256]`
abbrev pub temp_size : ℕ
temp_size = 256

pub load : List ℤ → ℕ → Run ℤ
load a i = or_fault (get_elem? a i)

pub store : List ℤ → ℕ → ℤ → Run (List ℤ)
store a i v = if ltb i (length a) then ok (set a i v) else fault

-- `temp[k++] = v`, where `temp` is the list of the entries written so far and `k` is its length
pub push : List ℤ → ℤ → Run (List ℤ)
push temp v = if ltb (length temp) temp_size then ok (temp ++ v ∷ []) else fault

-- `while (i <= j1 && j <= j2)`
pub merge_while : ℕ → List ℤ → ℕ → ℕ → ℕ → ℕ → List ℤ → Run (ℕ × ℕ × List ℤ)
merge_while zero a i j1 j j2 temp = out_of_fuel
merge_while (suc fuel) a i j1 j j2 temp =
    let left = λ (x : ℤ). push temp x >>= λ t. merge_while fuel a (i + 1) j1 j j2 t in
    let right = λ (y : ℤ). push temp y >>= λ t. merge_while fuel a i j1 (j + 1) j2 t in
    let round = load a i >>= λ x. load a j >>= λ y. if ltb_ℤ x y then left x else right y in
    if leb i j1 && leb j j2 then round else ok (i, j, temp)

-- `while (i <= last) temp[k++] = a[i++];`
pub copy_rest : ℕ → List ℤ → ℕ → ℕ → List ℤ → Run (List ℤ)
copy_rest zero a i last temp = out_of_fuel
copy_rest (suc fuel) a i last temp =
    let round = load a i >>= λ x. push temp x >>= λ t. copy_rest fuel a (i + 1) last t in
    if leb i last then round else ok temp

-- `for (i = i1, j = 0; i <= j2; i++, j++) a[i] = temp[j];`
pub write_back : ℕ → List ℤ → ℕ → ℕ → ℕ → List ℤ → Run (List ℤ)
write_back zero temp i j j2 a = out_of_fuel
write_back (suc fuel) temp i j j2 a =
    let round =
      load temp j >>= λ x. store a i x >>= λ b. write_back fuel temp (i + 1) (j + 1) j2 b in
    if leb i j2 then round else ok a

-- what `merge` has in `temp` before it writes back
pub merge_temp : ℕ → List ℤ → ℕ → ℕ → ℕ → ℕ → List ℤ → Run (List ℤ)
merge_temp fuel a i j1 j j2 temp = merge_while fuel a i j1 j j2 temp >>= λ (i', j', t).
    copy_rest (j2 + 2) a i' j1 t >>= λ t'. copy_rest (j2 + 2) a j' j2 t'

-- each loop goes through the range at most once, so `j2 + 2` rounds are enough
unfoldable pub merge : List ℤ → ℕ → ℕ → ℕ → ℕ → Run (List ℤ)
unfolding merge_while copy_rest write_back merge_temp load store push
merge a i1 j1 i2 j2 =
    merge_temp (j2 + 2) a i1 j1 i2 j2 [] >>= λ temp. write_back (j2 + 2) temp i1 0 j2 a

pub mergesort_fuel : ℕ → List ℤ → ℕ → ℕ → Run (List ℤ)
mergesort_fuel zero a i j = out_of_fuel
mergesort_fuel (suc fuel) a i j =
    let mid = (i + j) / 2 in
    let body = mergesort_fuel fuel a i mid >>= λ b.
    mergesort_fuel fuel b (mid + 1) j >>= λ c. merge c i mid (mid + 1) j in
    if ltb i j then body else ok a

-- the range gets shorter with each level
unfoldable pub mergesort : List ℤ → ℕ → ℕ → Run (List ℤ)
unfolding mergesort_fuel merge
mergesort a i j = mergesort_fuel (j - i + 1) a i j
