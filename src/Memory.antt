-- ===== src/Memory.antt =====
-- HW3_APES/PROBLEM2/memory.c: a `memcpy` of bytes whose first argument is the source. Memory gives each
-- address its byte; which addresses may be written is a question that a C program must answer for
-- itself, so the theorems say which ones are.
pub mod Laws
pub mod Main
pub mod Tests
use advanced_practical_embed.Base.{
  ℕ, zero, suc, ◌+◌, ◌%◌, Bool, true, false, List, [], ◌∷◌, ◌++◌, ◌==◌, ltb, if◌then◌else◌,
}

abbrev pub Bytes : Type 0
Bytes = ℕ → ℕ

-- `*p = b`
unfoldable pub put : Bytes → ℕ → ℕ → Bytes
put mem p b a = if a == p then b else mem a

-- `for (i = 0; i < length; i++) *(dst_cpy + i) = *(src_cpy + i);` with `left` rounds to go
unfoldable pub copy_loop : ℕ → ℕ → ℕ → ℕ → Bytes → Bytes
copy_loop zero i src dst mem = mem
copy_loop (suc left) i src dst mem =
    copy_loop left (suc i) src dst (put mem (dst + i) (mem (src + i)))

unfoldable pub memcpy : ℕ → ℕ → ℕ → Bytes → Bytes
unfolding copy_loop put
memcpy src dst length mem = copy_loop length 0 src dst mem

-- `for (i = 0; i < 10; i++) *(src + i) = i;` with `i` a `uint8_t`
unfoldable pub count_up : ℕ → ℕ → ℕ → Bytes → Bytes
count_up zero i src mem = mem
count_up (suc left) i src mem = count_up left (suc i) src (put mem (src + i) (i % 256))

-- `for (i = 0; i < 10; i++) printf("\n\r%d", *(dst + i));`
unfoldable pub print_bytes : ℕ → ℕ → ℕ → Bytes → List ℕ
print_bytes zero i dst mem = []
print_bytes (suc left) i dst mem = mem (dst + i) ∷ print_bytes left (suc i) dst mem

-- `main`, where the two calls of `malloc` gave `src` and `dst`: what it prints, and the memory after it
unfoldable pub memory_main : ℕ → ℕ → Bytes → List ℕ × Bytes
unfolding count_up print_bytes memcpy
memory_main src dst mem =
    let filled = count_up 10 0 src mem in
    let copied = memcpy src dst 10 filled in (print_bytes 10 0 dst copied, copied)
