-- ===== src/Memory/Main.antt =====
-- The program around `memcpy`.
use advanced_practical_embed.Base.{
  ℕ, zero, suc, ◌+◌, ◌%◌, ◌≤◌, ◌<◌, ◌≡◌, refl, ap, ◌∙◌, ◌⊎◌, List, [], ◌∷◌, arith,
}
use advanced_practical_embed.Memory.{Bytes, put, count_up, print_bytes, memcpy, memory_main}
use advanced_practical_embed.Memory.Laws.{
  copied_inside, copied_outside, origin_apart, memcpy-eq-copied,
}

-- `a` is none of the `n` addresses from `p` on.
abbrev pub IsOutside : ℕ → ℕ → ℕ → Type 0
IsOutside p n a = (a < p) ⊎ (p + n ≤ a)

count_up_outside :
    (left i src : ℕ) (mem : Bytes) (a : ℕ)
    → IsOutside (src + i) left a
    → count_up left i src mem a ≡ mem a
unfolding count_up put
count_up_outside zero i src mem a h = refl
count_up_outside (suc left) i src mem a h =
    ground (arith, count_up_outside left (suc i) src (put mem (src + i) (i % 256)) a)

count_up_inside :
    (left i src : ℕ) (mem : Bytes) (k : ℕ)
    → i ≤ k
    → k < i + left
    → count_up left i src mem (src + k) ≡ k % 256
unfolding count_up put
count_up_inside zero i src mem k h b = absurd (omega arith)
count_up_inside (suc left) i src mem k h b = ground (
  arith,
  count_up_inside left (suc i) src (put mem (src + i) (i % 256)) k,
  count_up_outside left (suc i) src (put mem (src + i) (i % 256)) (src + k),
)

abbrev counting : ℕ → ℕ → List ℕ
counting zero i = []
counting (suc left) i = i % 256 ∷ counting left (suc i)

print_bytes-counting :
    (left i dst : ℕ) (mem : Bytes)
    → ((k : ℕ) → i ≤ k → k < i + left → mem (dst + k) ≡ k % 256)
    → print_bytes left i dst mem ≡ counting left i
unfolding print_bytes
print_bytes-counting zero i dst mem h = refl
print_bytes-counting (suc left) i dst mem h = rw (
  h i (omega arith) (omega arith),
  print_bytes-counting left (suc i) dst mem (λ k p q. h k (omega arith) (omega arith)),
)

module _ (src dst : ℕ) (mem : Bytes) (apart : (src + 10 ≤ dst) ⊎ (dst + 10 ≤ src)) where
  copied_counting : (k : ℕ) → k < 10 → memcpy src dst 10 (count_up 10 0 src mem) (dst + k) ≡ k % 256
  copied_counting k h =
      memcpy-eq-copied src dst (count_up 10 0 src mem) 10 (dst + k)
      ∙ copied_inside src dst (count_up 10 0 src mem) 10 k h
      ∙ ap (count_up 10 0 src mem) (origin_apart src dst 10 k apart h)
      ∙ count_up_inside 10 0 src mem k (omega arith) (omega arith)

  -- Where the two blocks of ten bytes do not overlap, the program prints 0 to 9, and at every address
  -- outside of both blocks memory is as it was.
  pub memory_main_lem :
      ((memory_main src dst mem).0 ≡ 0 ∷ 1 ∷ 2 ∷ 3 ∷ 4 ∷ 5 ∷ 6 ∷ 7 ∷ 8 ∷ 9 ∷ [])
      × ((a : ℕ) → IsOutside src 10 a → IsOutside dst 10 a → (memory_main src dst mem).1 a ≡ mem a)
  unfolding memory_main
  memory_main_lem = (
    print_bytes-counting 10 0 dst (memcpy src dst 10 (count_up 10 0 src mem))
        (λ k p q. copied_counting k (omega arith)),
    λ a s d.
        memcpy-eq-copied src dst (count_up 10 0 src mem) 10 a
        ∙ copied_outside src dst (count_up 10 0 src mem) 10 a d
        ∙ count_up_outside 10 0 src mem a (omega arith),
  )
