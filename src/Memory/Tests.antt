-- ===== src/Memory/Tests.antt =====
-- `memcpy` on ten bytes, and on ranges that overlap.
use advanced_practical_embed.Base.{ℕ, ◌≡◌, inl, [], ◌∷◌, refl, arith}
use advanced_practical_embed.Memory.{Bytes, memcpy, print_bytes, memory_main}
use advanced_practical_embed.Memory.Laws.{copied, memcpy-eq-copied}
use advanced_practical_embed.Memory.Main.{IsOutside, memory_main_lem}

abbrev same_as_address : Bytes
same_as_address a = a

memcpy-eq-copied_example :
    memcpy 100 102 5 same_as_address 106 ≡ copied 100 102 same_as_address 5 106
memcpy-eq-copied_example = memcpy-eq-copied 100 102 same_as_address 5 106

overlap_repeats :
    print_bytes 5 0 102 (memcpy 100 102 5 same_as_address) ≡ 100 ∷ 101 ∷ 100 ∷ 101 ∷ 100 ∷ []
unfolding print_bytes memcpy
overlap_repeats = refl

memory_main_lem_example :
    ((memory_main 100 200 same_as_address).0 ≡ 0 ∷ 1 ∷ 2 ∷ 3 ∷ 4 ∷ 5 ∷ 6 ∷ 7 ∷ 8 ∷ 9 ∷ [])
    × ((a : ℕ)
        → IsOutside 100 10 a
        → IsOutside 200 10 a
        → (memory_main 100 200 same_as_address).1 a ≡ same_as_address a)
memory_main_lem_example = memory_main_lem 100 200 same_as_address (inl (omega arith))
