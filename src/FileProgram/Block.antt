-- ===== src/FileProgram/Block.antt =====
-- The block that `malloc` gives to myfileIO.c.
use advanced_practical_embed.Base.{
  ℕ, zero, suc, ◌≡◌, inl, inr, refl, ap, true, none, some, List, length, Bool-cases, some-eq,
}
use advanced_practical_embed.FileProgram.{Machine, malloc, block_of}

pub length-block_of : (garbage : ℕ → ℕ) (i size : ℕ) → length (block_of garbage i size) ≡ size
unfolding block_of
length-block_of garbage i zero = refl
length-block_of garbage i (suc size) = ap suc (length-block_of garbage (suc i) size)

pub malloc_gives : (m : Machine) → m.gives ≡ true → malloc m 20 ≡ some (block_of m.garbage 0 20)
unfolding malloc
malloc_gives m e = rw e

pub malloc_needs :
    (m : Machine) (block : List ℕ)
    → malloc m 20 ≡ some block
    → (m.gives ≡ true) × (block_of m.garbage 0 20 ≡ block)
unfolding malloc
malloc_needs m block h = elim (Bool-cases m.gives) [
  | inl e ↦ let same : some (block_of m.garbage 0 20) ≡ some block = rw e at h in (e, some-eq same)
  | inr e ↦ let bad : none ≡ some block = rw e at h in absurd (cc)
]
