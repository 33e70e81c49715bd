-- ===== src/Animals/Tests.antt =====
-- The kernel module on a short seed array.
use advanced_practical_embed.Base.{
  ℕ, ◌+◌, ◌<◌, ◌≡◌, refl, List, [], ◌∷◌, ◌++◌, Perm, Mem, none, some, pos, length,
}
use advanced_practical_embed.Run.{ok}
use advanced_practical_embed.Animals.{
  Animal, animal_ecosystem_start, animal_ecosystem_end, second_set, exchange, sort_names, unique,
  strcmp, tally,
}
use advanced_practical_embed.Animals.Names.{IsSorted, sort_names-IsSorted}
use advanced_practical_embed.Animals.Nodes.{IsStrict, expand, start_lists_unique}
use advanced_practical_embed.Animals.Release.{exit_frees}

abbrev dog : List ℕ
dog = 68 ∷ 111 ∷ 103 ∷ []

abbrev cat : List ℕ
cat = 67 ∷ 97 ∷ 116 ∷ []

abbrev seed : List (List ℕ)
seed = dog ∷ cat ∷ dog ∷ []

sort_names-IsSorted_example : IsSorted (sort_names 3 seed) × Perm (sort_names 3 seed) seed
sort_names-IsSorted_example = sort_names-IsSorted seed

start_lists_unique_example :
    (root : List Animal) × (animal_ecosystem_start seed (pos 2) (some dog)
      ≡ ok (second_set (pos 2) (some dog) root))
    × Perm (expand root) seed
    × IsStrict root
    × ((a : Animal) → Mem a root → 0 < a.count)
start_lists_unique_example = start_lists_unique seed (pos 2) (some dog)

abbrev pets : List Animal
pets = record { animal_name = cat; count = 1 } ∷ record { animal_name = dog; count = 2 } ∷ []

pets_start : animal_ecosystem_start seed (pos 2) none ≡ ok (second_set (pos 2) none pets)
unfolding animal_ecosystem_start sort_names exchange unique strcmp tally
pets_start = refl

exit_frees_example :
    let m = second_set (pos 2) none pets in
    let (freed, left) = animal_ecosystem_end (pos 2) none m in
    (length freed ≡ m.total_nodes)
    × (m.allocated ≡ 1 + length freed)
    × (left.root ++ (left.both_root ++ (left.count_root ++ (left.type_root ++ left.no_root))) ≡ [])
exit_frees_example = exit_frees seed (pos 2) none pets_start
