-- ===== src/Animals/Release.antt =====
-- What the exit function frees of what the entry function got.
use mathlib.Core.Path.{subst}
use advanced_practical_embed.Base.{
  ℕ, zero, suc, ◌+◌, ◌≡◌, refl, List, [], ◌++◌, arith, Option, none, some, ℤ, pos, negsuc, length,
  length-append, true,
}
use advanced_practical_embed.Run.{ok, >>=-eq-ok}
use advanced_practical_embed.Animals.{
  Animal, Module, unique, sort_names, second_set, copy_nodes, animal_ecosystem_start,
  animal_ecosystem_end, is_frequent, is_named,
}

second_set-freed :
    (find_count : ℤ) (find_name : Option (List ℕ)) (root : List Animal)
    → let m = second_set find_count find_name root in
      let (freed, left) = animal_ecosystem_end find_count find_name m in
      (length freed ≡ m.total_nodes)
      × (m.allocated ≡ 1 + length freed)
      × (left.root ++ (left.both_root ++ (left.count_root ++ (left.type_root ++ left.no_root)))
          ≡ [])
unfolding second_set animal_ecosystem_end
second_set-freed (pos zero) none root =
    let n = length-append root (copy_nodes (λ a. true) root) in (n, omega (arith, n), refl)
second_set-freed (pos zero) (some name) root =
    let n = length-append root (copy_nodes (is_named (some name)) root) in
    (omega (arith, n), omega (arith, n), refl)
second_set-freed (pos (suc k)) none root =
    let n = length-append root (copy_nodes (is_frequent (pos (suc k))) root ++ []) in
    let n' = length-append (copy_nodes (is_frequent (pos (suc k))) root) [] in
    (omega (arith, n, n'), omega (arith, n, n'), refl)
second_set-freed (pos (suc k)) (some name) root =
    let n = length-append root _ in (n, omega (arith, n), refl)
second_set-freed (negsuc k) none root =
    let n = length-append root (copy_nodes (is_frequent (negsuc k)) root ++ []) in
    let n' = length-append (copy_nodes (is_frequent (negsuc k)) root) [] in
    (omega (arith, n, n'), omega (arith, n, n'), refl)
second_set-freed (negsuc k) (some name) root =
    let n = length-append root _ in (n, omega (arith, n), refl)

-- After the entry function has returned, the exit function frees as many nodes as the module has
-- reported, which is one fewer than the module got from `kmalloc`, and all lists are empty.
pub exit_frees :
    (names_t : List (List ℕ)) (find_count : ℤ) (find_name : Option (List ℕ)) {m : Module}
    → animal_ecosystem_start names_t find_count find_name ≡ ok m
    → let (freed, left) = animal_ecosystem_end find_count find_name m in
      (length freed ≡ m.total_nodes)
      × (m.allocated ≡ 1 + length freed)
      × (left.root ++ (left.both_root ++ (left.count_root ++ (left.type_root ++ left.no_root)))
          ≡ [])
unfolding animal_ecosystem_start
exit_frees names_t find_count find_name {m} h =
    let (root, _, e) =
      >>=-eq-ok (unique (length names_t + 1) (sort_names (length names_t) names_t)) _ h in
    subst
      (λ m.
        let (freed, left) = animal_ecosystem_end find_count find_name m in
        (length freed ≡ m.total_nodes)
        × (m.allocated ≡ 1 + length freed)
        × (left.root ++ (left.both_root ++ (left.count_root ++ (left.type_root ++ left.no_root)))
            ≡ []))
      (cc e) (second_set-freed find_count find_name root)
