-- ===== src/Animals.antt =====
-- HW3_APES/PROBLEM4/animal_lkm.c: the kernel module that sorts names of animals, lists each name once
-- with its count, and copies the nodes that two filters select. A name is the list of its bytes. The
-- program sorts in place; here the part of the array from `i` on is a list. `kmalloc` is taken to
-- succeed, as in the code, which does not test it. The prints and the time stamps are left out.
pub mod Names
pub mod Nodes
pub mod Release
pub mod Tests
use Prim.Native.Nat.{compare, Ordering, lt, eq, gt}
use advanced_practical_embed.Base.{
  ℕ, zero, suc, ◌+◌, List, [], ◌∷◌, ◌++◌, Option, none, some, Bool, true, false, not, ◌&&◌, ◌||◌, ℤ,
  pos, negsuc, ltb_ℤ, drop, length, if◌then◌else◌,
}
use advanced_practical_embed.Run.{Run, ok, out_of_fuel, ◌>>=◌}

-- `strcmp` of two strings, as unsigned bytes
unfoldable pub strcmp : List ℕ → List ℕ → Ordering
strcmp [] [] = eq
strcmp [] (y ∷ b) = lt
strcmp (x ∷ a) [] = gt
strcmp (x ∷ a) (y ∷ b) = elim (compare x y) [ lt ↦ lt | gt ↦ gt | eq ↦ strcmp a b ]

-- The loop on `j`: it keeps in `names_t[i]` the smaller name, and leaves the other one at `j`.
unfoldable pub exchange : List ℕ → List (List ℕ) → List ℕ × List (List ℕ)
exchange x [] = (x, [])
exchange x (y ∷ ys) = elim (strcmp x y) [
  | gt ↦ let (least, rest) = exchange y ys in (least, x ∷ rest)
  | _ ↦ let (least, rest) = exchange x ys in (least, y ∷ rest)
]

-- The loop on `i`.
unfoldable pub sort_names : ℕ → List (List ℕ) → List (List ℕ)
sort_names zero names = names
sort_names (suc n) [] = []
sort_names (suc n) (x ∷ names) = let (least, rest) = exchange x names in least ∷ sort_names n rest

-- `animal_t`
pub record Animal : Type 0 where
  pub animal_name : List ℕ
  pub count : ℕ

-- The loop on `j` that counts: how often `name` occurs.
unfoldable pub tally : List ℕ → List (List ℕ) → ℕ
tally name [] = 0
tally name (x ∷ names) =
    let rest = tally name names in elim (strcmp name x) [ eq ↦ suc rest | _ ↦ rest ]

-- `while (i < 50)`: one node for each name, after which `i` skips as many names as were counted.
unfoldable pub unique : ℕ → List (List ℕ) → Run (List Animal)
unique zero names = out_of_fuel
unique (suc fuel) [] = ok []
unique (suc fuel) (x ∷ names) =
    let count_animal = tally x (x ∷ names) in
    unique fuel (drop count_animal (x ∷ names)) >>= λ rest.
    ok (record { animal_name = x; count = count_animal } ∷ rest)

-- `find_count != 0`
abbrev pub is_set : ℤ → Bool
is_set (pos zero) = false
is_set (pos (suc n)) = true
is_set (negsuc n) = true

-- `animal_find_name != NULL`
abbrev pub is_given : Option (List ℕ) → Bool
is_given none = false
is_given (some name) = true

-- `ptr->count >= find_count`
abbrev pub is_frequent : ℤ → Animal → Bool
is_frequent find_count a = not (ltb_ℤ (pos a.count) find_count)

-- `strcmp(ptr->animal_name, animal_find_name) == 0`
abbrev pub is_named : Option (List ℕ) → Animal → Bool
is_named none a = false
is_named (some name) a = elim (strcmp a.animal_name name) [ eq ↦ true | _ ↦ false ]

-- The loop that copies the nodes that pass a test to the tail of another list.
unfoldable pub copy_nodes : (Animal → Bool) → List Animal → List Animal
copy_nodes test [] = []
copy_nodes test (a ∷ root) =
    let rest = copy_nodes test root in
    if test a then record { animal_name = a.animal_name; count = a.count } ∷ rest else rest

-- The lists of the module, how many nodes it reports, and how many it got from `kmalloc`.
pub record Module : Type 0 where
  pub root : List Animal
  pub both_root : List Animal
  pub count_root : List Animal
  pub type_root : List Animal
  pub no_root : List Animal
  pub total_nodes : ℕ
  pub allocated : ℕ

-- The second set of nodes, by the filters that are given. The node of the first `kmalloc`, before
-- the names, is on no list.
unfoldable pub second_set : ℤ → Option (List ℕ) → List Animal → Module
unfolding copy_nodes
second_set find_count find_name root =
    let both = copy_nodes (λ a. is_frequent find_count a && is_named find_name a) root in
    let frequent = if is_set find_count then copy_nodes (is_frequent find_count) root else [] in
    let named = if is_given find_name then copy_nodes (is_named find_name) root else [] in
    let all = copy_nodes (λ a. true) root in
    if is_set find_count && is_given find_name
    then record {
      root = root;
      both_root = both;
      count_root = [];
      type_root = [];
      no_root = [];
      total_nodes = length root + length both;
      allocated = 1 + length root + length both;
    }
    else if is_set find_count || is_given find_name
    then record {
      root = root;
      both_root = [];
      count_root = frequent;
      type_root = named;
      no_root = [];
      total_nodes =
          length root
          + (if is_set find_count then length frequent else 0)
          + (if is_given find_name then length named else 0);
      allocated = 1 + length root + length frequent + length named;
    }
    else record {
      root = root;
      both_root = [];
      count_root = [];
      type_root = [];
      no_root = all;
      total_nodes = length root + length all;
      allocated = 1 + length root + length all;
    }

-- The entry function, on the seed array `names_t`.
unfoldable pub animal_ecosystem_start : List (List ℕ) → ℤ → Option (List ℕ) → Run Module
animal_ecosystem_start names_t find_count find_name =
    unique (length names_t + 1) (sort_names (length names_t) names_t) >>= λ root.
    ok (second_set find_count find_name root)

-- The exit function: the nodes that it frees, in order, and the lists that it leaves.
unfoldable pub animal_ecosystem_end : ℤ → Option (List ℕ) → Module → List Animal × Module
animal_ecosystem_end find_count find_name m =
    let counted = if is_set find_count then m.count_root else [] in
    let typed = if is_given find_name then m.type_root else [] in
    if is_set find_count && is_given find_name
    then (m.root ++ m.both_root, record m { root = []; both_root = [] })
    else if is_set find_count || is_given find_name
    then (
      m.root ++ (counted ++ typed),
      record m {
        root = [];
        count_root = if is_set find_count then [] else m.count_root;
        type_root = if is_given find_name then [] else m.type_root;
      },
    )
    else (m.root ++ m.no_root, record m { root = []; no_root = [] })
