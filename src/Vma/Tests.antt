-- ===== src/Vma/Tests.antt =====
-- Runs of the search tree of areas, and its theorems at a concrete tree.
use advanced_operating_syste.Prelude.{
  Bool, arith, if◌then◌else◌, refl, some, ℕ, ◌*◌, ◌+◌, ◌==◌, ◌≡◌,
}
use advanced_operating_syste.Vma.{Areas, find_vma, task_find_vma}
use advanced_operating_syste.Vma.Find.{find_vma-first_above, first_above}
use advanced_operating_syste.Vma.Owner.{Owns, task_find_vma-Owns}
use advanced_operating_syste.Vma.Tree.{IsSearch, IsTree, Tree, inorder, leaf, branch}

-- Area k goes from 20 k to 20 k + 10; 2 is the root, 1 and 3 are its children, 4 is not linked.
abbrev three : Areas
three = record {
  vm_base = λ p. 20 * p;
  vm_end = λ p. 20 * p + 10;
  child = λ d p. if p == 2 then (if d then 3 else 1) else 0;
}

abbrev three_tree : Tree
three_tree = branch (branch leaf 1 leaf) 2 (branch leaf 3 leaf)

three-IsTree : IsTree three 2 three_tree
three-IsTree = (refl, omega arith, (refl, omega arith, refl, refl), (refl, omega arith, refl, refl))

three-IsSearch : IsSearch three 0 100 three_tree
three-IsSearch =
    (omega arith, (omega arith, omega arith, omega arith), (omega arith, omega arith, omega arith))

gap_run : task_find_vma 9 three 2 55 ≡ some 0
unfolding task_find_vma
gap_run = refl

find_vma_example :
    (at : ℕ) × (way : Bool) × (find_vma 9 three 2 55
      ≡ some (first_above three 55 0 (inorder three_tree), at, way))
find_vma_example =
    find_vma-first_above 9 three three_tree 2 55 0 100 three-IsTree three-IsSearch (omega arith)

task_find_vma_example : (v : ℕ) × (task_find_vma 9 three 2 45 ≡ some v) × Owns three three_tree 45 v
task_find_vma_example =
    task_find_vma-Owns 9 three three_tree 2 45 0 100 three-IsTree three-IsSearch (omega arith)
