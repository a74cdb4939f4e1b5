-- ===== src/Vma/SpaceTests.antt =====
-- Runs of insert_vma.
use advanced_operating_syste.Rbtree.Tree.{leaf, branch}
use advanced_operating_syste.Prelude.{
  arith, if◌then◌else◌, ◌==◌, List, Option, [], false, none, refl, some, ℕ, ◌+◌, ◌∷◌, ◌≡◌,
}
use advanced_operating_syste.Prelude.Int.{pos, negsuc, ℤ}
use advanced_operating_syste.LinkedList.{list_foreach}
use advanced_operating_syste.Vma.Whole.{Inserts, insert_vma-Inserts}
use advanced_operating_syste.Vma.Space.{Space, insert_vma}

-- Area p goes from p to p + 100; the list hangs on 8.
abbrev nothing : Space
nothing = record {
  nodes = record { root = 0; parent = λ p. 0; child = λ d p. 0; is_red = λ p. false };
  links = record { next = λ p. p; prev = λ p. p };
  vm_base = λ p. p;
  vm_end = λ p. p + 100;
}

abbrev then_insert : ℕ → Option (ℤ × Space) → Option (ℤ × Space)
then_insert vma none = none
then_insert vma (some (ret, s)) = insert_vma 5 8 vma s

-- The root of the tree and the list from its head on.
abbrev seen : Option (ℤ × Space) → Option (ℤ × ℕ × Option (List ℕ))
seen none = none
seen (some (ret, s)) = some (ret, s.nodes.root, list_foreach 9 8 (s.links.next 8) s.links)

insert_run :
    seen (then_insert 600 (then_insert 400 (then_insert 200 (some (pos 0, nothing)))))
    ≡ some (pos 0, 400, some (232 ∷ 432 ∷ 632 ∷ []))
unfolding insert_vma list_foreach
insert_run = refl

overlap_run :
    seen (then_insert 250 (then_insert 200 (some (pos 0, nothing))))
    ≡ some (negsuc 0, 200, some (232 ∷ []))
unfolding insert_vma list_foreach
overlap_run = refl

-- One area, from 200 to 300.
abbrev one_area : Space
one_area = record nothing {
  nodes = record { root = 200; parent = λ p. 0; child = λ d p. 0; is_red = λ p. false };
  links = record {
    next = λ p. if p == 8 then 232 else (if p == 232 then 8 else p);
    prev = λ p. if p == 8 then 232 else (if p == 232 then 8 else p);
  };
}

insert_vma_example :
    Inserts (insert_vma 5 8 400 one_area) one_area 8 0 1000 400 (branch false leaf 200 leaf)
insert_vma_example =
    insert_vma-Inserts 5 one_area 8 0 1000 400 (branch false leaf 200 leaf) 1
      (record {
        linked = (refl, omega arith, refl, refl, refl, refl);
        red_black = (0, refl, refl, refl);
        once = λ p. ground arith;
        ordered = (omega arith, omega arith, omega arith);
        listed = record {
          chain = (refl, refl, (refl, refl));
          distinct = λ p. ground arith;
          nonnull = refl;
        };
      })
      (record {
        ne_null = omega arith;
        outside = refl;
        no_children = λ d. refl;
        no_parent = refl;
        unlisted = record { ne_null = omega arith; outside = refl };
        above = omega arith;
        not_empty = omega arith;
        below = omega arith;
      })
      (omega arith)
