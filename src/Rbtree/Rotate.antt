-- ===== src/Rbtree/Rotate.antt =====
-- rotate_node of lib/rbtree.c.
use advanced_operating_syste.Rbtree.Store.{same_dir, Nodes, update_child}
use advanced_operating_syste.Rbtree.Tree.{SameAt}
use advanced_operating_syste.Prelude.{
  refl, Bool-cases, arith, if◌then◌else◌, inl, inr, some, ◌==◌, ◌≡◌, ◌≢◌, ℕ, Bool, true, false, not,
}
use advanced_operating_syste.Rbtree.{rotate_node}
use advanced_operating_syste.LinkedList.Store.{null, update}

-- The store that a rotation of `n` leaves behind: `c` is its child, `b` the child between the two,
-- `par` its parent and `side` the side on which it hangs there.
abbrev pub rotated : Nodes → ℕ → ℕ → ℕ → ℕ → Bool → Bool → Nodes
rotated s n c b par d side =
    let bent = update_child (update_child s.child (not d) n b) d c n in
    record {
      root = if par == null then c else s.root;
      parent = update (update (if b == null then s.parent else update s.parent b n) c par) n c;
      child = if par == null then bent else update_child bent side par c;
      is_red = s.is_red;
    }

pub rotate_node-rotated :
    (s : Nodes) (n c b par : ℕ) (d side : Bool)
    → n ≢ null
    → c ≢ null
    → s.parent n ≡ par
    → s.child (not d) n ≡ c
    → s.child d c ≡ b
    → par ≢ n
    → par ≢ c
    → (s.child true par == n) ≡ side
    → rotate_node n d s ≡ some (tt, rotated s n c b par d side)
unfolding rotate_node
rotate_node-rotated s n c b par d side n0 c0 ep ec eb pn pc es =
    let n1 : (n == null) ≡ false = ground arith in
    let c1 : (c == null) ≡ false = ground arith in
    let pn1 : (par == n) ≡ false = ground arith in
    let pc1 : (par == c) ≡ false = ground arith in
    elim (Bool-cases (b == null)) [
      | inl be ↦ elim (Bool-cases (par == null)) [
        | inl pe ↦ simp (n1, c1, ep, ec, eb, be, pe) refl
        | inr pe ↦ simp (n1, c1, ep, ec, eb, be, pe, pc1, pn1, es) refl
      ]
      | inr be ↦ elim (Bool-cases (par == null)) [
        | inl pe ↦ simp (n1, c1, ep, ec, eb, be, pe) refl
        | inr pe ↦ simp (n1, c1, ep, ec, eb, be, pe, pc1, pn1, es) refl
      ]
    ]

pub same_dir_self : (d : Bool) → same_dir d d ≡ true
same_dir_self true = refl
same_dir_self false = refl

pub same_dir-not : (d : Bool) → (same_dir d (not d) ≡ false) × (same_dir (not d) d ≡ false)
same_dir-not true = (refl, refl)
same_dir-not false = (refl, refl)

pub neq : (a b : ℕ) → a ≢ b → (a == b) ≡ false
neq a b h = ground arith

-- What a rotation changes, node by node.
module _ (s : Nodes) (n c b par : ℕ) (d side : Bool) (nc : n ≢ c) (pn : par ≢ n)
    (pc : par ≢ c) where
  abbrev after : Nodes
  after = rotated s n c b par d side

  pub far_away :
      (p : ℕ) → p ≢ n → p ≢ c → (b ≢ null → p ≢ b) → (par ≢ null → p ≢ par) → SameAt s after p
  far_away p hn hc hb hp = record {
    parent = ground arith;
    child = λ dir. ground arith;
    is_red = refl;
  }

  pub at_n : (after.parent n ≡ c) × (after.child (not d) n ≡ b) × (after.child d n ≡ s.child d n)
  at_n = (
    ground arith,
    ground (arith, same_dir_self (not d), same_dir-not d),
    ground (arith, same_dir-not d),
  )

  pub at_c :
      (after.parent c ≡ par) × (after.child d c ≡ n) × (after.child (not d) c ≡ s.child (not d) c)
  at_c = (ground arith, ground (arith, same_dir_self d), ground (arith, same_dir-not d))

  pub at_b :
      b ≢ null
      → b ≢ n
      → b ≢ c
      → (par ≢ null → b ≢ par)
      → (after.parent b ≡ n) × ((dir : Bool) → after.child dir b ≡ s.child dir b)
  at_b b0 bn bc bp = (ground arith, λ dir. ground arith)

  pub at_par :
      par ≢ null
      → (b ≢ null → b ≢ par)
      → (after.parent par ≡ s.parent par)
        × (after.child side par ≡ c)
        × (after.child (not side) par ≡ s.child (not side) par)
  at_par p0 bp =
      (ground arith, ground (arith, same_dir_self side), ground (arith, same_dir-not side))
