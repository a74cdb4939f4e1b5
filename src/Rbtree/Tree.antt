-- ===== src/Rbtree/Tree.antt =====
-- Linked trees with parent pointers, and what stands around a subtree. No code: the vocabulary in
-- which the functions of lib/rbtree.c are specified.
use advanced_operating_syste.Prelude.{
  ap, arith, one_if, one_if_self, refl, subst, sym, ◌+◌, ◌<◌, ◌∙◌, ◌≡◌, ◌≢◌, ◌≤◌, ℕ, Bool, true,
  false, not, List, [], ◌∷◌, ◌++◌, count, count-append,
}
use advanced_operating_syste.LinkedList.Store.{null}
use advanced_operating_syste.Rbtree.Store.{Nodes}

-- `branch red l x r`.
pub data Tree : Type 0 where
  leaf : Tree
  branch : Bool → Tree → ℕ → Tree → Tree

abbrev pub inorder : Tree → List ℕ
inorder leaf = []
inorder (branch red l x r) = inorder l ++ x ∷ inorder r

-- The node `x` with the subtree `near` on its side `dir`, and `far` on the other.
abbrev pub node_at : Bool → Bool → Tree → ℕ → Tree → Tree
node_at false red near x far = branch red near x far
node_at true red near x far = branch red far x near

-- From `a` on, whose parent is `par`, the nodes hang together as the tree.
abbrev pub IsLinked : Nodes → ℕ → ℕ → Tree → Type 0
IsLinked s par a leaf = a ≡ null
IsLinked s par a (branch red l x r) =
    (a ≡ x)
    × (x ≢ null)
    × (s.parent x ≡ par)
    × (s.is_red x ≡ red)
    × IsLinked s x (s.child false x) l
    × IsLinked s x (s.child true x) r

-- A node `above` a subtree, `frame side red above sibling`: the subtree is its child on the side
-- `side`, `sibling` is the other one.
pub data Frame : Type 0 where
  frame : Bool → Bool → ℕ → Tree → Frame

abbrev pub frame_side : Frame → Bool
frame_side (frame side red above sibling) = side

abbrev pub frame_red : Frame → Bool
frame_red (frame side red above sibling) = red

abbrev pub frame_node : Frame → ℕ
frame_node (frame side red above sibling) = above

abbrev pub frame_sibling : Frame → Tree
frame_sibling (frame side red above sibling) = sibling

-- What stands around the subtree at `a` with the parent `par`, from there up to the root.
abbrev pub IsContext : Nodes → ℕ → ℕ → List Frame → Type 0
IsContext s par a [] = (s.root ≡ a) × (par ≡ null)
IsContext s par a (f ∷ fs) =
    (par ≡ (frame_node f))
    × ((frame_node f) ≢ null)
    × (s.child (frame_side f) (frame_node f) ≡ a)
    × (s.is_red (frame_node f) ≡ (frame_red f))
    × IsLinked s (frame_node f) (s.child (not (frame_side f)) (frame_node f)) (frame_sibling f)
    × IsContext s (s.parent (frame_node f)) (frame_node f) fs

abbrev pub nodes_around : List Frame → List ℕ
nodes_around [] = []
nodes_around (f ∷ fs) = (frame_node f) ∷ inorder (frame_sibling f) ++ nodes_around fs

abbrev pub plug : Tree → List Frame → Tree
plug t [] = t
plug t (f ∷ fs) = plug (node_at (frame_side f) (frame_red f) t (frame_node f) (frame_sibling f)) fs

-- A node does not stand twice in a tree and around it.
abbrev pub IsDistinct : Tree → List Frame → Type 0
IsDistinct t fs = (p : ℕ) → count p (inorder t) + count p (nodes_around fs) ≤ 1

pub IsLinked-node_at :
    (s : Nodes) (par a : ℕ) (dir red : Bool) (near : Tree) (x : ℕ) (far : Tree)
    → IsLinked s par a (node_at dir red near x far)
    → (a ≡ x)
      × (x ≢ null)
      × (s.parent x ≡ par)
      × (s.is_red x ≡ red)
      × IsLinked s x (s.child dir x) near
      × IsLinked s x (s.child (not dir) x) far
IsLinked-node_at s par a false red near x far h = h
IsLinked-node_at s par a true red near x far (e, n, p, c, l, r) = (e, n, p, c, r, l)

pub node_at-IsLinked :
    (s : Nodes) (par : ℕ) (dir red : Bool) (near : Tree) (x : ℕ) (far : Tree)
    → x ≢ null
    → s.parent x ≡ par
    → s.is_red x ≡ red
    → IsLinked s x (s.child dir x) near
    → IsLinked s x (s.child (not dir) x) far
    → IsLinked s par x (node_at dir red near x far)
node_at-IsLinked s par false red near x far n p c l r = (refl, n, p, c, l, r)
node_at-IsLinked s par true red near x far n p c l r = (refl, n, p, c, r, l)

pub count-node_at :
    (p : ℕ) (dir red : Bool) (near : Tree) (x : ℕ) (far : Tree)
    → count p (inorder (node_at dir red near x far))
      ≡ one_if x p + count p (inorder near) + count p (inorder far)
count-node_at p false red near x far =
    omega (arith, count-append p (inorder near) (x ∷ inorder far))
count-node_at p true red near x far = omega (arith, count-append p (inorder far) (x ∷ inorder near))

-- Both stores have the same fields at a node.
pub record SameAt (s g : Nodes) (p : ℕ) : Type 0 where
  pub parent : g.parent p ≡ s.parent p
  pub child : (dir : Bool) → g.child dir p ≡ s.child dir p
  pub is_red : g.is_red p ≡ s.is_red p

module _ (s g : Nodes) where
  pub frame-IsLinked :
      (par a : ℕ) (t : Tree)
      → ((p : ℕ) → 0 < count p (inorder t) → SameAt s g p)
      → IsLinked s par a t
      → IsLinked g par a t
  frame-IsLinked par a leaf same h = h
  frame-IsLinked par a (branch red l x r) same (e, n, p, c, lhs, rhs) =
      let here : SameAt s g x =
        same x (omega (arith, count-append x (inorder l) (x ∷ inorder r), one_if_self x)) in
      (
        e,
        n,
        here.parent ∙ p,
        here.is_red ∙ c,
        subst (λ b. IsLinked g x b l) (sym (here.child false))
            (frame-IsLinked x (s.child false x) l
              (λ q i. same q (omega (arith, i, count-append q (inorder l) (x ∷ inorder r)))) lhs),
        subst (λ b. IsLinked g x b r) (sym (here.child true))
            (frame-IsLinked x (s.child true x) r
              (λ q i. same q (omega (arith, i, count-append q (inorder l) (x ∷ inorder r)))) rhs),
      )

  pub frame-IsContext :
      (par a : ℕ) (fs : List Frame)
      → ((p : ℕ) → 0 < count p (nodes_around fs) → SameAt s g p)
      → g.root ≡ s.root
      → IsContext s par a fs
      → IsContext g par a fs
  frame-IsContext par a [] same o (e, p) = (o ∙ e, p)
  frame-IsContext par a (f ∷ fs) same o (p, n, c, k, sib, up) =
      let here : SameAt s g (frame_node f) =
        same (frame_node f) (omega (arith, one_if_self (frame_node f))) in
      (
        p,
        n,
        here.child (frame_side f) ∙ c,
        here.is_red ∙ k,
        subst (λ b. IsLinked g (frame_node f) b (frame_sibling f))
            (sym (here.child (not (frame_side f))))
            (frame-IsLinked (frame_node f) (s.child (not (frame_side f)) (frame_node f))
              (frame_sibling f)
              (λ q i.
                same q
                  (omega (arith, i, count-append q (inorder (frame_sibling f)) (nodes_around fs))))
              sib),
        subst (λ b. IsContext g b (frame_node f) fs) (sym here.parent)
            (frame-IsContext (s.parent (frame_node f)) (frame_node f) fs
              (λ q i.
                same q
                  (omega (arith, i, count-append q (inorder (frame_sibling f)) (nodes_around fs))))
              o up),
      )

pub root_in :
    (s : Nodes) (par a : ℕ) (t : Tree) → IsLinked s par a t → a ≢ null → 0 < count a (inorder t)
root_in s par a leaf e h = absurd (h e)
root_in s par a (branch red l x r) (e, n, p, c, lhs, rhs) h =
    ground (arith, count-append a (inorder l) (x ∷ inorder r))

pub parent_in :
    (s : Nodes) (par a : ℕ) (fs : List Frame)
    → IsContext s par a fs
    → par ≢ null
    → 0 < count par (nodes_around fs)
parent_in s par a [] (e, p) h = absurd (h p)
parent_in s par a (f ∷ fs) (p, n, c, k, sib, up) h = ground arith

-- The root of a tree gets another parent.
pub reparent-IsLinked :
    (s g : Nodes) (par par' a : ℕ) (t : Tree)
    → IsLinked s par a t
    → ((p : ℕ) → count p (inorder t) ≤ 1)
    → (a ≢ null → (g.parent a ≡ par') × ((dir : Bool) → g.child dir a ≡ s.child dir a))
    → (a ≢ null → g.is_red a ≡ s.is_red a)
    → ((p : ℕ) → 0 < count p (inorder t) → p ≢ a → SameAt s g p)
    → IsLinked g par' a t
reparent-IsLinked s g par par' a leaf h once at red away = h
reparent-IsLinked s g par par' a (branch red l x r) (e, n, p, c, lhs, rhs) once at color away =
    let a0 : a ≢ null = λ z. n (sym e ∙ z) in
    let one = λ (q : ℕ). count-append q (inorder l) (x ∷ inorder r) in
    let apart_l : (q : ℕ) → 0 < count q (inorder l) → q ≢ a =
      λ q i z. ground (arith, once a, one a) in
    let apart_r : (q : ℕ) → 0 < count q (inorder r) → q ≢ a =
      λ q i z. ground (arith, once a, one a) in
    let here = at a0 in
    (
      e,
      n,
      subst (λ y. g.parent y ≡ par') e here.0,
      subst (λ y. g.is_red y ≡ red) e (color a0 ∙ (ap s.is_red e ∙ c)),
      subst (λ b. IsLinked g x b l)
          (sym (subst (λ y. g.child false y ≡ s.child false y) e (here.1 false)))
          (frame-IsLinked s g x (s.child false x) l
            (λ q i. away q (omega (arith, i, one q)) (apart_l q i)) lhs),
      subst (λ b. IsLinked g x b r)
          (sym (subst (λ y. g.child true y ≡ s.child true y) e (here.1 true)))
          (frame-IsLinked s g x (s.child true x) r
            (λ q i. away q (omega (arith, i, one q)) (apart_r q i)) rhs),
    )
