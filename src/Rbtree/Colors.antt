-- ===== src/Rbtree/Colors.antt =====
-- Red-black trees: no red node below a red one, and the same number of black nodes on every way down.
use advanced_operating_syste.Rbtree.Tree.{
  frame_node, frame_sibling, frame_red, frame_side, Tree, leaf, branch, Frame, node_at, plug,
  inorder,
}
use advanced_operating_syste.Prelude.{
  ap, arith, refl, sym, ◌&&◌, ◌≡◌, ℕ, suc, Bool, true, false, not, List, [], ◌∷◌, ◌++◌,
}
use mathlib.Core.List.{append_assoc}

-- A tree with `h` black nodes on every way down, below a node that is red or not.
abbrev pub IsRedBlack : Bool → Tree → ℕ → Type 0
IsRedBlack above leaf h = h ≡ 0
IsRedBlack above (branch true l x r) h = (above ≡ false) × IsRedBlack true l h × IsRedBlack true r h
IsRedBlack above (branch false l x r) h =
    (k : ℕ) × (h ≡ suc k) × IsRedBlack false l k × IsRedBlack false r k

abbrev pub higher : Bool → ℕ → ℕ
higher true h = h
higher false h = suc h

-- What stands around a tree with `h` black nodes on every way down, below which the node is red or
-- not; the root is black.
abbrev pub IsAround : Bool → List Frame → ℕ → Type 0
IsAround red [] h = red ≡ false
IsAround red (f ∷ fs) h =
    ((red && (frame_red f)) ≡ false)
    × IsRedBlack (frame_red f) (frame_sibling f) h
    × IsAround (frame_red f) fs (higher (frame_red f) h)

-- Whether the node above is red; the root may not be red.
abbrev pub red_above : List Frame → Bool
red_above [] = true
red_above (f ∷ fs) = (frame_red f)

pub below_black : (t : Tree) (h : ℕ) → IsRedBlack true t h → IsRedBlack false t h
below_black leaf h r = r
below_black (branch true l x r) h (e, ls, rs) = cc e
below_black (branch false l x r) h rb = rb

pub node_at-IsRedBlack :
    (above side red : Bool) (near : Tree) (x : ℕ) (far : Tree) (h : ℕ)
    → ((above && red) ≡ false)
    → IsRedBlack red near h
    → IsRedBlack red far h
    → IsRedBlack above (node_at side red near x far) (higher red h)
node_at-IsRedBlack above false true near x far h a n f = (ground arith, n, f)
node_at-IsRedBlack above true true near x far h a n f = (ground arith, f, n)
node_at-IsRedBlack above false false near x far h a n f = (h, refl, n, f)
node_at-IsRedBlack above true false near x far h a n f = (h, refl, f, n)

pub plug-IsRedBlack :
    (fs : List Frame) (red : Bool) (t : Tree) (h : ℕ)
    → IsAround red fs h
    → IsRedBlack (red_above fs) t h
    → (k : ℕ) × IsRedBlack true (plug t fs) k
plug-IsRedBlack [] red t h a r = (h, r)
plug-IsRedBlack (f ∷ []) red t h (c, s, a) r =
    plug-IsRedBlack [] (frame_red f)
      (node_at (frame_side f) (frame_red f) t (frame_node f) (frame_sibling f))
      (higher (frame_red f) h) a
      (node_at-IsRedBlack true (frame_side f) (frame_red f) t (frame_node f) (frame_sibling f) h
        (ground (arith, a)) r s)
plug-IsRedBlack (f ∷ g ∷ fs) red t h (c, s, a) r =
    plug-IsRedBlack (g ∷ fs) (frame_red f)
      (node_at (frame_side f) (frame_red f) t (frame_node f) (frame_sibling f))
      (higher (frame_red f) h) a
      (node_at-IsRedBlack (frame_red g) (frame_side f) (frame_red f) t (frame_node f)
        (frame_sibling f) h (ground (arith, a.0)) r s)

-- The root made black.
abbrev pub blacken : Tree → Tree
blacken leaf = leaf
blacken (branch red l x r) = branch false l x r

pub blacken_black : (t : Tree) (h : ℕ) → IsRedBlack true t h → blacken t ≡ t
blacken_black leaf h r = refl
blacken_black (branch true l x r) h (e, ls, rs) = cc e
blacken_black (branch false l x r) h rb = refl

pub inorder-blacken : (t : Tree) → inorder (blacken t) ≡ inorder t
inorder-blacken leaf = refl
inorder-blacken (branch red l x r) = refl

pub flip :
    (d red : Bool) (near : Tree) (x : ℕ) (far : Tree)
    → node_at (not d) red near x far ≡ node_at d red far x near
flip true red near x far = refl
flip false red near x far = refl

node_at-inorder :
    (side c c' : Bool) (t t' : Tree) (x : ℕ) (far : Tree)
    → inorder t ≡ inorder t'
    → inorder (node_at side c t x far) ≡ inorder (node_at side c' t' x far)
node_at-inorder true c c' t t' x far e = ap (λ l. inorder far ++ x ∷ l) e
node_at-inorder false c c' t t' x far e = ap (λ l. l ++ x ∷ inorder far) e

-- The nodes in order depend on those of the tree inside.
pub plug-inorder :
    (fs : List Frame) (t t' : Tree)
    → inorder t ≡ inorder t'
    → inorder (plug t fs) ≡ inorder (plug t' fs)
plug-inorder [] t t' e = e
plug-inorder (f ∷ fs) t t' e =
    plug-inorder fs (node_at (frame_side f) (frame_red f) t (frame_node f) (frame_sibling f))
      (node_at (frame_side f) (frame_red f) t' (frame_node f) (frame_sibling f))
      (node_at-inorder (frame_side f) (frame_red f) (frame_red f) t t' (frame_node f)
        (frame_sibling f) e)

-- A rotation keeps the order, whatever the colors.
pub turned-inorder :
    (d a b a' b' : Bool) (near inner far : Tree) (n c : ℕ)
    → inorder (node_at d a near n (node_at d b inner c far))
      ≡ inorder (node_at d a' (node_at d b' near n inner) c far)
turned-inorder false a b a' b' near inner far n c =
    sym (append_assoc (inorder near) (n ∷ inorder inner) (c ∷ inorder far))
turned-inorder true a b a' b' near inner far n c =
    append_assoc (inorder far) (c ∷ inorder inner) (n ∷ inorder near)
