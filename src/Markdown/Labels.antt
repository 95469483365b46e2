-- ===== src/Markdown/Labels.antt =====
-- The nodes of the tree are the sections, in order and numbered.
use fast_page.Prelude.{
  ℕ, suc, ◌+◌, ◌≡◌, refl, sym, ap, Option, none, some, List, [], ◌∷◌, ◌++◌, map, modify_at,
  append_assoc, append-nil,
}
use fast_page.Chars.{Text}
use fast_page.Markdown.Sections.{Section}
use fast_page.Markdown.Build.{
  TreeNode, Builder, decimal, zfill, add_child, attach, tree_node, add_node, add_nodes, build_tree,
}

-- A node without its children
abbrev pub label : TreeNode → Text × Text × Text × ℕ
label t = (t.title, t.node_id, t.body, t.line_num)

abbrev pub labels_from : ℕ → List Section → List (Text × Text × Text × ℕ)
labels_from n [] = []
labels_from n (s ∷ ss) = (s.title, zfill 4 (decimal n), s.body, s.line_num) ∷ labels_from (n + 1) ss

labels-modify_at :
    (p i : ℕ) (store : List TreeNode)
    → map label (modify_at p (add_child i) store) ≡ map label store
labels-modify_at p i [] = refl
labels-modify_at ℕ.zero i (t ∷ store) = refl
labels-modify_at (suc p) i (t ∷ store) = ap (λ r. label t ∷ r) (labels-modify_at p i store)

labels-attach :
    (parent : Option ℕ) (i : ℕ) (b : Builder)
    → map label (attach parent i b).store ≡ map label b.store
labels-attach none i b = refl
labels-attach (some p) i b = labels-modify_at p i b.store

counter-attach :
    (parent : Option ℕ) (i : ℕ) (b : Builder) → (attach parent i b).node_counter ≡ b.node_counter
counter-attach none i b = refl
counter-attach (some p) i b = refl

labels-append : (xs ys : List TreeNode) → map label (xs ++ ys) ≡ map label xs ++ map label ys
labels-append [] ys = refl
labels-append (x ∷ xs) ys = ap (λ r. label x ∷ r) (labels-append xs ys)

labels-add_nodes :
    (b : Builder) (ss : List Section)
    → map label (add_nodes b ss).store ≡ map label b.store ++ labels_from b.node_counter ss
unfolding add_nodes add_node
labels-add_nodes b [] = sym (append-nil (map label b.store))
labels-add_nodes b (s ∷ ss) =
    rw (labels-add_nodes (add_node b s) ss, labels-attach, counter-attach, labels-append)
      (append_assoc (map label b.store) (label (tree_node s b.node_counter) ∷ [])
        (labels_from (b.node_counter + 1) ss))

-- The tree holds each section once, in the order of the text, with its title, text and line
-- number, and numbers them from 0001 on.
pub labels-build_tree :
    (sections : List Section) → map label (build_tree sections).store ≡ labels_from 1 sections
unfolding build_tree
labels-build_tree sections = labels-add_nodes _ sections
