-- ===== src/Markdown/Outline.antt =====
-- The tree that `build_tree_from_nodes` makes: every section hangs under the nearest earlier
-- section of a smaller level.
use fast_page.Prelude.{
  ℕ, zero, suc, ◌+◌, ◌≤◌, ◌<◌, ◌≡◌, refl, sym, ap, ◌∙◌, Bool, true, false, Option, none, some, List,
  [], ◌∷◌, ◌++◌, arith, ltb, ◌==◌, if◌then◌else◌, length, get_elem?, modify_at, length-modify_at,
  length-append,
}
use fast_page.Markdown.Sections.{Section}
use fast_page.Markdown.Build.{
  TreeNode, Builder, pop_deeper, top, add_child, attach, tree_node, add_node, new_builder,
  add_nodes, build_tree,
}

-- Of the sections before, the last one first: the index of the nearest one of a smaller level
unfoldable pub nearest : ℕ → List Section → Option ℕ
nearest level [] = none
nearest level (s ∷ earlier) =
    let further = nearest level earlier in
    if ltb s.level level then some (length earlier) else further

abbrev pub same_parent : Option ℕ → Option ℕ → Bool
same_parent none none = true
same_parent (some a) (some b) = a == b
same_parent none (some b) = false
same_parent (some a) none = false

-- The sections whose nearest shallower one is the given parent, in their order
unfoldable pub children : Option ℕ → List Section → List ℕ
children parent [] = []
children parent (s ∷ earlier) =
    let before = children parent earlier in
    if same_parent (nearest s.level earlier) parent then before ++ (length earlier ∷ []) else before

open_sections : List Section → List (ℕ × ℕ)
open_sections [] = []
open_sections (s ∷ earlier) = (length earlier, s.level) ∷ pop_deeper s.level (open_sections earlier)

pop_deeper_twice :
    (inner outer : ℕ) (stack : List (ℕ × ℕ))
    → outer ≤ inner
    → pop_deeper outer (pop_deeper inner stack) ≡ pop_deeper outer stack
unfolding pop_deeper
pop_deeper_twice inner outer [] h = refl
pop_deeper_twice inner outer ((n, l) ∷ stack) h = ground (arith, pop_deeper_twice inner outer stack)

top-pop_deeper :
    (level : ℕ) (earlier : List Section)
    → top (pop_deeper level (open_sections earlier)) ≡ nearest level earlier
unfolding pop_deeper open_sections nearest
top-pop_deeper level [] = refl
top-pop_deeper level (s ∷ earlier) =
    ground
      (arith, top-pop_deeper level earlier, pop_deeper_twice s.level level (open_sections earlier))

nearest-lt :
    (level : ℕ) (earlier : List Section) {p : ℕ}
    → nearest level earlier ≡ some p
    → p < length earlier
unfolding nearest
nearest-lt level [] h = cc
nearest-lt level (s ∷ earlier) {p} h = ground (arith, nearest-lt level earlier {p = p})

unfoldable pub child_list : List TreeNode → ℕ → List ℕ
child_list store j = elim (get_elem? store j) [ none ↦ [] | some t ↦ t.nodes ]

child_list-modify_at :
    (p i j : ℕ) (store : List TreeNode)
    → p < length store
    → child_list (modify_at p (add_child i) store) j
      ≡ (if p == j then child_list store j ++ (i ∷ []) else child_list store j)
unfolding child_list
child_list-modify_at p i j [] h = absurd (omega arith)
child_list-modify_at zero i zero (t ∷ store) h = refl
child_list-modify_at zero i (suc j) (t ∷ store) h = ground arith
child_list-modify_at (suc p) i zero (t ∷ store) h = ground arith
child_list-modify_at (suc p) i (suc j) (t ∷ store) h =
    ground (arith, child_list-modify_at p i j store)

child_list-new :
    (s : Section) (k j : ℕ) (store : List TreeNode)
    → child_list (store ++ (tree_node s k ∷ [])) j ≡ child_list store j
unfolding child_list
child_list-new s k zero [] = refl
child_list-new s k (suc j) [] = refl
child_list-new s k zero (t ∷ store) = refl
child_list-new s k (suc j) (t ∷ store) = child_list-new s k j store

-- The builder after some sections, the last one first
built : List Section → Builder
built [] = new_builder
built (s ∷ earlier) = add_node (built earlier) s

length-attach : (p : Option ℕ) (i : ℕ) (b : Builder) → length (attach p i b).store ≡ length b.store
length-attach none i b = refl
length-attach (some p) i b = length-modify_at p (add_child i) b.store

stack-attach : (p : Option ℕ) (i : ℕ) (b : Builder) → (attach p i b).stack ≡ b.stack
stack-attach none i b = refl
stack-attach (some p) i b = refl

-- What the builder holds after some sections: the open sections on the stack, and each node's
-- children and the roots as the nearest shallower sections say.
record IsBuilt (earlier : List Section) (b : Builder) : Type 0 where
  size : length b.store ≡ length earlier
  open_stack : b.stack ≡ open_sections earlier
  roots : b.root_nodes ≡ children none earlier
  kids : (j : ℕ) → child_list b.store j ≡ children (some j) earlier

attach-IsBuilt :
    (s : Section) (earlier : List Section) (b : Builder) (k : ℕ) (parent : Option ℕ)
    → IsBuilt earlier b
    → parent ≡ nearest s.level earlier
    → let node = length b.store in
      IsBuilt (s ∷ earlier) (
        attach parent node (record {
          store = b.store ++ (tree_node s k ∷ []);
          stack = (node, s.level) ∷ pop_deeper s.level b.stack;
          root_nodes = b.root_nodes;
          node_counter = b.node_counter + 1;
        }))
unfolding children open_sections
attach-IsBuilt s earlier b k none h e = record {
  size = omega (arith, length-append b.store (tree_node s k ∷ []), h.size);
  open_stack = rw (h.size, h.open_stack) refl;
  roots = rw (← e, h.size, h.roots) refl;
  kids = λ j. rw (child_list-new, ← e) (h.kids j);
}
attach-IsBuilt s earlier b k (some p) h e =
    let grown = b.store ++ (tree_node s k ∷ []) in
    let size : length grown ≡ suc (length earlier) =
      omega (arith, length-append b.store (tree_node s k ∷ []), h.size) in
    record {
      size = length-modify_at p (add_child (length b.store)) grown ∙ size;
      open_stack = rw (h.size, h.open_stack) refl;
      roots = rw (← e) h.roots;
      kids = λ j.
          child_list-modify_at p (length b.store) j grown
            (omega (arith, nearest-lt s.level earlier (sym e), size))
          ∙ rw (child_list-new, h.size, ← e, h.kids j) refl;
    }

built-IsBuilt : (earlier : List Section) → IsBuilt earlier (built earlier)
unfolding built child_list children open_sections add_node
built-IsBuilt [] = record { size = refl; open_stack = refl; roots = refl; kids = λ j. refl }
built-IsBuilt (s ∷ earlier) =
    let h = built-IsBuilt earlier in
    attach-IsBuilt s earlier (built earlier) (built earlier).node_counter
      (top (pop_deeper s.level (built earlier).stack)) h
      (ap (λ st. top (pop_deeper s.level st)) h.open_stack ∙ top-pop_deeper s.level earlier)

-- The sections, the last one first
abbrev pub reverse_onto : List Section → List Section → List Section
reverse_onto [] earlier = earlier
reverse_onto (s ∷ later) earlier = reverse_onto later (s ∷ earlier)

add_nodes-built :
    (later earlier : List Section)
    → add_nodes (built earlier) later ≡ built (reverse_onto later earlier)
unfolding add_nodes built
add_nodes-built [] earlier = refl
add_nodes-built (s ∷ later) earlier = add_nodes-built later (s ∷ earlier)

-- In the tree of some sections, in the order of the text, the children of each node are the
-- sections whose nearest earlier section of a smaller level it is, and the roots are those with
-- no earlier section of a smaller level; there is one node for each section.
pub build_tree_lem :
    (sections : List Section)
    → let tree = build_tree sections in
      let before = reverse_onto sections [] in
      (length tree.store ≡ length before)
      × (tree.root_nodes ≡ children none before)
      × ((j : ℕ) → child_list tree.store j ≡ children (some j) before)
unfolding build_tree built
build_tree_lem sections =
    let h = built-IsBuilt (reverse_onto sections []) in
    rw (add_nodes-built sections []) (h.size, h.roots, h.kids)
