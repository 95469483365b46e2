-- ===== src/Tree/Placed.antt =====
-- `list_to_tree` makes the tree of the contract.
use fast_page.Prelude.{
  ℕ, zero, suc, ◌<◌, ◌≡◌, refl, sym, ap, ◌∙◌, Option, none, some, List, [], ◌∷◌, ◌++◌, arith, ◌==◌,
  length, modify_at, length-modify_at, length-append, if◌then◌else◌,
}
use fast_page.Chars.{Text}
use fast_page.Tree.Codes.{parent_structure, code_eq-parent_structure}
use fast_page.Tree.Flat.{
  Ranged, TreeNode, Forest, new_node, find_code, find_parent, add_child, place, add_item,
  new_forest, add_items, list_to_tree,
}
use fast_page.Tree.Parents.{latest, latest_of, parent_of, children_of, nodes_at, onto}

codes_of : List Ranged → List (Option Text × ℕ)
codes_of [] = []
codes_of (item ∷ earlier) = (item.structure, length earlier) ∷ codes_of earlier

find_code-codes_of :
    (p : Text) (earlier : List Ranged) → find_code p (codes_of earlier) ≡ latest p earlier
unfolding find_code codes_of latest
find_code-codes_of p [] = refl
find_code-codes_of p (item ∷ earlier) = ground (arith, find_code-codes_of p earlier)

find_parent-codes_of :
    (item : Ranged) (earlier : List Ranged) (o : Option Text)
    → parent_structure item.structure ≡ o
    → find_parent o (codes_of (item ∷ earlier)) ≡ latest_of o earlier
unfolding codes_of find_code
find_parent-codes_of item earlier none h = refl
find_parent-codes_of item earlier (some p) h =
    rw (code_eq-parent_structure item.structure h) (find_code-codes_of p earlier)

latest-lt :
    (p : Text) (earlier : List Ranged) {i : ℕ} → latest p earlier ≡ some i → i < length earlier
unfolding latest
latest-lt p [] h = cc
latest-lt p (item ∷ earlier) {i} h = ground (arith, latest-lt p earlier {i = i})

latest_of-lt :
    (o : Option Text) (earlier : List Ranged) {i : ℕ}
    → latest_of o earlier ≡ some i
    → i < length earlier
latest_of-lt none earlier h = cc
latest_of-lt (some p) earlier h = latest-lt p earlier h

nodes_at-new :
    (item : Ranged) (j : ℕ) (store : List TreeNode)
    → nodes_at (store ++ (new_node item ∷ [])) j ≡ nodes_at store j
unfolding nodes_at
nodes_at-new item zero [] = refl
nodes_at-new item (suc j) [] = refl
nodes_at-new item zero (t ∷ store) = refl
nodes_at-new item (suc j) (t ∷ store) = nodes_at-new item j store

nodes_at-modify_at :
    (p i j : ℕ) (store : List TreeNode)
    → p < length store
    → nodes_at (modify_at p (add_child i) store) j
      ≡ (if p == j then nodes_at store j ++ (i ∷ []) else nodes_at store j)
unfolding nodes_at
nodes_at-modify_at p i j [] h = absurd (omega arith)
nodes_at-modify_at zero i zero (t ∷ store) h = refl
nodes_at-modify_at zero i (suc j) (t ∷ store) h = ground arith
nodes_at-modify_at (suc p) i zero (t ∷ store) h = ground arith
nodes_at-modify_at (suc p) i (suc j) (t ∷ store) h = ground (arith, nodes_at-modify_at p i j store)

record IsBuilt (b : Forest) (earlier : List Ranged) : Type 0 where
  pub size : length b.store ≡ length earlier
  pub codes_are : b.codes ≡ codes_of earlier
  pub roots_are : b.root_nodes ≡ children_of none earlier
  pub nodes_are : (j : ℕ) → nodes_at b.store j ≡ children_of (some j) earlier

-- The store with the new node, before it is placed
module _ (b : Forest) (earlier : List Ranged) (item : Ranged) (h : IsBuilt b earlier) where
  abbrev codes' : List (Option Text × ℕ)
  codes' = (item.structure, length b.store) ∷ b.codes

  abbrev grown : Forest
  grown = record b { store = b.store ++ (new_node item ∷ []); codes = codes' }

  codes'-codes_of : codes' ≡ codes_of (item ∷ earlier)
  unfolding codes_of
  codes'-codes_of = rw h.size (rw h.codes_are refl)

  parent_is : find_parent (parent_structure item.structure) codes' ≡ parent_of item earlier
  parent_is =
      ap (find_parent (parent_structure item.structure)) codes'-codes_of
      ∙ find_parent-codes_of item earlier (parent_structure item.structure) refl

  grown_size : length grown.store ≡ suc (length earlier)
  grown_size = omega (arith, length-append b.store (new_node item ∷ []), h.size)

  grown_nodes : (j : ℕ) → nodes_at grown.store j ≡ children_of (some j) earlier
  grown_nodes j = nodes_at-new item j b.store ∙ h.nodes_are j

  place-IsBuilt :
      (o : Option ℕ)
      → parent_of item earlier ≡ o
      → IsBuilt (place o (length b.store) grown) (item ∷ earlier)
  unfolding children_of
  place-IsBuilt none root = record {
    size = grown_size;
    codes_are = codes'-codes_of;
    roots_are = rw root (rw h.size (ap (λ rs. rs ++ (length earlier ∷ [])) h.roots_are));
    nodes_are = λ j. rw root (grown_nodes j);
  }
  place-IsBuilt (some p) below = record {
    size = length-modify_at p (add_child (length b.store)) grown.store ∙ grown_size;
    codes_are = codes'-codes_of;
    roots_are = rw below h.roots_are;
    nodes_are = λ j.
        nodes_at-modify_at p (length b.store) j grown.store
          (omega (arith, grown_size, latest_of-lt (parent_structure item.structure) earlier below))
        ∙ (rw below (
            rw h.size
              (ap (λ ns. if p == j then ns ++ (length earlier ∷ []) else ns) (grown_nodes j))));
  }

add_item-IsBuilt :
    (b : Forest) (earlier : List Ranged) (item : Ranged)
    → IsBuilt b earlier
    → IsBuilt (add_item b item) (item ∷ earlier)
unfolding add_item
add_item-IsBuilt b earlier item h =
    place-IsBuilt b earlier item h _ (sym (parent_is b earlier item h))

add_items-IsBuilt :
    (b : Forest) (earlier items : List Ranged)
    → IsBuilt b earlier
    → IsBuilt (add_items b items) (onto items earlier)
unfolding add_items
add_items-IsBuilt b earlier [] h = h
add_items-IsBuilt b earlier (item ∷ items) h =
    add_items-IsBuilt (add_item b item) (item ∷ earlier) items (add_item-IsBuilt b earlier item h)

new_forest-IsBuilt : IsBuilt new_forest []
unfolding codes_of children_of nodes_at
new_forest-IsBuilt = record {
  size = refl;
  codes_are = refl;
  roots_are = refl;
  nodes_are = λ j. refl;
}

-- In the tree of a list there is one node for each item; the children of a node are the items, in
-- their order, whose code less its last part was last taken by that node's item before them, and
-- the roots are those whose code has no such part or for which no earlier item has that code.
pub list_to_tree_lem :
    (items : List Ranged)
    → let tree = list_to_tree items in
      let before = onto items [] in
      (length tree.store ≡ length before)
      × (tree.root_nodes ≡ children_of none before)
      × ((j : ℕ) → nodes_at tree.store j ≡ children_of (some j) before)
unfolding list_to_tree
list_to_tree_lem items =
    let h = add_items-IsBuilt new_forest [] items new_forest-IsBuilt in
    (h.size, h.roots_are, h.nodes_are)
