-- ===== src/Tree/Flat.antt =====
-- `list_to_tree` and `post_processing`. Nodes are numbered in the order of the list: the code keeps
-- pointers to them in its dict. A node without children loses its empty list at the end.
use fast_page.Prelude.{
  ℕ, String, Bool, Option, none, some, List, [], ◌∷◌, ◌++◌, length, modify_at, if◌then◌else◌,
}
use fast_page.Prelude.Int.{ℤ, pos, ◌-ℤ◌}
use fast_page.Chars.{Text}
use fast_page.Tree.Codes.{parent_structure, code_eq}

-- An entry with an index, and whether `appear_start` is "yes"
pub record FlatItem : Type 0 where
  pub structure : Option Text
  pub title : String
  pub physical_index : ℤ
  pub appear_start : Bool

pub record Ranged : Type 0 where
  pub structure : Option Text
  pub title : String
  pub start_index : ℤ
  pub end_index : ℤ

abbrev pub ranged : FlatItem → ℤ → Ranged
ranged item stop = record {
  structure = item.structure;
  title = item.title;
  start_index = item.physical_index;
  end_index = stop;
}

-- An item ends before the next one, or on its page if that does not start on top of it.
abbrev pub end_before : FlatItem → ℤ
end_before next = if next.appear_start then next.physical_index -ℤ pos 1 else next.physical_index

abbrev pub end_of : List FlatItem → ℤ → ℤ
end_of [] end_physical_index = end_physical_index
end_of (next ∷ rest) end_physical_index = end_before next

unfoldable pub assign_ranges : ℤ → List FlatItem → List Ranged
assign_ranges end_physical_index [] = []
assign_ranges end_physical_index (item ∷ items) =
    ranged item (end_of items end_physical_index) ∷ assign_ranges end_physical_index items

pub record TreeNode : Type 0 where
  pub title : String
  pub start_index : ℤ
  pub end_index : ℤ
  pub nodes : List ℕ

pub record Forest : Type 0 where
  pub store : List TreeNode
  pub codes : List (Option Text × ℕ)
  pub root_nodes : List ℕ

abbrev pub new_node : Ranged → TreeNode
new_node item = record {
  title = item.title;
  start_index = item.start_index;
  end_index = item.end_index;
  nodes = [];
}

-- `nodes[parent_structure]`: the node that took the key last
unfoldable pub find_code : Text → List (Option Text × ℕ) → Option ℕ
find_code p [] = none
find_code p ((code, i) ∷ codes) =
    let older = find_code p codes in if code_eq code p then some i else older

abbrev pub find_parent : Option Text → List (Option Text × ℕ) → Option ℕ
find_parent none codes = none
find_parent (some p) codes = find_code p codes

abbrev pub add_child : ℕ → TreeNode → TreeNode
add_child i t = record t { nodes = t.nodes ++ (i ∷ []) }

abbrev pub place : Option ℕ → ℕ → Forest → Forest
place none i b = record b { root_nodes = b.root_nodes ++ (i ∷ []) }
place (some p) i b = record b { store = modify_at p (add_child i) b.store }

unfoldable pub add_item : Forest → Ranged → Forest
unfolding find_code
add_item b item =
    let i = length b.store in
    let codes = (item.structure, i) ∷ b.codes in
    place (find_parent (parent_structure item.structure) codes) i
      (record b { store = b.store ++ (new_node item ∷ []); codes = codes })

abbrev pub new_forest : Forest
new_forest = record { store = []; codes = []; root_nodes = [] }

unfoldable pub add_items : Forest → List Ranged → Forest
unfolding add_item
add_items b [] = b
add_items b (item ∷ items) = add_items (add_item b item) items

unfoldable pub list_to_tree : List Ranged → Forest
unfolding add_items
list_to_tree items = add_items new_forest items

unfoldable pub post_processing : List FlatItem → ℤ → Forest
unfolding assign_ranges list_to_tree
post_processing structure end_physical_index =
    list_to_tree (assign_ranges end_physical_index structure)
