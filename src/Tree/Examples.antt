-- ===== src/Tree/Examples.antt =====
-- A table of contents with a missing parent.
use fast_page.Prelude.{
  Has, ℕ, ◌≡◌, refl, String, Bool, true, false, none, some, List, [], ◌∷◌, map, length,
}
use fast_page.Prelude.Int.{pos}
use fast_page.Chars.{Text, text_eq}
use fast_page.Tree.Codes.{before_last_dot}
use fast_page.Tree.Flat.{
  FlatItem, Ranged, assign_ranges, find_code, add_item, add_items, list_to_tree, post_processing,
}
use fast_page.Tree.Parents.{children_of, nodes_at, onto}
use fast_page.Tree.Placed.{list_to_tree_lem}
use fast_page.Markdown.Build.{decimal, zfill}
use fast_page.Tree.Nodes.{
  Doc, doc, Docs, nil, cons, id_text, write_node_ids, structures_to_list, node_id, find_node,
  node_mapping,
}
use fast_page.Tree.Ids.{ids_from, data_of, write_node_ids_lem}

abbrev item : Text → String → ℕ → Bool → FlatItem
item code title page on_top = record {
  structure = some code;
  title = title;
  physical_index = pos page;
  appear_start = on_top;
}

-- 1, 1.1, 3.1 and 2
abbrev items : List FlatItem
items =
    item (b'1' ∷ []) "One" 1 true
    ∷ item (b'1' ∷ b'.' ∷ b'1' ∷ []) "First" 2 false
    ∷ item (b'3' ∷ b'.' ∷ b'1' ∷ []) "Lost" 4 true
    ∷ item (b'2' ∷ []) "Two" 6 true
    ∷ []

abbrev flat : List Ranged
flat =
    record { structure = some (b'1' ∷ []); title = "One"; start_index = pos 1; end_index = pos 2 }
    ∷ record {
      structure = some (b'1' ∷ b'.' ∷ b'1' ∷ []);
      title = "First";
      start_index = pos 2;
      end_index = pos 3;
    }
    ∷ []

roots : (post_processing items (pos 9)).root_nodes ≡ 0 ∷ 2 ∷ 3 ∷ []
unfolding post_processing list_to_tree assign_ranges add_items add_item find_code before_last_dot
    text_eq
roots = refl

under_one : nodes_at (post_processing items (pos 9)).store 0 ≡ 1 ∷ []
unfolding post_processing list_to_tree assign_ranges add_items add_item find_code before_last_dot
    text_eq nodes_at
under_one = refl

list_to_tree_lem_example :
    let tree = list_to_tree flat in
    (length tree.store ≡ 2)
    × (tree.root_nodes ≡ children_of none (onto flat []))
    × ((j : ℕ) → nodes_at tree.store j ≡ children_of (some j) (onto flat []))
list_to_tree_lem_example = list_to_tree_lem flat

abbrev small_tree : Docs String
small_tree = cons (doc "One" [] (cons (doc "First" [] nil) nil)) (cons (doc "Two" [] nil) nil)

second_id :
    node_mapping (write_node_ids small_tree 0).0 (id_text 1) ≡ some (doc "First" (id_text 1) nil)
unfolding node_mapping write_node_ids structures_to_list find_node decimal zfill text_eq
second_id = refl

write_node_ids_lem_example :
    let written = (write_node_ids small_tree 0).0 in
    (map node_id (structures_to_list written) ≡ ids_from 0 3)
    × (map data_of (structures_to_list written) ≡ "One" ∷ "First" ∷ "Two" ∷ [])
    × ((e : Doc String)
        → Has e (structures_to_list written)
        → node_mapping written (node_id e) ≡ some e)
unfolding structures_to_list
write_node_ids_lem_example = write_node_ids_lem small_tree
