-- ===== src/Tree.antt =====
-- From the flat table of contents to the tree, and the numbering of trees: `post_processing`,
-- `list_to_tree`, `write_node_id`, `structure_to_list` and `create_node_mapping` of
-- pageindex/utils.py.
pub mod Codes
pub mod Flat
pub mod Parents
pub mod Placed
pub mod Ranges
pub mod Nodes
pub mod Numbers
pub mod Ids
pub mod Examples
