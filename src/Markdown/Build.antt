-- ===== src/Markdown/Build.antt =====
-- `build_tree_from_nodes`. The loop appends to nodes that are already in the tree, so the nodes
-- live in a store: a node is named by its index, in the order of creation, and `nodes` lists indices.
use fast_page.Prelude.{
  ℕ, zero, suc, ◌+◌, ◌-◌, ◌/◌, ◌%◌, Option, none, some, List, [], ◌∷◌, ◌++◌, leb, ◌==◌,
  if◌then◌else◌, length, modify_at,
}
use fast_page.Chars.{Text}
use fast_page.Markdown.Sections.{Section}

-- `str(n)`: a round for each digit; `n + 1` rounds are more than enough.
unfoldable pub decimal_from : ℕ → ℕ → Text → Text
decimal_from zero n digits = digits
decimal_from (suc fuel) n digits =
    let more = decimal_from fuel (n / 10) ((48 + n % 10) ∷ digits) in
    if n / 10 == 0 then (48 + n % 10) ∷ digits else more

unfoldable pub decimal : ℕ → Text
unfolding decimal_from
decimal n = decimal_from (n + 1) n []

abbrev pub zeros : ℕ → Text → Text
zeros zero t = t
zeros (suc n) t = 48 ∷ zeros n t

-- `t.zfill(width)`, for a text that has no sign
unfoldable pub zfill : ℕ → Text → Text
zfill width t = zeros (width - length t) t

pub record TreeNode : Type 0 where
  pub title : Text
  pub node_id : Text
  pub body : Text
  pub line_num : ℕ
  pub nodes : List ℕ

pub record Builder : Type 0 where
  pub store : List TreeNode
  pub stack : List (ℕ × ℕ)
  pub root_nodes : List ℕ
  pub node_counter : ℕ

-- `while stack and stack[-1][1] >= current_level: stack.pop()`
unfoldable pub pop_deeper : ℕ → List (ℕ × ℕ) → List (ℕ × ℕ)
pop_deeper current_level [] = []
pop_deeper current_level ((node, level) ∷ stack) =
    let rest = pop_deeper current_level stack in
    if leb current_level level then rest else (node, level) ∷ stack

abbrev pub top : List (ℕ × ℕ) → Option ℕ
top [] = none
top ((node, level) ∷ stack) = some node

abbrev pub add_child : ℕ → TreeNode → TreeNode
add_child child parent = record parent { nodes = parent.nodes ++ (child ∷ []) }

-- Under no parent the node is a root.
abbrev pub attach : Option ℕ → ℕ → Builder → Builder
attach none node b = record b { root_nodes = b.root_nodes ++ (node ∷ []) }
attach (some parent) node b = record b { store = modify_at parent (add_child node) b.store }

-- The dict of a section's node, the count of nodes so far given
abbrev pub tree_node : Section → ℕ → TreeNode
tree_node s node_counter = record {
  title = s.title;
  node_id = zfill 4 (decimal node_counter);
  body = s.body;
  line_num = s.line_num;
  nodes = [];
}

unfoldable pub add_node : Builder → Section → Builder
unfolding pop_deeper
add_node b s =
    let node = length b.store in
    let stack = pop_deeper s.level b.stack in
    attach (top stack) node (record {
      store = b.store ++ (tree_node s b.node_counter ∷ []);
      stack = (node, s.level) ∷ stack;
      root_nodes = b.root_nodes;
      node_counter = b.node_counter + 1;
    })

abbrev pub new_builder : Builder
new_builder = record { store = []; stack = []; root_nodes = []; node_counter = 1 }

unfoldable pub add_nodes : Builder → List Section → Builder
add_nodes b [] = b
add_nodes b (s ∷ ss) = add_nodes (add_node b s) ss

-- The tree: the store and the roots of the result.
unfoldable pub build_tree : List Section → Builder
unfolding add_nodes add_node
build_tree node_list = add_nodes new_builder node_list
