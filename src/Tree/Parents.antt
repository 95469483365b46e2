-- ===== src/Tree/Parents.antt =====
-- The tree by its contract: an item's parent is the last earlier item that has its parent's code.
use fast_page.Prelude.{
  ℕ, Bool, true, false, Option, none, some, List, [], ◌∷◌, ◌++◌, ◌==◌, length, get_elem?,
  if◌then◌else◌,
}
use fast_page.Chars.{Text}
use fast_page.Tree.Codes.{parent_structure, code_eq}
use fast_page.Tree.Flat.{Ranged, TreeNode}

-- Of the items before, the last one first: the index of the latest with this code
unfoldable pub latest : Text → List Ranged → Option ℕ
latest p [] = none
latest p (item ∷ earlier) =
    let older = latest p earlier in
    if code_eq item.structure p then some (length earlier) else older

abbrev pub latest_of : Option Text → List Ranged → Option ℕ
latest_of none earlier = none
latest_of (some p) earlier = latest p earlier

abbrev pub parent_of : Ranged → List Ranged → Option ℕ
parent_of item earlier = latest_of (parent_structure item.structure) earlier

abbrev pub same_parent : Option ℕ → Option ℕ → Bool
same_parent none none = true
same_parent (some a) (some b) = a == b
same_parent _ _ = false

-- The items with the given parent, in their order
unfoldable pub children_of : Option ℕ → List Ranged → List ℕ
children_of parent [] = []
children_of parent (item ∷ earlier) =
    let before = children_of parent earlier in
    if same_parent (parent_of item earlier) parent then before ++ (length earlier ∷ []) else before

unfoldable pub nodes_at : List TreeNode → ℕ → List ℕ
nodes_at store j = elim (get_elem? store j) [ none ↦ [] | some t ↦ t.nodes ]

abbrev pub onto : List Ranged → List Ranged → List Ranged
onto [] earlier = earlier
onto (item ∷ items) earlier = onto items (item ∷ earlier)
