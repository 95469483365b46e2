-- ===== src/Tree/Ranges.antt =====
-- The nodes of the tree, in the order of the list, leave no page between one and the next.
use fast_page.Prelude.{◌≡◌, ◌⊎◌, String, List, [], ◌∷◌}
use fast_page.Prelude.Int.{ℤ, pos, ◌+ℤ◌}
use fast_page.Tree.Flat.{FlatItem, Ranged, TreeNode}

-- A node's title and first and last page
abbrev pub label : TreeNode → String × ℤ × ℤ
label t = (t.title, t.start_index, t.end_index)

-- The page before the next item's or that page, and the end where there is no next item
abbrev pub EndsAt : ℤ → List FlatItem → ℤ → Type 0
EndsAt stop [] last = last ≡ stop
EndsAt stop (next ∷ items) last =
    (last ≡ next.physical_index) ⊎ (last +ℤ pos 1 ≡ next.physical_index)

-- The labels are the items', each ends on the page where the next one starts or on the page before,
-- and the last one ends at the end.
abbrev pub IsTiled : ℤ → List FlatItem → List (String × ℤ × ℤ) → Type 0
IsTiled stop [] [] = Unit
IsTiled stop [] (l ∷ ls) = ⊥
IsTiled stop (item ∷ items) [] = ⊥
IsTiled stop (item ∷ items) ((title, first, last) ∷ ls) =
    (title ≡ item.title)
    × (first ≡ item.physical_index)
    × EndsAt stop items last
    × IsTiled stop items ls

ranged_label : Ranged → String × ℤ × ℤ
ranged_label item = (item.title, item.start_index, item.end_index)
