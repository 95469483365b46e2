-- ===== src/Markdown/Thinning.antt =====
-- `tree_thinning_for_index`: sections below the token limit take in their descendants.
use fast_page.Prelude.{
  ℕ, Bool, true, false, ◌||◌, List, [], ◌∷◌, ◌++◌, leb, ltb, ◌==◌, if◌then◌else◌,
}
use fast_page.Chars.{Text, newline, is_empty, strip}
use fast_page.Markdown.Tokens.{Counted}

-- A section of `result_list`, and whether its index is in `nodes_to_remove`.
pub record Slot : Type 0 where
  pub node : Counted
  pub open node use *
  pub removed : Bool

-- The children that are not yet removed, in order; blank texts are passed over.
abbrev pub add_child_text : Slot → List Text → List Text
add_child_text s texts =
    if s.removed then texts else if is_empty (strip s.body) then texts else s.body ∷ texts

unfoldable pub children_texts : ℕ → List Slot → List Text
children_texts parent_level [] = []
children_texts parent_level (s ∷ rest) =
    let texts = children_texts parent_level rest in
    if leb s.level parent_level then [] else add_child_text s texts

-- All of `find_all_children` are removed from here on.
unfoldable pub remove_children : ℕ → List Slot → List Slot
remove_children parent_level [] = []
remove_children parent_level (s ∷ rest) =
    let removed = remove_children parent_level rest in
    if leb s.level parent_level then s ∷ rest else record s { removed = true } ∷ removed

unfoldable pub ends_with_newline : Text → Bool
ends_with_newline [] = false
ends_with_newline (c ∷ []) = c == newline
ends_with_newline (c ∷ d ∷ cs) = ends_with_newline (d ∷ cs)

-- `merged_text`, a blank line put between the texts
unfoldable pub merge_texts : Text → List Text → Text
unfolding ends_with_newline
merge_texts merged [] = merged
merge_texts merged (child ∷ children) =
    merge_texts
      ((if is_empty merged || ends_with_newline merged
          then merged
          else merged ++ (newline ∷ newline ∷ []))
        ++ child)
      children

abbrev pub with_text : (count_tokens : Text → ℕ) → Counted → List Text → Counted
with_text count_tokens n [] = n
with_text count_tokens n (t ∷ ts) =
    let merged = merge_texts n.body (t ∷ ts) in
    record { section = record n.section { body = merged }; text_token_count = count_tokens merged }

-- One round of the loop, at a section whose later sections have been done. Rounds remove only
-- later sections, so the section at hand is never among `nodes_to_remove`.
unfoldable pub thin_node : (count_tokens : Text → ℕ) → ℕ → Counted → List Slot → List Slot
unfolding children_texts remove_children merge_texts
thin_node count_tokens min_node_token n rest =
    if ltb n.text_token_count min_node_token
    then (record { node = with_text count_tokens n (children_texts n.level rest); removed = false }
        ∷ remove_children n.level rest)
    else (record { node = n; removed = false } ∷ rest)

unfoldable pub thin_from_end : (count_tokens : Text → ℕ) → ℕ → List Counted → List Slot
thin_from_end count_tokens min_node_token [] = []
thin_from_end count_tokens min_node_token (n ∷ rest) =
    thin_node count_tokens min_node_token n (thin_from_end count_tokens min_node_token rest)

unfoldable pub pop_removed : List Slot → List Counted
pop_removed [] = []
pop_removed (s ∷ rest) = let kept = pop_removed rest in if s.removed then kept else s.node ∷ kept

unfoldable pub tree_thinning : (count_tokens : Text → ℕ) → ℕ → List Counted → List Counted
unfolding thin_node thin_from_end pop_removed
tree_thinning count_tokens min_node_token node_list =
    pop_removed (thin_from_end count_tokens min_node_token node_list)
