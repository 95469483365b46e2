-- ===== src/Markdown/Tokens.antt =====
-- `update_node_list_with_text_token_count`: each section's tokens, its descendants' text included.
use fast_page.Prelude.{ℕ, List, [], ◌∷◌, ◌++◌, leb, if◌then◌else◌}
use fast_page.Chars.{Text, newline, is_empty}
use fast_page.Markdown.Sections.{Section}

-- A section of the list, with the entry `text_token_count`.
pub record Counted : Type 0 where
  pub section : Section
  pub open section use *
  pub text_token_count : ℕ

-- The nodes that `find_all_children` lists: those that follow, down to the first that is not deeper.
unfoldable pub find_children : ℕ → List Section → List Section
find_children parent_level [] = []
find_children parent_level (s ∷ rest) =
    let deeper = find_children parent_level rest in
    if leb s.level parent_level then [] else s ∷ deeper

-- `total_text += "\n" + child_text` for each text that is not empty
abbrev pub add_text : Text → Text → Text
add_text total child = if is_empty child then total else total ++ (newline ∷ child)

unfoldable pub total_text : Text → List Section → Text
total_text total [] = total
total_text total (child ∷ children) = total_text (add_text total child.body) children

unfoldable pub update_token_counts : (count_tokens : Text → ℕ) → List Section → List Counted
unfolding find_children total_text
update_token_counts count_tokens [] = []
update_token_counts count_tokens (s ∷ rest) =
    record {
      section = s;
      text_token_count = count_tokens (total_text s.body (find_children s.level rest));
    }
    ∷ update_token_counts count_tokens rest
