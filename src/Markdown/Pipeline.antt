-- ===== src/Markdown/Pipeline.antt =====
-- The first half of `md_to_tree`: from the text of the file to the tree, before summaries and the
-- choice of the fields that are returned.
use fast_page.Prelude.{ℕ, Bool, true, false, Option, none, some, List, map}
use fast_page.Chars.{Text}
use fast_page.Markdown.Headings.{extract_nodes}
use fast_page.Markdown.Sections.{Section, extract_text_content}
use fast_page.Markdown.Tokens.{Counted, update_token_counts}
use fast_page.Markdown.Thinning.{tree_thinning}
use fast_page.Markdown.Build.{Builder, build_tree}

-- `if if_thinning: …`; the counts play no further part
unfoldable pub thin_sections :
    (count_tokens : Text → ℕ) (if_thinning : Bool) (min_token_threshold : ℕ)
    → List Section
    → List Section
thin_sections count_tokens true min_token_threshold ss =
    map (λ (n : Counted). n.section)
      (tree_thinning count_tokens min_token_threshold (update_token_counts count_tokens ss))
thin_sections count_tokens false min_token_threshold ss = ss

abbrev tree_of : Option (List Section) → (List Section → List Section) → Option Builder
tree_of none thin = none
tree_of (some ss) thin = some (build_tree (thin ss))

-- `none` is an exception on the way.
unfoldable pub md_tree :
    (count_tokens : Text → ℕ) (if_thinning : Bool) (min_token_threshold : ℕ) → Text → Option Builder
unfolding thin_sections
md_tree count_tokens if_thinning min_token_threshold markdown_content =
    let (node_list, markdown_lines) = extract_nodes markdown_content in
    tree_of (extract_text_content node_list markdown_lines)
      (thin_sections count_tokens if_thinning min_token_threshold)
