-- ===== src/Markdown/Headings.antt =====
-- `extract_nodes_from_markdown`: the headings outside code blocks, with their line numbers.
use fast_page.Prelude.{ℕ, suc, Bool, false, not, Option, none, some, List, [], ◌∷◌, if◌then◌else◌}
use fast_page.Chars.{Text, strip, is_empty, split_lines}
use fast_page.Markdown.Patterns.{starts_fence, match_header}

pub record Heading : Type 0 where
  pub node_title : Text
  pub line_num : ℕ

abbrev pub add_heading : ℕ → Option Text → List Heading → List Heading
add_heading line_num none rest = rest
add_heading line_num (some group) rest =
    record { node_title = strip group; line_num = line_num } ∷ rest

-- One round of the loop, over what the later rounds append.
abbrev pub scan_line : Bool → ℕ → Text → List Heading → List Heading
scan_line in_code_block line_num stripped rest =
    if starts_fence stripped
    then rest
    else if is_empty stripped
    then rest
    else if not in_code_block
    then add_heading line_num (match_header stripped) rest
    else rest

unfoldable pub scan_lines : Bool → ℕ → List Text → List Heading
scan_lines in_code_block line_num [] = []
scan_lines in_code_block line_num (line ∷ lines) = scan_line in_code_block line_num (strip line) (
    scan_lines (if starts_fence (strip line) then not in_code_block else in_code_block)
      (suc line_num) lines)

unfoldable pub extract_nodes : Text → List Heading × List Text
unfolding scan_lines split_lines
extract_nodes markdown_content =
    let lines = split_lines markdown_content in (scan_lines false 1 lines, lines)
