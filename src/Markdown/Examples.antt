-- ===== src/Markdown/Examples.antt =====
-- The theorems about the Markdown pipeline at a small file, and test runs.
use fast_page.Prelude.{ℕ, ◌≡◌, refl, true, none, some, List, [], ◌∷◌, length, map, drop}
use fast_page.Chars.{codes, Text, strip, is_space}
use fast_page.Markdown.Patterns.{match_header}
use fast_page.Markdown.Headings.{extract_nodes}
use fast_page.Markdown.HeadingLines.{title_at, expected_title, extract_nodes_lem}
use fast_page.Markdown.Sections.{Section, end_line, extract_text_content}
use fast_page.Markdown.SectionLines.{IsCut, extract-IsCut}
use fast_page.Markdown.Tokens.{Counted, update_token_counts}
use fast_page.Markdown.Thinning.{tree_thinning}
use fast_page.Markdown.Covered.{heading, uncovered, headings-tree_thinning}
use fast_page.Markdown.Build.{Builder, build_tree, decimal, zfill}
use fast_page.Markdown.Outline.{reverse_onto, children, child_list, build_tree_lem}
use fast_page.Markdown.Labels.{label, labels_from, labels-build_tree}
use fast_page.Markdown.Pipeline.{md_tree}
use fast_page.Markdown.Whole.{store_ink, lines_ink, ink-md_tree}

abbrev file : Text
file = codes "intro\n# A\ntext\n```\n# no\n```\n### B\n## C\n  # indented\nend"

-- Line 9 is found as a heading, but the second step drops it, since its line begins with a space.
file-headings :
    (extract_nodes file).0
    ≡ record { node_title = codes "A"; line_num = 2 }
      ∷ record { node_title = codes "B"; line_num = 7 }
      ∷ record { node_title = codes "C"; line_num = 8 }
      ∷ record { node_title = codes "indented"; line_num = 9 }
      ∷ []
unfolding extract_nodes strip is_space match_header
file-headings = refl

abbrev sections : List Section
sections =
    record { title = codes "A"; line_num = 2; level = 1; body = codes "# A\ntext\n```\n# no\n```" }
    ∷ record { title = codes "B"; line_num = 7; level = 3; body = codes "### B" }
    ∷ record { title = codes "C"; line_num = 8; level = 2; body = codes "## C\n  # indented\nend" }
    ∷ []

file-sections : extract_text_content (extract_nodes file).0 (extract_nodes file).1 ≡ some sections
unfolding extract_nodes extract_text_content is_space match_header
file-sections = refl

file-tree :
    (build_tree sections).store
    ≡ record {
      title = codes "A";
      node_id = codes "0001";
      body = codes "# A\ntext\n```\n# no\n```";
      line_num = 2;
      nodes = 1 ∷ 2 ∷ [];
    }
      ∷ record {
        title = codes "B";
        node_id = codes "0002";
        body = codes "### B";
        line_num = 7;
        nodes = [];
      }
      ∷ record {
        title = codes "C";
        node_id = codes "0003";
        body = codes "## C\n  # indented\nend";
        line_num = 8;
        nodes = [];
      }
      ∷ []
unfolding build_tree decimal zfill
file-tree = refl

-- With a limit of 100 characters the first section takes in both others.
thinned : List Counted
thinned = tree_thinning length 100 (update_token_counts length sections)

thinned_headings : map heading thinned ≡ (codes "A", 2, 1) ∷ []
unfolding thinned tree_thinning update_token_counts strip is_space
thinned_headings = refl

extract_nodes_lem_example : title_at (extract_nodes file).0 5 ≡ expected_title file 4
extract_nodes_lem_example = extract_nodes_lem file 4

extract-IsCut_example :
    let (headings, lines) = extract_nodes file in
    (ss : List Section) × (extract_text_content headings lines ≡ some ss) × IsCut lines ss
extract-IsCut_example = extract-IsCut file

headings-tree_thinning_example :
    map heading (tree_thinning length 10 (update_token_counts length sections))
    ≡ uncovered 10 none (update_token_counts length sections)
headings-tree_thinning_example =
    headings-tree_thinning length 10 (update_token_counts length sections)

build_tree_lem_example :
    let tree = build_tree sections in
    let before = reverse_onto sections [] in
    (length tree.store ≡ length before)
    × (tree.root_nodes ≡ children none before)
    × ((j : ℕ) → child_list tree.store j ≡ children (some j) before)
build_tree_lem_example = build_tree_lem sections

labels-build_tree_example : map label (build_tree sections).store ≡ labels_from 1 sections
labels-build_tree_example = labels-build_tree sections

ink-md_tree_example :
    let (headings, lines) = extract_nodes file in
    (ss : List Section) × (tree : Builder) × (extract_text_content headings lines ≡ some ss)
    × (md_tree length true 100 file ≡ some tree)
    × (store_ink tree.store ≡ lines_ink (drop (end_line ss lines) lines))
ink-md_tree_example = ink-md_tree length true 100 file
