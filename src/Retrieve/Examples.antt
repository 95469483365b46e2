-- ===== src/Retrieve/Examples.antt =====
-- The theorems about the retrieval of pages at small documents, and test runs.
use fast_page.Prelude.{
  ℕ, ◌≡◌, refl, inl, inr, String, none, some, List, [], ◌∷◌, arith, Option, if◌then◌else◌,
}
use fast_page.Prelude.Dict.{Dict, lookup}
use fast_page.Prelude.Int.{ℤ, pos, ◌+ℤ◌, ◌-ℤ◌}
use fast_page.Chars.{Text, codes, is_space, split_on}
use fast_page.Tree.Nodes.{Doc, doc, Docs, nil, cons}
use fast_page.Retrieve.Numbers.{parse_int}
use fast_page.Retrieve.Pages.{page_range, parse_pages}
use fast_page.Retrieve.Parsed.{IsOutcome, AreSorted, parse_pages-IsOutcome}
use fast_page.Retrieve.Documents.{
  PageText, Fields, DocInfo, content, invalid_format, not_found, visit_node, is_wanted,
  get_md_page_content, get_page_content,
}
use fast_page.Retrieve.Lines.{tree_fields, first_text}
use fast_page.Retrieve.Selected.{find_result, AreAscending}
use fast_page.Retrieve.Content.{get_md_page_content_lem}

numbers :
    (parse_int (codes " 1_2 ") ≡ some (pos 12))
    × (parse_int (codes "1_") ≡ none)
    × (parse_int (codes "+7") ≡ some (pos 7))
unfolding parse_int is_space
numbers = (refl, refl, refl)

abbrev request : Text
request = codes "8, 2-3,2"

requested : parse_pages request ≡ some (pos 2 ∷ pos 3 ∷ pos 8 ∷ [])
unfolding parse_pages parse_int is_space ◌+ℤ◌ ◌-ℤ◌ page_range
requested = refl

backwards : parse_pages (codes "7-5") ≡ none
unfolding parse_pages parse_int is_space
backwards = refl

parse_pages-IsOutcome_example :
    IsOutcome (split_on b',' request) (parse_pages request) × AreSorted (parse_pages request)
parse_pages-IsOutcome_example = parse_pages-IsOutcome request

abbrev node : ℕ → Text → Docs Fields → Doc Fields
node line text nodes = doc (record { line_num = some (pos line); text = text }) [] nodes

-- A chapter at line 1 with a section at line 5, a chapter at line 4, and another text for line 5
abbrev tree : Docs Fields
tree =
    cons (node 1 (codes "a") (cons (node 5 (codes "b") nil) nil))
      (cons (node 4 (codes "c") nil) (cons (node 5 (codes "d") nil) nil))

get_md_page_content_lem_example :
    (outs : List PageText) × (get_md_page_content tree (pos 4 ∷ pos 9 ∷ []) ≡ some outs)
    × AreAscending outs
    × ((ln : ℤ)
        → find_result ln outs
          ≡ (if is_wanted (pos 4) (pos 9) ln then first_text ln (tree_fields tree) else none))
get_md_page_content_lem_example =
    get_md_page_content_lem tree (pos 4) (pos 9 ∷ []) (pos 4) (pos 9)
      (record { there = inl refl; least = (omega arith, (omega arith, tt)) })
      (record { there = inr (inl refl); greatest = (omega arith, (omega arith, tt)) })

abbrev info : String → DocInfo
info kind = record {
  kind = kind;
  doc_name = codes "n";
  doc_description = [];
  path = "p";
  page_count = none;
  line_count = some 9;
  structure = tree;
  pages =
      record { page = pos 1; content = codes "x" }
      ∷ record { page = pos 3; content = codes "y" }
      ∷ [];
}

abbrev documents : Dict DocInfo
documents = ("m", info "md") ∷ ("p", info "pdf") ∷ []

abbrev no_file : String → Option (List Text)
no_file path = none

-- A Markdown document answers with the lines between the smallest and the largest number, a PDF
-- document with the pages that it has.
answers :
    (get_page_content no_file documents "m" (codes "4,9")
      ≡ content (
          record { page = pos 4; content = codes "c" }
          ∷ record { page = pos 5; content = codes "b" }
          ∷ []))
    × (get_page_content no_file documents "p" (codes "2-3")
        ≡ content (record { page = pos 3; content = codes "y" } ∷ []))
    × (get_page_content no_file documents "p" (codes "x") ≡ invalid_format)
    × (get_page_content no_file documents "q" (codes "1") ≡ not_found)
unfolding get_page_content parse_int is_space ◌+ℤ◌ ◌-ℤ◌ lookup visit_node page_range
answers = (refl, refl, refl, refl)
