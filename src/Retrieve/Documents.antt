-- ===== src/Retrieve/Documents.antt =====
-- The documents of pageindex/client.py as pageindex/retrieve.py reads them, and its functions. What
-- they return is made into JSON by a library.
use fast_page.Prelude.{
  ℕ, String, Bool, not, ◌&&◌, Option, none, some, List, [], ◌∷◌, ◌++◌, any, get_elem?, str_eq,
  if◌then◌else◌, ◌-◌,
}
use fast_page.Prelude.Dict.{Dict, lookup}
use fast_page.Prelude.Int.{ℤ, pos, pos_part, ltb_ℤ}
use fast_page.Chars.{Text, is_empty}
use fast_page.Toc.Items.{eq_ℤ}
use fast_page.Tree.Nodes.{Doc, doc, Docs, nil, cons}
use fast_page.Retrieve.Pages.{parse_pages}

-- A page of a document, and an entry of an answer
pub record PageText : Type 0 where
  pub page : ℤ
  pub content : Text

-- What the functions read of a node; a missing text reads as empty.
pub record Fields : Type 0 where
  pub line_num : Option ℤ
  pub text : Text

pub record DocInfo : Type 0 where
  pub kind : String
  pub doc_name : Text
  pub doc_description : Text
  pub path : String
  pub page_count : Option ℕ
  pub line_count : Option ℕ
  pub structure : Docs Fields
  pub pages : List PageText

abbrev pub leb_ℤ : ℤ → ℤ → Bool
leb_ℤ a b = not (ltb_ℤ b a)

-- `page_map[p]`, where a later page overwrites an earlier one
unfoldable pub find_page : ℤ → List PageText → Option PageText
find_page p [] = none
find_page p (t ∷ ts) = elim (find_page p ts) [
  | some u ↦ some u
  | none ↦ if eq_ℤ t.page p then some t else none
]

abbrev pub add_page : Option PageText → List PageText → List PageText
add_page none outs = outs
add_page (some t) outs = t ∷ outs

unfoldable pub cached_pages : List PageText → List ℤ → List PageText
unfolding find_page
cached_pages pages [] = []
cached_pages pages (p ∷ ps) = add_page (find_page p pages) (cached_pages pages ps)

abbrev pub add_text : Option Text → ℤ → List PageText → List PageText
add_text none p outs = outs
add_text (some text) p outs = record { page = p; content = text } ∷ outs

-- The pages of the file: `1 <= p <= total`, and a page without text reads as empty.
unfoldable pub file_pages : List Text → List ℤ → List PageText
file_pages file [] = []
file_pages file (p ∷ ps) =
    let rest = file_pages file ps in
    if ltb_ℤ (pos 0) p then add_text (get_elem? file (pos_part p - 1)) p rest else rest

abbrev pub or_file : Option (List Text) → List ℤ → Option (List PageText)
or_file none ps = none
or_file (some file) ps = some (file_pages file ps)

-- `read_pdf` opens a file and extracts its pages; `none` is an exception.
unfoldable pub get_pdf_page_content :
    (read_pdf : String → Option (List Text)) → DocInfo → List ℤ → Option (List PageText)
unfolding cached_pages file_pages
get_pdf_page_content read_pdf info ps =
    if is_empty info.pages
    then or_file (read_pdf info.path) ps
    else some (cached_pages info.pages ps)

-- `min(ns)` and `max(ns)` of a list that starts with `n`
unfoldable pub min_from : ℤ → List ℤ → ℤ
min_from n [] = n
min_from n (m ∷ ms) = min_from (if ltb_ℤ m n then m else n) ms

unfoldable pub max_from : ℤ → List ℤ → ℤ
max_from n [] = n
max_from n (m ∷ ms) = max_from (if ltb_ℤ n m then m else n) ms

-- `seen` and `results`
pub record Found : Type 0 where
  pub seen : List ℤ
  pub results : List PageText

-- `ln and min_line <= ln <= max_line and ln not in seen`
abbrev pub is_wanted : ℤ → ℤ → ℤ → Bool
is_wanted low high ln = not (eq_ℤ ln (pos 0)) && leb_ℤ low ln && leb_ℤ ln high

abbrev pub take_line : ℤ → ℤ → Option ℤ → Text → Found → Found
take_line low high none text found = found
take_line low high (some ln) text found =
    if is_wanted low high ln && not (any (eq_ℤ ln) found.seen)
    then record {
      seen = ln ∷ found.seen;
      results = found.results ++ (record { page = ln; content = text } ∷ []);
    }
    else found

unfoldable pub visit_node : ℤ → ℤ → Fields → Found → Found
visit_node low high f found = take_line low high f.line_num f.text found

module _ (low high : ℤ) where
  unfoldable mutual
    pub traverse_one : Doc Fields → Found → Found
    traverse_one (doc f id docs) found = traverse docs (visit_node low high f found)

    pub traverse : Docs Fields → Found → Found
    traverse nil found = found
    traverse (cons d ds) found = traverse ds (traverse_one d found)

-- `results.sort(key=page)`, which keeps equals in order
unfoldable pub insert_result : PageText → List PageText → List PageText
insert_result t [] = t ∷ []
insert_result t (u ∷ us) =
    let rest = insert_result t us in if ltb_ℤ u.page t.page then u ∷ rest else t ∷ u ∷ us

unfoldable pub sort_results : List PageText → List PageText
unfolding insert_result
sort_results [] = []
sort_results (t ∷ ts) = insert_result t (sort_results ts)

-- `none` is the ValueError of `min([])`.
unfoldable pub get_md_page_content : Docs Fields → List ℤ → Option (List PageText)
unfolding min_from max_from traverse sort_results
get_md_page_content tree [] = none
get_md_page_content tree (n ∷ ns) = some (
    sort_results
      (traverse (min_from n ns) (max_from n ns) tree (record { seen = []; results = [] })).results)

pub data PageAnswer : Type 0 where
  not_found : PageAnswer
  invalid_format : PageAnswer
  failed : PageAnswer
  content : List PageText → PageAnswer

abbrev pub or_failed : Option (List PageText) → PageAnswer
or_failed none = failed
or_failed (some outs) = content outs

abbrev pub content_of :
    (read_pdf : String → Option (List Text)) → DocInfo → Option (List ℤ) → PageAnswer
content_of read_pdf info none = invalid_format
content_of read_pdf info (some ps) =
    if str_eq info.kind "pdf"
    then or_failed (get_pdf_page_content read_pdf info ps)
    else or_failed (get_md_page_content info.structure ps)

abbrev of_document : (read_pdf : String → Option (List Text)) → Option DocInfo → Text → PageAnswer
of_document read_pdf none pages = not_found
of_document read_pdf (some info) pages = content_of read_pdf info (parse_pages pages)

unfoldable pub get_page_content :
    (read_pdf : String → Option (List Text)) → Dict DocInfo → String → Text → PageAnswer
unfolding parse_pages get_pdf_page_content get_md_page_content
get_page_content read_pdf documents doc_id pages =
    of_document read_pdf (lookup doc_id documents) pages
