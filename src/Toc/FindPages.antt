-- ===== src/Toc/FindPages.antt =====
-- `find_toc_pages` and `check_toc`: on which pages a table of contents stands.
use fast_page.Prelude.{
  ℕ, zero, suc, String, Bool, true, false, not, ◌&&◌, Option, none, some, List, [], ◌∷◌, leb, ltb,
  drop, length, str_eq, if◌then◌else◌,
}

-- A page's text and its number of tokens
abbrev pub Page : Type 0
Page = String × ℕ

module _ (detect : String → String) (toc_check_page_num : ℕ) where
  -- The `while` of `find_toc_pages`, from the page of index `i` on
  unfoldable pub scan_pages : ℕ → Bool → List Page → List ℕ
  scan_pages i last_page_is_yes [] = []
  scan_pages i last_page_is_yes (page ∷ pages) =
      let found = scan_pages (suc i) true pages in
      let passed = scan_pages (suc i) last_page_is_yes pages in
      if leb toc_check_page_num i && not last_page_is_yes
      then []
      else if str_eq (detect page.0) "yes"
      then i ∷ found
      else if str_eq (detect page.0) "no" && last_page_is_yes
      then []
      else passed

  unfoldable pub find_toc_pages : ℕ → List Page → List ℕ
  find_toc_pages start_page_index page_list =
      scan_pages start_page_index false (drop start_page_index page_list)

-- `pages[-1]` of a list with a first page
abbrev pub last_page : ℕ → List ℕ → ℕ
last_page i [] = i
last_page i (j ∷ js) = last_page j js

pub record TocJson : Type 0 where
  pub toc_content : String
  pub page_index_given_in_toc : String

pub record TocResult : Type 0 where
  pub toc_content : Option String
  pub toc_page_list : List ℕ
  pub page_index_given_in_toc : String

module _ (detect : String → String) (toc_check_page_num : ℕ)
    (toc_extractor : List Page → List ℕ → TocJson) (page_list : List Page) where
  abbrev pub answer_with : String → TocJson → List ℕ → TocResult
  answer_with given json pages = record {
    toc_content = some json.toc_content;
    toc_page_list = pages;
    page_index_given_in_toc = given;
  }

  -- The `while` of `check_toc`; `none` means that the fuel ran out.
  unfoldable pub search_more : (fuel : ℕ) → TocJson → List ℕ → ℕ → Option TocResult
  search_more zero toc_json toc_page_list current_start_index = none
  search_more (suc fuel) toc_json toc_page_list current_start_index =
      if not (
        str_eq toc_json.page_index_given_in_toc "no"
        && ltb current_start_index (length page_list)
        && ltb current_start_index toc_check_page_num)
      then some (answer_with "no" toc_json toc_page_list)
      else elim (find_toc_pages detect toc_check_page_num current_start_index page_list) [
        | [] ↦ some (answer_with "no" toc_json toc_page_list)
        | i ∷ js ↦
            if str_eq (toc_extractor page_list (i ∷ js)).page_index_given_in_toc "yes"
            then some (answer_with "yes" (toc_extractor page_list (i ∷ js)) (i ∷ js))
            else search_more fuel toc_json toc_page_list (suc (last_page i js))
      ]

  unfoldable pub check_pages : (fuel : ℕ) → List ℕ → Option TocResult
  unfolding search_more
  check_pages fuel [] =
      some (record { toc_content = none; toc_page_list = []; page_index_given_in_toc = "no" })
  check_pages fuel (i ∷ js) =
      let toc_json = toc_extractor page_list (i ∷ js) in
      if str_eq toc_json.page_index_given_in_toc "yes"
      then some (answer_with "yes" toc_json (i ∷ js))
      else search_more fuel toc_json (i ∷ js) (suc (last_page i js))

  unfoldable pub check_toc : (fuel : ℕ) → Option TocResult
  unfolding check_pages find_toc_pages
  check_toc fuel = check_pages fuel (find_toc_pages detect toc_check_page_num 0 page_list)
