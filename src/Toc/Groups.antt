-- ===== src/Toc/Groups.antt =====
-- `page_list_to_group_text`: the pages in groups that a prompt can hold. The quotients are exact
-- here; a page's text comes with its number of tokens.
use Prim.Native.String.{◌++◌ as str_append}
use fast_page.Prelude.{
  ℕ, suc, ◌+◌, ◌-◌, ◌*◌, ◌/◌, String, List, [], ◌∷◌, ◌++◌, map, ltb, leb, take, drop, if◌then◌else◌,
}
use fast_page.Toc.FindPages.{Page}

-- `xs[start:stop]`
abbrev pub slice {ℓ} : {A : Type ℓ} → ℕ → ℕ → List A → List A
slice start stop xs = take (stop - start) (drop start xs)

abbrev pub token_sum : List Page → ℕ
token_sum [] = 0
token_sum (page ∷ pages) = page.1 + token_sum pages

abbrev pub join_text : List Page → String
join_text [] = ""
join_text (page ∷ pages) = str_append page.0 (join_text pages)

-- `math.ceil(a / b)`
abbrev pub ceil_div : ℕ → ℕ → ℕ
ceil_div a b = (a + (b - 1)) / b

abbrev pub average_tokens : ℕ → ℕ → ℕ
average_tokens num_tokens max_tokens =
    let expected_parts_num = ceil_div num_tokens max_tokens in
    ceil_div (num_tokens + max_tokens * expected_parts_num) (2 * expected_parts_num)

abbrev pub last_subset : List Page → List (List Page)
last_subset [] = []
last_subset (page ∷ pages) = (page ∷ pages) ∷ []

module _ (overlap_page average : ℕ) (pages : List Page) where
  -- The loop, from the page of index `i` on
  unfoldable pub page_subsets : ℕ → List Page → ℕ → List Page → List (List Page)
  page_subsets i current count [] = last_subset current
  page_subsets i current count (page ∷ rest) =
      let overlap = slice (i - overlap_page) i pages in
      let started =
        page_subsets (suc i) (overlap ++ (page ∷ [])) (token_sum overlap + page.1) rest in
      let continued = page_subsets (suc i) (current ++ (page ∷ [])) (count + page.1) rest in
      if ltb average (count + page.1) then current ∷ started else continued

unfoldable pub group_pages : (max_tokens overlap_page : ℕ) → List Page → List (List Page)
unfolding page_subsets
group_pages max_tokens overlap_page pages =
    if leb (token_sum pages) max_tokens
    then pages ∷ []
    else page_subsets overlap_page (average_tokens (token_sum pages) max_tokens) pages 0 [] 0 pages

unfoldable pub page_list_to_group_text : (max_tokens overlap_page : ℕ) → List Page → List String
unfolding group_pages
page_list_to_group_text max_tokens overlap_page pages =
    map join_text (group_pages max_tokens overlap_page pages)
