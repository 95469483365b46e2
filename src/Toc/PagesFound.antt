-- ===== src/Toc/PagesFound.antt =====
-- What `find_toc_pages` finds, and that `check_toc` ends.
use fast_page.Prelude.{
  List-cases, ℕ, zero, suc, ◌+◌, ◌≤◌, ◌<◌, ◌≡◌, inl, inr, refl, subst, String, Bool, true, false,
  not, ◌&&◌, Option, none, some, List, [], ◌∷◌, leb, ltb, drop, length, get_elem?, str_eq,
  Bool-cases, arith,
}
use fast_page.Toc.FindPages.{
  Page, scan_pages, find_toc_pages, last_page, TocJson, TocResult, answer_with, search_more,
  check_pages, check_toc,
}

-- The page of this index says that it has a table of contents.
abbrev pub has_toc : (detect : String → String) → List Page → ℕ → Bool
has_toc detect pages i = elim (get_elem? pages i) [
  | none ↦ false
  | some page ↦ str_eq (detect page.0) "yes"
]

-- Ever larger indices from `start` on, each of a page with a table of contents
abbrev pub AreTocPages : (detect : String → String) → List Page → ℕ → List ℕ → Type 0
AreTocPages detect pages start [] = Unit
AreTocPages detect pages start (i ∷ is) =
    (start ≤ i)
    × (i < length pages)
    × (has_toc detect pages i ≡ true)
    × AreTocPages detect pages (suc i) is

pub drop-cons :
    (i : ℕ) (all : List Page) {page : Page} {rest : List Page}
    → drop i all ≡ page ∷ rest
    → (get_elem? all i ≡ some page) × (drop (suc i) all ≡ rest) × (i < length all)
drop-cons zero [] h = cc
drop-cons zero (x ∷ xs) h = ground arith
drop-cons (suc i) [] h = cc
drop-cons (suc i) (x ∷ xs) h =
    let (got, next, lt) = drop-cons i xs h in (got, next, omega (arith, lt))

AreTocPages-earlier :
    (detect : String → String) (pages : List Page) (i : ℕ) (js : List ℕ)
    → AreTocPages detect pages (suc i) js
    → AreTocPages detect pages i js
AreTocPages-earlier detect pages i [] h = tt
AreTocPages-earlier detect pages i (j ∷ js) (le, inside, toc, rest) =
    (omega (arith, le), inside, toc, rest)

module _ (detect : String → String) (n : ℕ) where
  scan_pages-AreTocPages :
      (all rest : List Page) (i : ℕ) (last : Bool)
      → drop i all ≡ rest
      → AreTocPages detect all i (scan_pages detect n i last rest)
  unfolding scan_pages
  scan_pages-AreTocPages all [] i last h = tt
  scan_pages-AreTocPages all (page ∷ rest) i last h =
      let (here, next, inside) = drop-cons i all h in
      let found = scan_pages-AreTocPages all rest (suc i) true next in
      let passed = scan_pages-AreTocPages all rest (suc i) last next in
      elim (Bool-cases (leb n i && not last)) [
        | inl stop ↦ rw stop tt
        | inr go ↦ elim (Bool-cases (str_eq (detect page.0) "yes")) [
          | inl says_yes ↦
              rw (go, says_yes) (omega arith, inside, rw (has_toc, here) says_yes, found)
          | inr says_no ↦ elim (Bool-cases (str_eq (detect page.0) "no" && last)) [
            | inl end ↦ rw (go, says_no, end) tt
            | inr skip ↦ rw (go, says_no, skip) (AreTocPages-earlier detect all i _ passed)
          ]
        ]
      ]

  -- The pages that are found rise from the start page on, all exist, and the model said "yes" of
  -- each of them.
  pub find_toc_pages-AreTocPages :
      (start : ℕ) (pages : List Page)
      → AreTocPages detect pages start (find_toc_pages detect n start pages)
  unfolding find_toc_pages
  find_toc_pages-AreTocPages start pages =
      scan_pages-AreTocPages pages (drop start pages) start false refl

last_page-lt :
    (detect : String → String) (pages : List Page) (start i : ℕ) (js : List ℕ)
    → AreTocPages detect pages start (i ∷ js)
    → (start ≤ last_page i js) × (last_page i js < length pages)
last_page-lt detect pages start i [] (le, lt, toc, rest) = (le, lt)
last_page-lt detect pages start i (j ∷ js) (le, lt, toc, rest) =
    let (le', lt') = last_page-lt detect pages (suc i) j js rest in (omega (arith, le, le'), lt')

module _ (detect : String → String) (extract : List Page → List ℕ → TocJson)
    (pages : List Page) where
  -- There is a result; its pages have a table of contents, and where it says that page numbers are
  -- given, the extractor said so of these very pages.
  abbrev pub IsChecked : Option TocResult → Type 0
  IsChecked none = ⊥
  IsChecked (some r) =
      AreTocPages detect pages 0 r.toc_page_list
      × (str_eq r.page_index_given_in_toc "yes" ≡ true
          → (r.toc_content ≡ some (extract pages r.toc_page_list).toc_content)
            × (str_eq (extract pages r.toc_page_list).page_index_given_in_toc "yes" ≡ true))

module _ (detect : String → String) (n : ℕ) (extract : List Page → List ℕ → TocJson)
    (pages : List Page) where
  not_given :
      (json : TocJson) (found : List ℕ)
      → AreTocPages detect pages 0 found
      → IsChecked detect extract pages (some (answer_with detect n extract pages "no" json found))
  not_given json found toc = (toc, λ given. ground (arith, given))

  given :
      (found : List ℕ)
      → AreTocPages detect pages 0 found
      → str_eq (extract pages found).page_index_given_in_toc "yes" ≡ true
      → IsChecked detect extract pages
          (some (answer_with detect n extract pages "yes" (extract pages found) found))
  given found toc says_yes = (toc, λ _. (refl, says_yes))

  AreTocPages-start :
      (start : ℕ) (js : List ℕ) → AreTocPages detect pages start js → AreTocPages detect pages 0 js
  AreTocPages-start zero js h = h
  AreTocPages-start (suc start) js h =
      AreTocPages-start start js (AreTocPages-earlier detect pages start js h)

  search_more-IsChecked :
      (fuel : ℕ) (json : TocJson) (found : List ℕ) (start : ℕ)
      → AreTocPages detect pages 0 found
      → start ≤ length pages
      → length pages < fuel + start
      → IsChecked detect extract pages (search_more detect n extract pages fuel json found start)
  unfolding search_more
  search_more-IsChecked zero json found start toc inside h = absurd (omega arith)
  search_more-IsChecked (suc fuel) json found start toc inside h =
      elim (Bool-cases
        (str_eq json.page_index_given_in_toc "no" && ltb start (length pages) && ltb start n)) [
          | inr stop ↦ rw stop (not_given json found toc)
          | inl go ↦ elim (List-cases (find_toc_pages detect n start pages)) [
            | inl none_left ↦ rw (go, none_left) (not_given json found toc)
            | inr (i, js, more) ↦
                let are =
                  subst (AreTocPages detect pages start) more
                    (find_toc_pages-AreTocPages detect n start pages) in
                let are_0 = AreTocPages-start start (i ∷ js) are in
                let (after, inside') = last_page-lt detect pages start i js are in
                elim (Bool-cases (str_eq (extract pages (i ∷ js)).page_index_given_in_toc "yes")) [
                  | inl says_yes ↦ rw (go, more, says_yes) (given (i ∷ js) are_0 says_yes)
                  | inr says_no ↦
                      rw (go, more, says_no)
                        (search_more-IsChecked fuel json found (suc (last_page i js)) toc
                          (omega (arith, inside')) (omega (arith, h, after)))
                ]
          ]
        ]

  check_pages-IsChecked :
      (fuel : ℕ) (found : List ℕ)
      → length pages < fuel
      → AreTocPages detect pages 0 found
      → IsChecked detect extract pages (check_pages detect n extract pages fuel found)
  unfolding check_pages
  check_pages-IsChecked fuel [] h toc = (tt, λ says_yes. ground (arith, says_yes))
  check_pages-IsChecked fuel (i ∷ js) h toc =
      elim (Bool-cases (str_eq (extract pages (i ∷ js)).page_index_given_in_toc "yes")) [
        | inl says_yes ↦ rw says_yes (given (i ∷ js) toc says_yes)
        | inr says_no ↦
            let (after, inside) = last_page-lt detect pages 0 i js toc in
            rw says_no (
              search_more-IsChecked fuel (extract pages (i ∷ js)) (i ∷ js) (suc (last_page i js))
                toc (omega (arith, inside)) (omega (arith, h)))
      ]

  -- With fuel for one more round than there are pages `check_toc` has a result: the pages of its
  -- list rise, exist and were each found to hold a table of contents, and where it says that page
  -- numbers are given, the extractor said so of these very pages, and the content is what it
  -- extracted.
  pub check_toc-IsChecked :
      (fuel : ℕ)
      → length pages < fuel
      → IsChecked detect extract pages (check_toc detect n extract pages fuel)
  unfolding check_toc
  check_toc-IsChecked fuel h =
      check_pages-IsChecked fuel (find_toc_pages detect n 0 pages) h
        (find_toc_pages-AreTocPages detect n 0 pages)
