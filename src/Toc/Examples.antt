-- ===== src/Toc/Examples.antt =====
-- The theorems about tables of contents at a small document, and test runs.
use fast_page.Prelude.{
  ℕ, ◌≡◌, ◌≤◌, ◌<◌, refl, String, Option, none, some, List, [], ◌∷◌, All, arith, str_eq,
  if◌then◌else◌,
}
use fast_page.Prelude.Int.{ℤ, pos, ◌+ℤ◌, ◌-ℤ◌}
use fast_page.Toc.FindPages.{Page, scan_pages, find_toc_pages, TocJson, check_toc}
use fast_page.Toc.PagesFound.{
  AreTocPages, find_toc_pages-AreTocPages, IsChecked, check_toc-IsChecked,
}
use fast_page.Toc.Items.{int, absent, TocItem}
use fast_page.Toc.Offset.{
  Pair, difference, differences, count_one, count_all, most_common, calculate_page_offset,
  add_offset,
}
use fast_page.Toc.CommonOffset.{occurrences, calculate_page_offset-most, add_offset-difference}
use fast_page.Toc.Entries.{Entry, validate_and_truncate}
use fast_page.Toc.Check.{Incorrect, check_title, check_all, last_physical_index, verify_toc}
use fast_page.Toc.Fix.{
  first_correct, last_correct, pages_between, content_range, process_item, apply_results,
  process_all, fix_incorrect_toc, fix_again, fix_with_retries,
}
use fast_page.Toc.Meta.{Mode, with_page_numbers, decide, prepared, attempt_mode, meta_processor}
use fast_page.Toc.Each2.{Each2}
use fast_page.Toc.Bounded.{IsInside, meta_processor-IsInside}
use fast_page.Toc.Groups.{group_pages, page_subsets}
use fast_page.Toc.GroupCover.{IsCover, group_pages-IsCover}

abbrev pages : List Page
pages = ("cover", 10) ∷ ("contents", 20) ∷ ("more contents", 20) ∷ ("one", 30) ∷ ("two", 40) ∷ []

abbrev detect : String → String
detect t = if str_eq t "contents" then "yes" else if str_eq t "more contents" then "yes" else "no"

abbrev extract : List Page → List ℕ → TocJson
extract all toc = record { toc_content = "One 1, Two 2"; page_index_given_in_toc = "yes" }

toc_on_two_pages : find_toc_pages detect 20 0 pages ≡ 1 ∷ 2 ∷ []
unfolding find_toc_pages scan_pages
toc_on_two_pages = refl

find_toc_pages-AreTocPages_example : AreTocPages detect pages 0 (find_toc_pages detect 20 0 pages)
find_toc_pages-AreTocPages_example = find_toc_pages-AreTocPages detect 20 0 pages

check_toc-IsChecked_example : IsChecked detect extract pages (check_toc detect 20 extract pages 6)
check_toc-IsChecked_example = check_toc-IsChecked detect 20 extract pages 6 (omega arith)

abbrev pair : ℕ → ℕ → Pair
pair n i = record { title = none; page = int (pos n); physical_index = int (pos i) }

abbrev pairs : List Pair
pairs = pair 1 4 ∷ pair 2 9 ∷ pair 7 10 ∷ []

offset_3 : calculate_page_offset pairs ≡ some (pos 3)
unfolding calculate_page_offset differences count_all count_one most_common ◌-ℤ◌
offset_3 = refl

calculate_page_offset-most_example :
    (0 < occurrences (pos 3) (differences pairs))
    × ((e : ℤ) → occurrences e (differences pairs) ≤ occurrences (pos 3) (differences pairs))
calculate_page_offset-most_example = calculate_page_offset-most pairs offset_3

no_offset : calculate_page_offset [] ≡ none
unfolding calculate_page_offset differences count_all
no_offset = refl

abbrev item : TocItem
item = record {
  structure = some "1";
  title = some "One";
  page = int (pos 1);
  physical_index = absent;
}

difference_3 : difference (pair 1 4) ≡ some (pos 3)
unfolding ◌-ℤ◌
difference_3 = refl

add_offset-difference_example :
    add_offset (pos 3) item ≡ record item { physical_index = int (pos 4); page = absent }
add_offset-difference_example =
    add_offset-difference (pos 3) (pos 1) (pos 4) item (pair 1 4) refl refl refl difference_3

abbrev entry : String → ℕ → Entry
entry title i = record { structure = none; title = title; physical_index = some (pos i) }

-- "two" stands on page 5; the toc has it on page 4.
abbrev toc : Mode → List Entry
toc mode = entry "cover" 1 ∷ entry "contents" 2 ∷ entry "one" 4 ∷ entry "two" 4 ∷ entry "end" 9 ∷ []

abbrev judge : ℕ → String → String → Option String
judge attempt title text = some (if str_eq title text then "yes" else "no")

abbrev fixer : ℕ → String → List (ℕ × String) → Option (Option ℤ)
fixer attempt title content = some (some (pos 5))

abbrev fixed_toc : List Entry
fixed_toc =
    entry "cover" 1
    ∷ entry "contents" 2
    ∷ entry "one" 4
    ∷ entry "two" 5
    ∷ record (entry "end" 9) { physical_index = none }
    ∷ []

meta_fixes : meta_processor fixer judge pages 1 toc with_page_numbers ≡ some fixed_toc
unfolding meta_processor attempt_mode decide prepared validate_and_truncate verify_toc
    last_physical_index check_all check_title fix_with_retries fix_again fix_incorrect_toc
    apply_results process_all process_item content_range first_correct last_correct pages_between
    ◌-ℤ◌ ◌+ℤ◌
meta_fixes = refl

meta_processor-IsInside_example : All (IsInside pages 1) fixed_toc
meta_processor-IsInside_example =
    meta_processor-IsInside fixer judge pages 1 toc with_page_numbers meta_fixes

abbrev wrong_two : Incorrect
wrong_two = record { list_index = 3; title = "two"; physical_index = none }

group_pages-IsCover_example : IsCover 1 pages 0 (group_pages 60 1 pages)
group_pages-IsCover_example = group_pages-IsCover 60 1 pages

-- A first page above the average is preceded by an empty group.
large_first_page :
    group_pages 10 1 (("a", 50) ∷ ("b", 1) ∷ [])
    ≡ [] ∷ (("a", 50) ∷ []) ∷ (("a", 50) ∷ ("b", 1) ∷ []) ∷ []
unfolding group_pages page_subsets
large_first_page = refl
