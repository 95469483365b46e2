-- ===== src/Toc/Fix.antt =====
-- `fix_incorrect_toc` and `fix_incorrect_toc_with_retries`. The toc is written only after all the
-- concurrent checks of an attempt have ended, so each of them reads the toc of the attempt's start.
-- The model is asked anew in each attempt: its answers are functions of the attempt's number too.
-- A list index, which is the position of an item, is never below 0.
use fast_page.Prelude.{
  ℕ, zero, suc, ◌-◌, String, Bool, false, ◌&&◌, ◌||◌, Option, none, some, List, [], ◌∷◌, any, take,
  drop, leb, ltb, ◌==◌, length, modify_at, str_eq, if◌then◌else◌,
}
use fast_page.Prelude.Int.{ℤ, pos, ◌-ℤ◌, ltb_ℤ}
use fast_page.Toc.FindPages.{Page}
use fast_page.Toc.Entries.{Entry, last_index}
use fast_page.Toc.Check.{Incorrect, check_title}

abbrev pub is_incorrect : List Incorrect → ℕ → Bool
is_incorrect incorrect_results i = any (λ r. r.list_index == i) incorrect_results

abbrev some_or : Option ℤ → Option ℤ → Option ℤ
some_or (some i) o = some i
some_or none o = o

-- The index of the first item from position `i` on that has one and is not held incorrect
unfoldable pub first_correct : List Incorrect → ℕ → List Entry → Option ℤ
first_correct incorrect i [] = none
first_correct incorrect i (item ∷ items) =
    let rest = first_correct incorrect (suc i) items in
    if is_incorrect incorrect i then rest else some_or item.physical_index rest

-- And of the last one
unfoldable pub last_correct : List Incorrect → ℕ → List Entry → Option ℤ
last_correct incorrect i [] = none
last_correct incorrect i (item ∷ items) =
    some_or (last_correct incorrect (suc i) items)
      (if is_incorrect incorrect i then none else item.physical_index)

abbrev or_index : ℤ → Option ℤ → ℤ
or_index default none = default
or_index default (some i) = i

-- The pages whose index lies from `low` to `high`, in order, each with its index
unfoldable pub pages_between : ℤ → ℤ → ℕ → List Page → List (ℕ × String)
pages_between low high index [] = []
pages_between low high index (page ∷ pages) =
    let rest = pages_between low high (suc index) pages in
    if ltb_ℤ (pos index) low || ltb_ℤ high (pos index) then rest else (index, page.0) ∷ rest

-- What comes of one item: an exception or a result
pub data Outcome : Type 0 where
  raised : Outcome
  fixed : ℕ → String → Option ℤ → (is_valid : Bool) → Outcome

module _ (fixer : ℕ → String → List (ℕ × String) → Option (Option ℤ))
    (judge : ℕ → String → String → Option String) (page_list : List Page) (start_index : ℕ) where
  abbrev pub judged : Incorrect → Option ℤ → Option String → Outcome
  judged item physical_index none = raised
  judged item physical_index (some answer) =
      fixed item.list_index item.title physical_index (str_eq answer "yes")

  abbrev pub check_fixed : ℕ → Incorrect → Option (Option ℤ) → Outcome
  check_fixed attempt item none = raised
  check_fixed attempt item (some physical_index) =
      judged item physical_index
        (check_title (judge attempt) page_list start_index item.title physical_index)

  unfoldable pub content_range : List Entry → List Incorrect → ℕ → List (ℕ × String)
  unfolding first_correct last_correct pages_between
  content_range toc incorrect list_index =
      pages_between
        (or_index (pos start_index -ℤ pos 1) (last_correct incorrect 0 (take list_index toc)))
        (or_index (last_index page_list start_index)
          (first_correct incorrect (suc list_index) (drop (suc list_index) toc)))
        start_index page_list

  unfoldable pub process_item : ℕ → List Entry → List Incorrect → Incorrect → Outcome
  unfolding content_range
  process_item attempt toc incorrect item =
      if leb (length toc) item.list_index
      then fixed item.list_index item.title item.physical_index false
      else check_fixed attempt item
          (fixer attempt item.title (content_range toc incorrect item.list_index))

  abbrev pub with_index : Option ℤ → Entry → Entry
  with_index physical_index item = record item { physical_index = physical_index }

  abbrev pub add_invalid : Incorrect → List Entry × List Incorrect → List Entry × List Incorrect
  add_invalid item (toc, invalid) = (toc, item ∷ invalid)

  -- The loop over the results, in order
  unfoldable pub apply_results : List Outcome → List Entry → List Entry × List Incorrect
  apply_results [] toc = (toc, [])
  apply_results (raised ∷ results) toc = apply_results results toc
  apply_results (fixed i title physical_index is_valid ∷ results) toc =
      let written = apply_results results (modify_at i (with_index physical_index) toc) in
      let unwritten = apply_results results toc in
      if is_valid && ltb i (length toc)
      then written
      else add_invalid (record { list_index = i; title = title; physical_index = physical_index })
          unwritten

  unfoldable pub process_all : ℕ → List Entry → List Incorrect → List Incorrect → List Outcome
  unfolding process_item
  process_all attempt toc incorrect [] = []
  process_all attempt toc incorrect (item ∷ items) =
      process_item attempt toc incorrect item ∷ process_all attempt toc incorrect items

  unfoldable pub fix_incorrect_toc : ℕ → List Entry → List Incorrect → List Entry × List Incorrect
  unfolding apply_results process_all
  fix_incorrect_toc attempt toc incorrect =
      apply_results (process_all attempt toc incorrect incorrect) toc

  -- The `while`, with the attempts that may follow the next one
  unfoldable pub fix_again : ℕ → ℕ → List Entry → List Incorrect → List Entry × List Incorrect
  unfolding fix_incorrect_toc
  fix_again left attempt toc [] = (toc, [])
  fix_again zero attempt toc (item ∷ items) = fix_incorrect_toc attempt toc (item ∷ items)
  fix_again (suc left) attempt toc (item ∷ items) =
      let (toc', invalid) = fix_incorrect_toc attempt toc (item ∷ items) in
      fix_again left (suc attempt) toc' invalid

  unfoldable pub fix_with_retries :
      (max_attempts : ℕ) → List Entry → List Incorrect → List Entry × List Incorrect
  unfolding fix_again
  fix_with_retries max_attempts toc incorrect = fix_again (max_attempts - 1) 0 toc incorrect
