-- ===== src/Toc/Check.antt =====
-- `check_title_appearance` and `verify_toc` (of all items, as its caller asks). The model's answer
-- for a title and a page text is an argument; `none` is an exception.
use fast_page.Prelude.{
  ℕ, suc, ◌*◌, String, Bool, true, ◌&&◌, Option, none, some, List, [], ◌∷◌, ltb, ◌==◌, length,
  str_eq, if◌then◌else◌,
}
use fast_page.Prelude.Int.{ℤ, pos, ◌-ℤ◌, ◌+ℤ◌, ltb_ℤ}
use fast_page.Toc.FindPages.{Page}
use fast_page.Toc.Entries.{Entry, subscript}

pub record Incorrect : Type 0 where
  pub list_index : ℕ
  pub title : String
  pub physical_index : Option ℤ

pub record Tally : Type 0 where
  pub correct_count : ℕ
  pub checked_count : ℕ
  pub incorrect_results : List Incorrect

abbrev pub no_tally : Tally
no_tally = record { correct_count = 0; checked_count = 0; incorrect_results = [] }

module _ (judge : String → String → Option String) (page_list : List Page) (start_index : ℕ) where
  -- The answer to "does the section start on this page?"
  unfoldable pub check_title : String → Option ℤ → Option String
  check_title title none = some "no"
  check_title title (some page_number) =
      elim (subscript page_list (page_number -ℤ pos start_index)) [
        | none ↦ none
        | some page ↦ judge title page.0
      ]

  abbrev pub tally : ℕ → Entry → Option String → Option Tally → Option Tally
  tally i item none rest = none
  tally i item (some answer) none = none
  tally i item (some answer) (some t) =
      if str_eq answer "yes"
      then some
          (record t { correct_count = suc t.correct_count; checked_count = suc t.checked_count })
      else some (record t {
        checked_count = suc t.checked_count;
        incorrect_results =
            record { list_index = i; title = item.title; physical_index = none }
            ∷ t.incorrect_results;
      })

  abbrev pub skip_null : ℕ → Entry → Option ℤ → Option Tally → Option Tally
  skip_null i item none rest = rest
  skip_null i item (some page_number) rest =
      tally i item (check_title item.title (some page_number)) rest

  -- The checks of the items from index `i` on
  unfoldable pub check_all : ℕ → List Entry → Option Tally
  unfolding check_title
  check_all i [] = some no_tally
  check_all i (item ∷ items) = skip_null i item item.physical_index (check_all (suc i) items)

  abbrev or_earlier : Option ℤ → Option ℤ → Option ℤ
  or_earlier (some i) current = some i
  or_earlier none current = current

  unfoldable pub last_physical_index : List Entry → Option ℤ
  last_physical_index [] = none
  last_physical_index (item ∷ items) = or_earlier (last_physical_index items) item.physical_index

  -- `last_physical_index is None or last_physical_index < len(page_list) / 2`
  abbrev too_early : Option ℤ → Bool
  too_early none = true
  too_early (some i) = ltb_ℤ (i +ℤ i) (pos (length page_list))

  unfoldable pub verify_toc : List Entry → Option Tally
  unfolding last_physical_index check_all
  verify_toc items =
      let checked = check_all 0 items in
      if too_early (last_physical_index items) then some no_tally else checked

-- `accuracy == 1.0` and `accuracy > 0.6`, of the quotient that is 0 where nothing is checked
abbrev pub all_correct : ℕ → ℕ → Bool
all_correct correct checked = ltb 0 checked && correct == checked

abbrev pub mostly_correct : ℕ → ℕ → Bool
mostly_correct correct checked = ltb 0 checked && ltb (6 * checked) (10 * correct)
