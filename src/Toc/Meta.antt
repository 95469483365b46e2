-- ===== src/Toc/Meta.antt =====
-- `meta_processor`: from a mode to the entries, or on to the next mode. The entries that a mode
-- makes are an argument.
use fast_page.Prelude.{
  ℕ, String, Bool, true, false, not, ◌&&◌, Option, none, some, List, [], ◌∷◌, keep, if◌then◌else◌,
}
use fast_page.Prelude.Int.{ℤ}
use fast_page.Toc.FindPages.{Page}
use fast_page.Toc.Entries.{Entry, validate_and_truncate}
use fast_page.Toc.Check.{Tally, verify_toc, all_correct, mostly_correct}
use fast_page.Toc.Fix.{fix_with_retries}

pub data Mode : Type 0 where
  with_page_numbers : Mode
  no_page_numbers : Mode
  no_toc : Mode

abbrev pub has_index : Entry → Bool
has_index item = elim item.physical_index [ none ↦ false | some i ↦ true ]

abbrev pub is_empty_list {ℓ} : {A : Type ℓ} → List A → Bool
is_empty_list [] = true
is_empty_list (x ∷ xs) = false

-- Entries, another mode, or an exception
pub data Verdict : Type 0 where
  accepted : List Entry → Verdict
  refused : Verdict
  failed : Verdict

abbrev pub or_next : Verdict → Option (List Entry) → Option (List Entry)
or_next (accepted toc) next = some toc
or_next refused next = next
or_next failed next = none

module _ (fixer : ℕ → String → List (ℕ × String) → Option (Option ℤ))
    (judge : ℕ → String → String → Option String) (page_list : List Page) (start_index : ℕ) where
  -- The end of `meta_processor`, by the outcome of `verify_toc`
  unfoldable pub decide : List Entry → Option Tally → Verdict
  decide toc none = failed
  decide toc (some t) =
      if all_correct t.correct_count t.checked_count && is_empty_list t.incorrect_results
      then accepted toc
      else if mostly_correct t.correct_count t.checked_count
          && not (is_empty_list t.incorrect_results)
      then accepted (fix_with_retries fixer judge page_list start_index 3 toc t.incorrect_results).0
      else refused

  module _ (process : Mode → List Entry) where
    unfoldable pub prepared : Mode → List Entry
    unfolding validate_and_truncate
    prepared mode = validate_and_truncate page_list start_index (keep has_index (process mode))

    unfoldable pub attempt_mode : Mode → Verdict
    unfolding prepared decide
    attempt_mode mode =
        decide (prepared mode) (verify_toc (judge 0) page_list start_index (prepared mode))

    -- `none` is an exception, the model's or "Processing failed".
    unfoldable pub meta_processor : Mode → Option (List Entry)
    unfolding attempt_mode
    meta_processor no_toc = or_next (attempt_mode no_toc) none
    meta_processor no_page_numbers =
        or_next (attempt_mode no_page_numbers) (or_next (attempt_mode no_toc) none)
    meta_processor with_page_numbers =
        or_next (attempt_mode with_page_numbers)
          (or_next (attempt_mode no_page_numbers) (or_next (attempt_mode no_toc) none))
