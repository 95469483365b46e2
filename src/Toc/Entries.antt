-- ===== src/Toc/Entries.antt =====
-- The entries once their indices are integers or `None`, and
-- `validate_and_truncate_physical_indices`, whose comparison raises for any other index.
use fast_page.Prelude.{
  ℕ, suc, ◌+◌, ◌-◌, String, Bool, false, Option, none, some, List, map, leb, length, get_elem?,
  if◌then◌else◌,
}
use fast_page.Prelude.Int.{ℤ, pos, negsuc, ◌-ℤ◌, ltb_ℤ}
use fast_page.Toc.FindPages.{Page}

pub record Entry : Type 0 where
  pub structure : Option String
  pub title : String
  pub physical_index : Option ℤ

-- `len(page_list) + start_index - 1`
abbrev pub last_index : List Page → ℕ → ℤ
last_index page_list start_index = pos (length page_list + start_index) -ℤ pos 1

abbrev pub too_far : ℤ → Option ℤ → Bool
too_far max_allowed_page none = false
too_far max_allowed_page (some i) = ltb_ℤ max_allowed_page i

abbrev pub truncate : ℤ → Entry → Entry
truncate max_allowed_page item =
    if too_far max_allowed_page item.physical_index
    then record item { physical_index = none }
    else item

unfoldable pub validate_and_truncate : List Page → ℕ → List Entry → List Entry
validate_and_truncate page_list start_index = map (truncate (last_index page_list start_index))

-- `xs[i]`: an index below 0 counts from the end; `none` is the `IndexError`.
abbrev pub subscript {ℓ} : {A : Type ℓ} → List A → ℤ → Option A
subscript xs (pos i) = get_elem? xs i
subscript xs (negsuc i) = if leb (suc i) (length xs) then get_elem? xs (length xs - suc i) else none
