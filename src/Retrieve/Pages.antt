-- ===== src/Retrieve/Pages.antt =====
-- `_parse_pages` of pageindex/retrieve.py; `none` is a ValueError.
use fast_page.Prelude.{ℕ, zero, suc, Option, none, some, List, [], ◌∷◌, ◌++◌, if◌then◌else◌}
use fast_page.Prelude.Int.{ℤ, pos, pos_part, ◌+ℤ◌, ◌-ℤ◌, ltb_ℤ}
use fast_page.Chars.{Text, strip, split_once, split_on}
use fast_page.Toc.Items.{eq_ℤ}
use fast_page.Retrieve.Numbers.{parse_int}

-- `range(start, start + count)`
unfoldable pub range_from : ℤ → (count : ℕ) → List ℤ
range_from start zero = []
range_from start (suc count) = start ∷ range_from (start +ℤ pos 1) count

-- `range(start, end + 1)` where start is at most end
unfoldable pub page_range : ℤ → ℤ → List ℤ
unfolding range_from
page_range start end = range_from start (suc (pos_part (end -ℤ start)))

abbrev pub range_of : Option ℤ → Option ℤ → Option (List ℤ)
range_of none end = none
range_of (some start) none = none
range_of (some start) (some end) = if ltb_ℤ end start then none else some (page_range start end)

abbrev pub single : Option ℤ → Option (List ℤ)
single none = none
single (some n) = some (n ∷ [])

abbrev pub split_part : Text × Option Text → Option (List ℤ)
split_part (part, none) = single (parse_int part)
split_part (start, some end) = range_of (parse_int (strip start)) (parse_int (strip end))

-- The pages of one part
unfoldable pub parse_part : Text → Option (List ℤ)
unfolding split_once strip
parse_part part = split_part (split_once b'-' (strip part))

abbrev pub extend : Option (List ℤ) → Option (List ℤ) → Option (List ℤ)
extend none rest = none
extend (some ns) none = none
extend (some ns) (some rest) = some (ns ++ rest)

unfoldable pub parse_parts : List Text → Option (List ℤ)
unfolding parse_part
parse_parts [] = some []
parse_parts (part ∷ parts) = extend (parse_part part) (parse_parts parts)

-- `sorted(set(result))`
unfoldable pub insert_page : ℤ → List ℤ → List ℤ
insert_page n [] = n ∷ []
insert_page n (m ∷ ms) =
    let rest = insert_page n ms in
    if ltb_ℤ n m then n ∷ m ∷ ms else if eq_ℤ n m then m ∷ ms else m ∷ rest

unfoldable pub sorted_set : List ℤ → List ℤ
unfolding insert_page
sorted_set [] = []
sorted_set (n ∷ ns) = insert_page n (sorted_set ns)

abbrev pub sort_pages : Option (List ℤ) → Option (List ℤ)
sort_pages none = none
sort_pages (some ns) = some (sorted_set ns)

unfoldable pub parse_pages : Text → Option (List ℤ)
unfolding parse_parts split_on sorted_set
parse_pages pages = sort_pages (parse_parts (split_on b',' pages))
