-- ===== src/Toc/Offset.antt =====
-- From printed page numbers to page indices: `extract_matching_page_pairs`,
-- `calculate_page_offset` and `add_page_offset_to_toc_json`. `int(…)` of a text, which may raise,
-- is an argument.
use fast_page.Prelude.{
  ℕ, suc, String, Bool, false, Option, none, some, List, [], ◌∷◌, ◌++◌, map, ltb, if◌then◌else◌,
  not,
}
use fast_page.Prelude.Int.{ℤ, ◌+ℤ◌, ◌-ℤ◌, ltb_ℤ}
use fast_page.Toc.Items.{Slot, absent, null, int, text, TocItem, title_eq, eq_ℤ}

pub record Pair : Type 0 where
  pub title : Option String
  pub page : Slot
  pub physical_index : Slot

module _ (to_int : String → Option ℤ) (start_page_index : ℤ) where
  -- `physical_index is not None and int(physical_index) >= start_page_index`; `none` is an error.
  abbrev pub is_after : Slot → Option Bool
  is_after absent = some false
  is_after null = some false
  is_after (int i) = some (not (ltb_ℤ i start_page_index))
  is_after (text t) = elim (to_int t) [
    | none ↦ none
    | some i ↦ some (not (ltb_ℤ i start_page_index))
  ]

  abbrev pub pair_of : TocItem → TocItem → Pair
  pair_of phy_item page_item = record {
    title = phy_item.title;
    page = page_item.page;
    physical_index = phy_item.physical_index;
  }

  abbrev pub add_pair : Option Bool → Pair → Option (List Pair) → Option (List Pair)
  add_pair none pair pairs = none
  add_pair (some b) pair none = none
  add_pair (some b) pair (some pairs) = some (if b then pair ∷ pairs else pairs)

  -- The inner loop
  unfoldable pub pairs_with : TocItem → List TocItem → Option (List Pair)
  pairs_with phy_item [] = some []
  pairs_with phy_item (page_item ∷ rest) =
      let more = pairs_with phy_item rest in
      if title_eq phy_item.title page_item.title
      then add_pair (is_after phy_item.physical_index) (pair_of phy_item page_item) more
      else more

  abbrev append_pairs : Option (List Pair) → Option (List Pair) → Option (List Pair)
  append_pairs none more = none
  append_pairs (some pairs) none = none
  append_pairs (some pairs) (some more) = some (pairs ++ more)

  unfoldable pub matching_page_pairs : List TocItem → List TocItem → Option (List Pair)
  unfolding pairs_with
  matching_page_pairs toc_page [] = some []
  matching_page_pairs toc_page (phy_item ∷ rest) =
      append_pairs (pairs_with phy_item toc_page) (matching_page_pairs toc_page rest)

-- `physical_index - page_number` is a `TypeError` unless both are integers.
abbrev pub difference : Pair → Option ℤ
difference pair = elim pair.physical_index [
  | int i ↦ elim pair.page [ int n ↦ some (i -ℤ n) | _ ↦ none ]
  | _ ↦ none
]

abbrev pub and_more : Option ℤ → List ℤ → List ℤ
and_more none ds = ds
and_more (some d) ds = d ∷ ds

unfoldable pub differences : List Pair → List ℤ
differences [] = []
differences (pair ∷ pairs) = and_more (difference pair) (differences pairs)

-- `difference_counts[diff] = difference_counts.get(diff, 0) + 1`
unfoldable pub count_one : ℤ → List (ℤ × ℕ) → List (ℤ × ℕ)
count_one d [] = (d, 1) ∷ []
count_one d ((e, n) ∷ counts) =
    let rest = count_one d counts in if eq_ℤ e d then (e, suc n) ∷ counts else (e, n) ∷ rest

unfoldable pub count_all : List (ℤ × ℕ) → List ℤ → List (ℤ × ℕ)
unfolding count_one
count_all counts [] = counts
count_all counts (d ∷ ds) = count_all (count_one d counts) ds

-- `max(…, key=…)`: the first of those with the largest count
unfoldable pub most_common : ℤ × ℕ → List (ℤ × ℕ) → ℤ × ℕ
most_common best [] = best
most_common best (c ∷ cs) =
    let keep_best = most_common best cs in
    let take_c = most_common c cs in if ltb best.1 c.1 then take_c else keep_best

abbrev pub largest : List (ℤ × ℕ) → Option ℤ
largest [] = none
largest (c ∷ cs) = some (most_common c cs).0

unfoldable pub calculate_page_offset : List Pair → Option ℤ
unfolding differences count_all most_common
calculate_page_offset pairs = largest (count_all [] (differences pairs))

abbrev pub add_offset : ℤ → TocItem → TocItem
add_offset offset item = elim item.page [
  | int n ↦ record item { physical_index = int (n +ℤ offset); page = absent }
  | _ ↦ item
]

unfoldable pub add_page_offset : List TocItem → ℤ → List TocItem
add_page_offset items offset = map (add_offset offset) items
