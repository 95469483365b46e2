-- ===== src/Toc/Bounded.antt =====
-- No entry that `meta_processor` returns lies beyond the last page.
use fast_page.Prelude.{
  ℕ, suc, ◌+◌, ◌<◌, ◌≡◌, inl, inr, refl, ap, subst, ◌∙◌, String, false, not, ◌&&◌, Option, none,
  some, List, [], ◌∷◌, ltb, length, get_elem?-ge, keep, Bool-cases, Option-cases, arith, All,
}
use fast_page.Prelude.Int.{ℤ, pos, negsuc, pos_part, neg_part, ◌-ℤ◌, -ℤ_parts}
use fast_page.Toc.FindPages.{Page}
use fast_page.Toc.Entries.{Entry, last_index, too_far, validate_and_truncate, subscript}
use fast_page.Toc.Check.{Incorrect, Tally, check_title, verify_toc, all_correct, mostly_correct}
use fast_page.Toc.Meta.{
  Mode, with_page_numbers, no_page_numbers, no_toc, has_index, is_empty_list, Verdict, accepted,
  refused, failed, prepared, decide, attempt_mode, or_next, meta_processor,
}
use fast_page.Toc.Each2.{Each2}
use fast_page.Toc.Frame.{IsFixed, fix_with_retries-IsFixed}

-- The entry has no index, or one of at most the last page's.
abbrev pub IsInside : List Page → ℕ → Entry → Type 0
IsInside page_list start_index item =
    too_far (last_index page_list start_index) item.physical_index ≡ false

validate_and_truncate-IsInside :
    (page_list : List Page) (start_index : ℕ) (items : List Entry)
    → All (IsInside page_list start_index) (validate_and_truncate page_list start_index items)
unfolding validate_and_truncate
validate_and_truncate-IsInside page_list start_index [] = tt
validate_and_truncate-IsInside page_list start_index (item ∷ items) = (
  elim (Bool-cases (too_far (last_index page_list start_index) item.physical_index)) [
    | inl beyond ↦ rw beyond refl
    | inr inside ↦ rw inside inside
  ],
  validate_and_truncate-IsInside page_list start_index items,
)

subscript-lt :
    {A : Type 0} (xs : List A) (i : ℤ) {x : A}
    → subscript xs i ≡ some x
    → pos_part i < length xs + neg_part i
subscript-lt xs (negsuc i) h = omega arith
subscript-lt xs (pos i) h = elim (Bool-cases (ltb i (length xs))) [
  | inl inside ↦ ground (arith, inside)
  | inr outside ↦ ground (arith, outside, get_elem?-ge i xs (ground (arith, outside)))
]

-- A page that a check has read is not beyond the last.
check_title-inside :
    (judge : String → String → Option String) (page_list : List Page) (start_index : ℕ)
    (title : String) (p : Option ℤ) {answer : String}
    → check_title judge page_list start_index title p ≡ some answer
    → too_far (last_index page_list start_index) p ≡ false
unfolding check_title
check_title-inside judge page_list start_index title none h = refl
check_title-inside judge page_list start_index title (some i) h =
    elim (Option-cases (subscript page_list (i -ℤ pos start_index))) [
      | inl error ↦ ground (arith, error)
      | inr (page, read) ↦ ground (
        arith,
        subscript-lt page_list (i -ℤ pos start_index) read,
        -ℤ_parts i (pos start_index),
        -ℤ_parts (pos (length page_list + start_index)) (pos 1),
      )
    ]

module _ (fixer : ℕ → String → List (ℕ × String) → Option (Option ℤ))
    (judge : ℕ → String → String → Option String) (page_list : List Page) (start_index : ℕ) where
  fixed-IsInside :
      (incorrect : List Incorrect) (i : ℕ) (toc toc' : List Entry)
      → Each2 (IsFixed fixer judge page_list start_index incorrect) i toc toc'
      → All (IsInside page_list start_index) toc
      → All (IsInside page_list start_index) toc'
  fixed-IsInside incorrect i [] [] h inside = tt
  fixed-IsInside incorrect i [] (b ∷ bs) h inside = absurd h
  fixed-IsInside incorrect i (a ∷ rest) [] h inside = tt
  fixed-IsInside incorrect i (a ∷ rest) (b ∷ bs) ((s, t, inl same), later) inside = (
    ap (too_far (last_index page_list start_index)) same ∙ inside.0,
    fixed-IsInside incorrect (suc i) rest bs later inside.1,
  )
  fixed-IsInside incorrect i (a ∷ rest) (b ∷ bs)
        ((s, t, inr (held, (attempt, title, answer, got, says))), later) inside =
      (
        check_title-inside (judge attempt) page_list start_index title b.physical_index got,
        fixed-IsInside incorrect (suc i) rest bs later inside.1,
      )

  -- A verdict's entries, if it has any
  abbrev VerdictInside : Verdict → Type 0
  VerdictInside (accepted toc) = All (IsInside page_list start_index) toc
  VerdictInside refused = Unit
  VerdictInside failed = Unit

  decide-inside :
      (toc : List Entry) (o : Option Tally)
      → All (IsInside page_list start_index) toc
      → VerdictInside (decide fixer judge page_list start_index toc o)
  unfolding decide
  decide-inside toc none inside = tt
  decide-inside toc (some t) inside =
      elim (Bool-cases
        (all_correct t.correct_count t.checked_count && is_empty_list t.incorrect_results)) [
          | inl right ↦ rw right inside
          | inr wrong ↦
              elim (Bool-cases (
                mostly_correct t.correct_count t.checked_count
                && not (is_empty_list t.incorrect_results))) [
                  | inl mostly ↦
                      rw (wrong, mostly)
                        (fixed-IsInside t.incorrect_results 0 toc _
                          (fix_with_retries-IsFixed fixer judge page_list start_index 3 toc
                            t.incorrect_results).0
                          inside)
                  | inr hardly ↦ rw (wrong, hardly) tt
                ]
        ]

  module _ (process : Mode → List Entry) where
    attempt_mode-inside :
        (mode : Mode) → VerdictInside (attempt_mode fixer judge page_list start_index process mode)
    unfolding attempt_mode prepared
    attempt_mode-inside mode =
        decide-inside (prepared fixer judge page_list start_index process mode)
          (verify_toc (judge 0) page_list start_index
            (prepared fixer judge page_list start_index process mode))
          (validate_and_truncate-IsInside page_list start_index (keep has_index (process mode)))

    abbrev mode_verdict : Mode → Verdict
    mode_verdict = attempt_mode fixer judge page_list start_index process

    abbrev OptionInside : Option (List Entry) → Type 0
    OptionInside none = Unit
    OptionInside (some toc) = All (IsInside page_list start_index) toc

    or_next-inside :
        (v : Verdict) (next : Option (List Entry))
        → VerdictInside v
        → OptionInside next
        → OptionInside (or_next v next)
    or_next-inside (accepted toc) next inside later = inside
    or_next-inside refused next inside later = later
    or_next-inside failed next inside later = tt

    meta_processor-inside :
        (mode : Mode) → OptionInside (meta_processor fixer judge page_list start_index process mode)
    unfolding meta_processor
    meta_processor-inside no_toc =
        or_next-inside (mode_verdict no_toc) none (attempt_mode-inside no_toc) tt
    meta_processor-inside no_page_numbers =
        or_next-inside (mode_verdict no_page_numbers) (or_next (mode_verdict no_toc) none)
          (attempt_mode-inside no_page_numbers)
          (or_next-inside (mode_verdict no_toc) none (attempt_mode-inside no_toc) tt)
    meta_processor-inside with_page_numbers =
        or_next-inside (mode_verdict with_page_numbers)
          (or_next (mode_verdict no_page_numbers) (or_next (mode_verdict no_toc) none))
          (attempt_mode-inside with_page_numbers)
          (or_next-inside (mode_verdict no_page_numbers) (or_next (mode_verdict no_toc) none)
            (attempt_mode-inside no_page_numbers)
            (or_next-inside (mode_verdict no_toc) none (attempt_mode-inside no_toc) tt))

    -- Whatever the model answers, an entry of a table of contents that `meta_processor` returns has
    -- either no page index or one that is at most that of the last page, through every mode and
    -- after all fixes.
    pub meta_processor-IsInside :
        (mode : Mode) {toc : List Entry}
        → meta_processor fixer judge page_list start_index process mode ≡ some toc
        → All (IsInside page_list start_index) toc
    meta_processor-IsInside mode h = subst OptionInside h (meta_processor-inside mode)
