-- ===== src/Toc/Frame.antt =====
-- What fixing a table of contents leaves as it is, and what it writes.
use fast_page.Prelude.{
  ℕ, zero, suc, ◌-◌, ◌≡◌, ◌⊎◌, inl, inr, refl, sym, ap, subst, ◌∙◌, String, true, ◌&&◌, Option,
  none, some, List, [], ◌∷◌, leb, ltb, length, modify_at, str_eq, Bool-cases, Option-cases, arith,
  All,
}
use fast_page.Prelude.Int.{ℤ}
use fast_page.Toc.FindPages.{Page}
use fast_page.Toc.Entries.{Entry}
use fast_page.Toc.Check.{Incorrect, check_title}
use fast_page.Toc.Fix.{
  is_incorrect, Outcome, raised, fixed, check_fixed, process_item, with_index, apply_results,
  process_all, fix_incorrect_toc, fix_again, fix_with_retries,
}
use fast_page.Toc.Each2.{Each2, Each2-refl, Each2-trans, Each2-modify_at}

module _ (fixer : ℕ → String → List (ℕ × String) → Option (Option ℤ))
    (judge : ℕ → String → String → Option String) (page_list : List Page) (start_index : ℕ) where
  -- In some attempt the model said that a section starts on this page.
  abbrev pub IsJudged : Option ℤ → Type 0
  IsJudged physical_index =
      (attempt : ℕ) × (title : String) × (answer : String) × (check_title (judge attempt) page_list
          start_index title physical_index
        ≡ some answer)
      × (str_eq answer "yes" ≡ true)

  -- The index is as before, or it was held incorrect and the model has confirmed the new one.
  abbrev pub IsFixed : List Incorrect → ℕ → Entry → Entry → Type 0
  IsFixed incorrect i a b =
      (b.structure ≡ a.structure)
      × (b.title ≡ a.title)
      × ((b.physical_index ≡ a.physical_index)
          ⊎ ((is_incorrect incorrect i ≡ true) × IsJudged b.physical_index))

  IsFixed-refl : (incorrect : List Incorrect) (i : ℕ) (a : Entry) → IsFixed incorrect i a a
  IsFixed-refl incorrect i a = (refl, refl, inl refl)

  IsFixed-trans :
      (incorrect : List Incorrect) (i : ℕ) (a b c : Entry)
      → IsFixed incorrect i a b
      → IsFixed incorrect i b c
      → IsFixed incorrect i a c
  IsFixed-trans incorrect i a b c (s, t, inl p) (s', t', inl q) = (s' ∙ s, t' ∙ t, inl (q ∙ p))
  IsFixed-trans incorrect i a b c (s, t, inr (held, p)) (s', t', inl q) =
      (s' ∙ s, t' ∙ t, inr (held, subst IsJudged (sym q) p))
  IsFixed-trans incorrect i a b c (s, t, p) (s', t', inr q) = (s' ∙ s, t' ∙ t, inr q)

  -- The result is about an item held incorrect, and if it is valid the model has confirmed it.
  abbrev IsSound : List Incorrect → Outcome → Type 0
  IsSound incorrect raised = Unit
  IsSound incorrect (fixed i title physical_index is_valid) =
      (is_incorrect incorrect i ≡ true) × (is_valid ≡ true → IsJudged physical_index)

  -- Of these, all are among those held incorrect.
  abbrev AreAmong : List Incorrect → List Incorrect → Type 0
  AreAmong incorrect = All (λ (r : Incorrect). is_incorrect incorrect r.list_index ≡ true)

  apply_results-IsFixed :
      (incorrect : List Incorrect) (results : List Outcome) (toc : List Entry)
      → All (IsSound incorrect) results
      → Each2
          (IsFixed incorrect)
          0
          toc
          (apply_results fixer judge page_list start_index results toc).0
        × AreAmong incorrect (apply_results fixer judge page_list start_index results toc).1
  unfolding apply_results
  apply_results-IsFixed incorrect [] toc sound =
      (Each2-refl (IsFixed incorrect) 0 toc (IsFixed-refl incorrect), tt)
  apply_results-IsFixed incorrect (raised ∷ results) toc sound =
      apply_results-IsFixed incorrect results toc sound.1
  apply_results-IsFixed incorrect (fixed i title p valid ∷ results) toc sound =
      let (held, confirmed) = sound.0 in
      elim (Bool-cases (valid && ltb i (length toc))) [
        | inl both ↦
            let f = with_index fixer judge page_list start_index p in
            let (later, among) =
              apply_results-IsFixed incorrect results (modify_at i f toc) sound.1 in
            let written : Each2 (IsFixed incorrect) 0 toc (modify_at i f toc) =
              Each2-modify_at (IsFixed incorrect) 0 i f toc (IsFixed-refl incorrect) (λ k a e. (
                refl,
                refl,
                inr (
                  ap (is_incorrect incorrect) (e ∙ omega arith) ∙ held,
                  confirmed (ground (arith, both)),
                ),
              )) in
            rw both (
              Each2-trans (IsFixed incorrect) 0 toc (modify_at i f toc) _ (IsFixed-trans incorrect)
                  written later,
              among,
            )
        | inr not_both ↦
            let (later, among) = apply_results-IsFixed incorrect results toc sound.1 in
            rw not_both (later, (held, among))
      ]

  check_fixed-IsSound :
      (incorrect : List Incorrect) (attempt : ℕ) (item : Incorrect) (found : Option (Option ℤ))
      → is_incorrect incorrect item.list_index ≡ true
      → IsSound incorrect (check_fixed fixer judge page_list start_index attempt item found)
  check_fixed-IsSound incorrect attempt item none held = tt
  check_fixed-IsSound incorrect attempt item (some p) held =
      elim (Option-cases (check_title (judge attempt) page_list start_index item.title p)) [
        | inl error ↦ rw error tt
        | inr (answer, got) ↦ rw got (held, λ valid. (attempt, item.title, answer, got, valid))
      ]

  process_item-IsSound :
      (incorrect : List Incorrect) (attempt : ℕ) (toc : List Entry) (held_now : List Incorrect)
      (item : Incorrect)
      → is_incorrect incorrect item.list_index ≡ true
      → IsSound incorrect (process_item fixer judge page_list start_index attempt toc held_now item)
  unfolding process_item
  process_item-IsSound incorrect attempt toc held_now item held =
      elim (Bool-cases (leb (length toc) item.list_index)) [
        | inl outside ↦ rw outside (held, λ valid. ground (arith, valid))
        | inr inside ↦ rw inside (check_fixed-IsSound incorrect attempt item _ held)
      ]

  process_all-IsSound :
      (incorrect : List Incorrect) (attempt : ℕ) (toc : List Entry)
      (held_now items : List Incorrect)
      → AreAmong incorrect items
      → All
          (IsSound incorrect)
          (process_all fixer judge page_list start_index attempt toc held_now items)
  unfolding process_all
  process_all-IsSound incorrect attempt toc held_now [] among = tt
  process_all-IsSound incorrect attempt toc held_now (item ∷ items) among = (
    process_item-IsSound incorrect attempt toc held_now item among.0,
    process_all-IsSound incorrect attempt toc held_now items among.1,
  )

  fix_incorrect_toc-IsFixed :
      (incorrect : List Incorrect) (attempt : ℕ) (toc : List Entry) (items : List Incorrect)
      → AreAmong incorrect items
      → Each2
          (IsFixed incorrect)
          0
          toc
          (fix_incorrect_toc fixer judge page_list start_index attempt toc items).0
        × AreAmong incorrect
            (fix_incorrect_toc fixer judge page_list start_index attempt toc items).1
  unfolding fix_incorrect_toc
  fix_incorrect_toc-IsFixed incorrect attempt toc items among =
      apply_results-IsFixed incorrect
        (process_all fixer judge page_list start_index attempt toc items items) toc
        (process_all-IsSound incorrect attempt toc items items among)

  fix_again-IsFixed :
      (incorrect : List Incorrect) (left attempt : ℕ) (toc : List Entry) (items : List Incorrect)
      → AreAmong incorrect items
      → Each2
          (IsFixed incorrect)
          0
          toc
          (fix_again fixer judge page_list start_index left attempt toc items).0
        × AreAmong incorrect (fix_again fixer judge page_list start_index left attempt toc items).1
  unfolding fix_again
  fix_again-IsFixed incorrect zero attempt toc [] among =
      (Each2-refl (IsFixed incorrect) 0 toc (IsFixed-refl incorrect), tt)
  fix_again-IsFixed incorrect (suc left) attempt toc [] among =
      (Each2-refl (IsFixed incorrect) 0 toc (IsFixed-refl incorrect), tt)
  fix_again-IsFixed incorrect zero attempt toc (item ∷ items) among =
      fix_incorrect_toc-IsFixed incorrect attempt toc (item ∷ items) among
  fix_again-IsFixed incorrect (suc left) attempt toc (item ∷ items) among =
      let once = fix_incorrect_toc fixer judge page_list start_index attempt toc (item ∷ items) in
      let (now, among_now) = fix_incorrect_toc-IsFixed incorrect attempt toc (item ∷ items) among in
      let (later, among_later) =
        fix_again-IsFixed incorrect left (suc attempt) once.0 once.1 among_now in
      (
        Each2-trans (IsFixed incorrect) 0 toc once.0 _ (IsFixed-trans incorrect) now later,
        among_later,
      )

  AreAmong-any :
      (incorrect items : List Incorrect)
      → ((i : ℕ) → is_incorrect items i ≡ true → is_incorrect incorrect i ≡ true)
      → AreAmong incorrect items
  AreAmong-any incorrect [] h = tt
  AreAmong-any incorrect (r ∷ rs) h =
      (h r.list_index (ground arith), AreAmong-any incorrect rs (λ i e. h i (ground (arith, e))))

  pub fix_with_retries-IsFixed :
      (max_attempts : ℕ) (toc : List Entry) (incorrect : List Incorrect)
      → Each2
          (IsFixed incorrect)
          0
          toc
          (fix_with_retries fixer judge page_list start_index max_attempts toc incorrect).0
        × All
            (λ (r : Incorrect). is_incorrect incorrect r.list_index ≡ true)
            (fix_with_retries fixer judge page_list start_index max_attempts toc incorrect).1
  unfolding fix_with_retries
  fix_with_retries-IsFixed max_attempts toc incorrect =
      fix_again-IsFixed incorrect (max_attempts - 1) 0 toc incorrect
        (AreAmong-any incorrect incorrect (λ i h. h))
