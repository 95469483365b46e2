-- ===== src/Retrieve/Selected.antt =====
-- The results that a walk along the nodes collects, and sorting them.
use fast_page.Prelude.{
  ◌≡◌, inl, inr, refl, ◌∙◌, Bool, true, false, not, ◌&&◌, Option, none, some, List, [], ◌∷◌, ◌++◌,
  arith, All, any, Bool-cases, if◌then◌else◌,
}
use fast_page.Prelude.Int.{ℤ, ltb_ℤ, eq_of_parts}
use fast_page.Chars.{Text}
use fast_page.Toc.Items.{eq_ℤ}
use fast_page.Workspace.Resolution.{or_else}
use fast_page.Retrieve.Sorted.{◌<ℤ◌}
use fast_page.Retrieve.Documents.{
  PageText, Fields, Found, is_wanted, take_line, visit_node, insert_result, sort_results,
}
use fast_page.Retrieve.Lines.{visit_all, is_line, first_text}

-- The content that a list of results gives for a line
unfoldable pub find_result : ℤ → List PageText → Option Text
find_result ln [] = none
find_result ln (t ∷ ts) = if eq_ℤ t.page ln then some t.content else find_result ln ts

-- Strictly ascending, so that no line stands twice
abbrev pub AreAscending : List PageText → Type 0
AreAscending [] = Unit
AreAscending (t ∷ ts) = All (λ (u : PageText). t.page <ℤ u.page) ts × AreAscending ts

abbrev pub AreApart : List PageText → Type 0
AreApart [] = Unit
AreApart (t ∷ ts) = (find_result t.page ts ≡ none) × AreApart ts

abbrev pub is_some : Option Text → Bool
is_some none = false
is_some (some t) = true

-- `seen` holds the lines of the results, which are all different.
pub record IsKept (found : Found) : Type 0 where
  pub same : (ln : ℤ) → any (eq_ℤ ln) found.seen ≡ is_some (find_result ln found.results)
  pub apart : AreApart found.results

find_result-append :
    (ln : ℤ) (ts : List PageText) (u : PageText)
    → find_result ln (ts ++ (u ∷ []))
      ≡ or_else (find_result ln ts) (if eq_ℤ u.page ln then some u.content else none)
unfolding find_result
find_result-append ln [] u = refl
find_result-append ln (t ∷ ts) u = ground (arith, find_result-append ln ts u)

eq_ℤ_comm : (a b : ℤ) → eq_ℤ a b ≡ eq_ℤ b a
eq_ℤ_comm a b = ground arith

append-AreApart :
    (ts : List PageText) (u : PageText)
    → find_result u.page ts ≡ none
    → AreApart ts
    → AreApart (ts ++ (u ∷ []))
unfolding find_result
append-AreApart [] u new apart = (refl, tt)
append-AreApart (t ∷ ts) u new apart = (
  ground (arith, find_result-append t.page ts u, eq_ℤ_comm t.page u.page),
  append-AreApart ts u (ground arith) apart.1,
)

module _ (low high : ℤ) where
  abbrev pub if_wanted : ℤ → Option Text → Option Text
  if_wanted ln o = if is_wanted low high ln then o else none

  abbrev if_line : ℤ → Option ℤ → Text → Option Text
  if_line ln o text = if is_line ln o then some text else none

  module _ (found : Found) (kept : IsKept found) where
    take_line-find :
        (o : Option ℤ) (text : Text) (ln : ℤ)
        → find_result ln (take_line low high o text found).results
          ≡ or_else (find_result ln found.results) (if_wanted ln (if_line ln o text))
    take_line-find none text ln = ground arith
    take_line-find (some m) text ln =
        let u : PageText = record { page = m; content = text } in
        elim (Bool-cases (eq_ℤ m ln)) [
          | inl e ↦
              let same : m ≡ ln = eq_of_parts m ln (ground arith) in
              ground (arith, find_result-append ln found.results u, kept.same m, same)
          | inr e ↦ ground (arith, find_result-append ln found.results u)
        ]

    seen_line :
        (m : ℤ) (text : Text) (ln : ℤ)
        → any (eq_ℤ ln) (m ∷ found.seen)
          ≡ is_some (find_result ln (found.results ++ (record { page = m; content = text } ∷ [])))
    seen_line m text ln = ground (
      arith,
      find_result-append ln found.results (record { page = m; content = text }),
      kept.same ln,
      eq_ℤ_comm m ln,
    )

    take_line-IsKept : (o : Option ℤ) (text : Text) → IsKept (take_line low high o text found)
    take_line-IsKept none text = kept
    take_line-IsKept (some m) text =
        elim (Bool-cases (is_wanted low high m && not (any (eq_ℤ m) found.seen))) [
          | inr e ↦ rw e kept
          | inl e ↦
              let u : PageText = record { page = m; content = text } in
              let new : find_result m found.results ≡ none = ground (arith, kept.same m) in
              rw e (record {
                same = λ ln. seen_line m text ln;
                apart = append-AreApart found.results u new kept.apart;
              })
        ]

  pub visit_all-find :
      (fs : List Fields) (found : Found)
      → IsKept found
      → (ln : ℤ)
      → find_result ln (visit_all low high fs found).results
        ≡ or_else (find_result ln found.results) (if_wanted ln (first_text ln fs))
  unfolding visit_all visit_node first_text
  visit_all-find [] found kept ln = ground arith
  visit_all-find (f ∷ fs) found kept ln =
      let next = take_line low high f.line_num f.text found in
      ground (
        arith,
        visit_all-find fs next (take_line-IsKept found kept f.line_num f.text) ln,
        take_line-find found kept f.line_num f.text ln,
      )

  pub visit_all-AreApart :
      (fs : List Fields) (found : Found)
      → IsKept found
      → AreApart (visit_all low high fs found).results
  unfolding visit_all visit_node
  visit_all-AreApart [] found kept = kept.apart
  visit_all-AreApart (f ∷ fs) found kept =
      visit_all-AreApart fs (take_line low high f.line_num f.text found)
        (take_line-IsKept found kept f.line_num f.text)

-- Sorting changes no content and leaves results that are apart strictly ascending.
insert_result-find :
    (t : PageText) (us : List PageText) (ln : ℤ)
    → find_result ln (insert_result t us)
      ≡ (if eq_ℤ t.page ln then some t.content else find_result ln us)
unfolding insert_result find_result
insert_result-find t [] ln = refl
insert_result-find t (u ∷ us) ln = ground (arith, insert_result-find t us ln)

pub sort_results-find :
    (ts : List PageText) (ln : ℤ) → find_result ln (sort_results ts) ≡ find_result ln ts
unfolding sort_results find_result
sort_results-find [] ln = refl
sort_results-find (t ∷ ts) ln =
    ground (arith, insert_result-find t (sort_results ts) ln, sort_results-find ts ln)

above-All :
    (a b : ℤ) (us : List PageText)
    → a <ℤ b
    → All (λ (u : PageText). b <ℤ u.page) us
    → All (λ (u : PageText). a <ℤ u.page) us
above-All a b [] h all = tt
above-All a b (u ∷ us) h all = (omega arith, above-All a b us h all.1)

insert_result-All :
    (a : ℤ) (t : PageText) (us : List PageText)
    → a <ℤ t.page
    → All (λ (u : PageText). a <ℤ u.page) us
    → All (λ (u : PageText). a <ℤ u.page) (insert_result t us)
unfolding insert_result
insert_result-All a t [] h all = (h, tt)
insert_result-All a t (u ∷ us) h all = elim (Bool-cases (ltb_ℤ u.page t.page)) [
  | inl e ↦ rw e (all.0, insert_result-All a t us h all.1)
  | inr e ↦ rw e (h, all)
]

insert_result-AreAscending :
    (t : PageText) (us : List PageText)
    → find_result t.page us ≡ none
    → AreAscending us
    → AreAscending (insert_result t us)
unfolding insert_result find_result
insert_result-AreAscending t [] new h = (tt, tt)
insert_result-AreAscending t (u ∷ us) new h = elim (Bool-cases (ltb_ℤ u.page t.page)) [
  | inl e ↦ rw e (
    insert_result-All u.page t us (ground arith) h.0,
    insert_result-AreAscending t us (ground arith) h.1,
  )
  | inr e ↦
      let below : t.page <ℤ u.page = ground (arith, eq_ℤ_comm t.page u.page) in
      rw e ((below, above-All t.page u.page us below h.0), h)
]

pub sort_results-AreAscending : (ts : List PageText) → AreApart ts → AreAscending (sort_results ts)
unfolding sort_results
sort_results-AreAscending [] apart = tt
sort_results-AreAscending (t ∷ ts) apart =
    insert_result-AreAscending t (sort_results ts) (sort_results-find ts t.page ∙ apart.0)
      (sort_results-AreAscending ts apart.1)
