-- ===== src/Retrieve/Content.antt =====
-- What `_get_md_page_content` returns.
use fast_page.Prelude.{
  Has, ◌≡◌, inl, inr, refl, sym, subst, ap, ◌∙◌, none, some, List, [], ◌∷◌, arith, All, Bool-cases,
  if◌then◌else◌,
}
use fast_page.Prelude.Int.{ℤ, ◌≤ℤ◌, ltb_ℤ, eq_of_parts}
use fast_page.Tree.Nodes.{Docs}
use fast_page.Retrieve.Documents.{
  PageText, Fields, Found, is_wanted, traverse, sort_results, min_from, max_from,
  get_md_page_content,
}
use fast_page.Retrieve.Lines.{tree_fields, traverse-visit_all, first_text}
use fast_page.Retrieve.Selected.{
  find_result, AreAscending, AreApart, IsKept, visit_all-find, visit_all-AreApart,
  sort_results-find, sort_results-AreAscending,
}

-- The number is in the list, and none is smaller; none is larger.
pub record IsLeast (low : ℤ) (ns : List ℤ) : Type 0 where
  pub there : Has low ns
  pub least : All (λ (m : ℤ). low ≤ℤ m) ns

pub record IsGreatest (high : ℤ) (ns : List ℤ) : Type 0 where
  pub there : Has high ns
  pub greatest : All (λ (m : ℤ). m ≤ℤ high) ns

All-Has : (P : ℤ → Type 0) (n : ℤ) (ns : List ℤ) → All P ns → Has n ns → P n
All-Has P n [] all h = absurd h
All-Has P n (m ∷ ms) all (inl e) = subst P e all.0
All-Has P n (m ∷ ms) all (inr h) = All-Has P n ms all.1 h

skip : (k n m : ℤ) (ms : List ℤ) → Has k (n ∷ ms) → Has k (n ∷ m ∷ ms)
skip k n m ms (inl e) = inl e
skip k n m ms (inr h) = inr (inr h)

min_from-IsLeast : (n : ℤ) (ns : List ℤ) → IsLeast (min_from n ns) (n ∷ ns)
unfolding min_from
min_from-IsLeast n [] = record { there = inl refl; least = (omega arith, tt) }
min_from-IsLeast n (m ∷ ms) = elim (Bool-cases (ltb_ℤ m n)) [
  | inl e ↦
      let rest = min_from-IsLeast m ms in
      rw e (record { there = inr rest.there; least = (ground (arith, rest.least.0), rest.least) })
  | inr e ↦
      let rest = min_from-IsLeast n ms in
      rw e (record {
        there = skip (min_from n ms) n m ms rest.there;
        least = (rest.least.0, (ground (arith, rest.least.0), rest.least.1));
      })
]

max_from-IsGreatest : (n : ℤ) (ns : List ℤ) → IsGreatest (max_from n ns) (n ∷ ns)
unfolding max_from
max_from-IsGreatest n [] = record { there = inl refl; greatest = (omega arith, tt) }
max_from-IsGreatest n (m ∷ ms) = elim (Bool-cases (ltb_ℤ n m)) [
  | inl e ↦
      let rest = max_from-IsGreatest m ms in
      rw e (record {
        there = inr rest.there;
        greatest = (ground (arith, rest.greatest.0), rest.greatest);
      })
  | inr e ↦
      let rest = max_from-IsGreatest n ms in
      rw e (record {
        there = skip (max_from n ms) n m ms rest.there;
        greatest = (rest.greatest.0, (ground (arith, rest.greatest.0), rest.greatest.1));
      })
]

module _ (low high n : ℤ) (ns : List ℤ) where
  least_is : IsLeast low (n ∷ ns) → min_from n ns ≡ low
  least_is l =
      let m = min_from-IsLeast n ns in
      eq_of_parts (min_from n ns) low (
        omega (
          arith,
          All-Has (λ k. low ≤ℤ k) (min_from n ns) (n ∷ ns) l.least m.there,
          All-Has (λ k. min_from n ns ≤ℤ k) low (n ∷ ns) m.least l.there,
        ))

  greatest_is : IsGreatest high (n ∷ ns) → max_from n ns ≡ high
  greatest_is g =
      let m = max_from-IsGreatest n ns in
      eq_of_parts (max_from n ns) high (
        omega (
          arith,
          All-Has (λ k. k ≤ℤ high) (max_from n ns) (n ∷ ns) g.greatest m.there,
          All-Has (λ k. k ≤ℤ max_from n ns) high (n ∷ ns) m.greatest g.there,
        ))

abbrev none_found : Found
none_found = record { seen = []; results = [] }

none_found-IsKept : IsKept none_found
unfolding find_result
none_found-IsKept = record { same = λ ln. refl; apart = tt }

-- The pages of a Markdown document, for line numbers of which there is one at least: the answer is
-- strictly ascending by line, and a line stands in it exactly if it is not 0, lies between the
-- smallest and the largest number asked for, and is the line of a node; its content is then the text
-- of the first such node of the tree, a node coming before its children.
pub get_md_page_content_lem :
    (tree : Docs Fields) (n : ℤ) (ns : List ℤ) (low high : ℤ)
    → IsLeast low (n ∷ ns)
    → IsGreatest high (n ∷ ns)
    → (outs : List PageText) × (get_md_page_content tree (n ∷ ns) ≡ some outs)
      × AreAscending outs
      × ((ln : ℤ)
          → find_result ln outs
            ≡ (if is_wanted low high ln then first_text ln (tree_fields tree) else none))
unfolding get_md_page_content find_result
get_md_page_content_lem tree n ns low high least greatest =
    let results = (traverse low high tree none_found).results in
    let walked = traverse-visit_all low high tree none_found in
    let apart : AreApart results =
      subst (λ (f : Found). AreApart f.results) (sym walked)
        (visit_all-AreApart low high (tree_fields tree) none_found none_found-IsKept) in
    (
      sort_results results,
      rw (least_is low high n ns least, greatest_is low high n ns greatest) refl,
      sort_results-AreAscending results apart,
      λ ln.
          sort_results-find results ln
          ∙ (ap (λ (f : Found). find_result ln f.results) walked
              ∙ visit_all-find low high (tree_fields tree) none_found none_found-IsKept ln),
    )
