-- ===== src/Toc/GroupCover.antt =====
-- The groups cover the pages: each goes on where the one before it ended, less the overlap.
use fast_page.Prelude.{
  ℕ, zero, suc, ◌+◌, ◌-◌, ◌≤◌, ◌<◌, ◌≡◌, inl, inr, refl, sym, ap, ◌∙◌, List, [], ◌∷◌, ◌++◌, ltb,
  leb, take, drop, length, Bool-cases, arith, le→leb,
}
use fast_page.Toc.FindPages.{Page}
use fast_page.Toc.PagesFound.{drop-cons}
use fast_page.Toc.Groups.{slice, token_sum, last_subset, page_subsets, group_pages}

-- The groups are stretches of pages; the first starts at `start`, each other one `overlap` pages
-- before the end of the one before it, and the last reaches the last page.
abbrev pub IsCover : ℕ → List Page → ℕ → List (List Page) → Type 0
IsCover overlap pages start [] = ⊥
IsCover overlap pages start (group ∷ groups) = elim groups [
  | [] ↦ group ≡ slice start (length pages) pages
  | _ ∷ _ ↦
      (stop : ℕ) × (start ≤ stop)
      × (stop ≤ length pages)
      × (group ≡ slice start stop pages)
      × IsCover overlap pages (stop - overlap) groups
]

IsCover-cons :
    (overlap start stop : ℕ) (pages group : List Page) (groups : List (List Page))
    → start ≤ stop
    → stop ≤ length pages
    → group ≡ slice start stop pages
    → IsCover overlap pages (stop - overlap) groups
    → IsCover overlap pages start (group ∷ groups)
IsCover-cons overlap start stop pages group [] le inside is later = absurd later
IsCover-cons overlap start stop pages group (next ∷ groups) le inside is later =
    (stop, le, inside, is, later)

take-snoc :
    (k : ℕ) (xs : List Page) {p : Page} {rest : List Page}
    → drop k xs ≡ p ∷ rest
    → take (suc k) xs ≡ take k xs ++ (p ∷ [])
take-snoc zero [] h = cc
take-snoc zero (x ∷ xs) h = cc
take-snoc (suc k) [] h = cc
take-snoc (suc k) (x ∷ xs) h = ap (λ ys. x ∷ ys) (take-snoc k xs h)

drop-nil : (k : ℕ) → drop {A = Page} k [] ≡ []
drop-nil zero = refl
drop-nil (suc k) = refl

drop-drop : (k a : ℕ) (xs : List Page) → drop k (drop a xs) ≡ drop (a + k) xs
drop-drop k zero xs = ap (λ n. drop n xs) (omega arith)
drop-drop k (suc a) [] = drop-nil k ∙ sym (drop-nil (suc a + k))
drop-drop k (suc a) (x ∷ xs) =
    let sum : suc (a + k) ≡ suc a + k = omega arith in
    drop-drop k a xs ∙ ap (λ n. drop n (x ∷ xs)) sum

-- One page more at the end
slice-snoc :
    (start i : ℕ) (pages : List Page) {p : Page} {rest : List Page}
    → start ≤ i
    → drop i pages ≡ p ∷ rest
    → slice start i pages ++ (p ∷ []) ≡ slice start (suc i) pages
slice-snoc start i pages {p} {rest} le h =
    let at : drop (i - start) (drop start pages) ≡ p ∷ rest =
      drop-drop (i - start) start pages ∙ ap (λ n. drop n pages) (omega arith) ∙ h in
    let one_more : suc i - start ≡ suc (i - start) = omega arith in
    sym (ap (λ n. take n (drop start pages)) one_more ∙ take-snoc (i - start) (drop start pages) at)

take-length : (k : ℕ) (xs : List Page) → k ≡ length xs → take k xs ≡ xs
take-length zero [] h = refl
take-length zero (x ∷ xs) h = absurd (omega arith)
take-length (suc k) [] h = refl
take-length (suc k) (x ∷ xs) h = ap (λ ys. x ∷ ys) (take-length k xs (omega arith))

length-drop : (k : ℕ) (xs : List Page) → length (drop k xs) ≡ length xs - k
length-drop zero xs = omega arith
length-drop (suc k) [] = omega arith
length-drop (suc k) (x ∷ xs) = omega (arith, length-drop k xs)

take-nonempty : (k : ℕ) (xs : List Page) → 0 < k → 0 < length xs → 0 < length (take k xs)
take-nonempty zero xs h lt = absurd (omega arith)
take-nonempty (suc k) [] h lt = absurd (omega arith)
take-nonempty (suc k) (x ∷ xs) h lt = omega arith

last_subset-slice :
    (overlap start : ℕ) (pages current : List Page)
    → start < length pages
    → current ≡ slice start (length pages) pages
    → IsCover overlap pages start (last_subset current)
last_subset-slice overlap start pages [] lt is =
    let some_page =
      take-nonempty (length pages - start) (drop start pages) (omega arith)
        (omega (arith, length-drop start pages)) in
    absurd (omega (arith, some_page, ap length is))
last_subset-slice overlap start pages (p ∷ ps) lt is = is

page_subsets-IsCover :
    (overlap average : ℕ) (pages : List Page) (start i : ℕ) (current : List Page) (count : ℕ)
    (rest : List Page)
    → drop i pages ≡ rest
    → i + length rest ≡ length pages
    → start ≤ i
    → start < length pages
    → current ≡ slice start i pages
    → IsCover overlap pages start (page_subsets overlap average pages i current count rest)
unfolding page_subsets
page_subsets-IsCover overlap average pages start i current count [] at total le lt is =
    last_subset-slice overlap start pages current lt
      (is ∙ ap (λ n. slice start n pages) (omega (arith, total)))
page_subsets-IsCover overlap average pages start i current count (p ∷ rest) at total le lt is =
    let (_, next, inside) = drop-cons i pages at in
    let total' : suc i + length rest ≡ length pages = omega (arith, total) in
    elim (Bool-cases (ltb average (count + p.1))) [
      | inl full ↦ rw full (
          IsCover-cons overlap start i pages current _ le (omega (arith, inside)) is (
            page_subsets-IsCover overlap average pages (i - overlap) (suc i) _ _ rest next total'
              (omega arith) (omega (arith, inside))
              (slice-snoc (i - overlap) i pages (omega arith) at)))
      | inr fits ↦ rw fits (
          page_subsets-IsCover overlap average pages start (suc i) _ _ rest next total'
            (omega (arith, le)) lt (ap (λ ps. ps ++ (p ∷ [])) is ∙ slice-snoc start i pages le at))
    ]

-- The groups cover all the pages in order: each is a stretch of consecutive pages, the first starts
-- at the first page, every other one starts the overlap before the end of the one before it, and
-- the last ends at the last page.
pub group_pages-IsCover :
    (max_tokens overlap : ℕ) (pages : List Page)
    → IsCover overlap pages 0 (group_pages max_tokens overlap pages)
unfolding group_pages
group_pages-IsCover max_tokens overlap [] = rw (le→leb 0 max_tokens (omega arith)) refl
group_pages-IsCover max_tokens overlap (p ∷ rest) =
    elim (Bool-cases (leb (token_sum (p ∷ rest)) max_tokens)) [
      | inl one_group ↦
          rw one_group (sym (take-length (suc (length rest) - 0) (p ∷ rest) (omega arith)))
      | inr many ↦ rw many (
          page_subsets-IsCover overlap _ (p ∷ rest) 0 0 [] 0 (p ∷ rest) refl (omega arith)
            (omega arith) (omega arith) refl)
    ]
