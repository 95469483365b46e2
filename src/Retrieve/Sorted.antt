-- ===== src/Retrieve/Sorted.antt =====
-- Ranges of pages and sorted sets of pages.
use fast_page.Prelude.{
  Has, ℕ, zero, suc, ◌+◌, ◌<◌, ◌≡◌, ◌⊎◌, inl, inr, sym, subst, ◌∙◌, List, [], ◌∷◌, arith, All,
  Bool-cases,
}
use fast_page.Prelude.Int.{
  ℤ, pos, pos_part, neg_part, ◌+ℤ◌, ◌-ℤ◌, ◌≤ℤ◌, ltb_ℤ, +ℤ_parts, -ℤ_parts, eq_of_parts,
}
use fast_page.Toc.Items.{eq_ℤ}
use fast_page.Retrieve.Pages.{range_from, page_range, insert_page, sorted_set}

infix 50 ◌<ℤ◌
abbrev pub ◌<ℤ◌ : ℤ → ℤ → Type 0
a <ℤ b = pos_part a + neg_part b < pos_part b + neg_part a

abbrev pub IsAscending : List ℤ → Type 0
IsAscending [] = Unit
IsAscending (n ∷ ns) = All (λ (m : ℤ). n <ℤ m) ns × IsAscending ns

-- The range has exactly the `count` numbers from `start` on.
pub range_from-bounds :
    (start : ℤ) (count : ℕ) (n : ℤ)
    → Has n (range_from start count)
    → (start ≤ℤ n) × (pos_part n + neg_part start < pos_part start + neg_part n + count)
unfolding range_from
range_from-bounds start zero n h = absurd h
range_from-bounds start (suc count) n (inl e) =
    subst
      (λ (m : ℤ).
        (start ≤ℤ m) × (pos_part m + neg_part start < pos_part start + neg_part m + suc count))
      e (omega arith, omega arith)
range_from-bounds start (suc count) n (inr h) =
    let (low, high) = range_from-bounds (start +ℤ pos 1) count n h in
    (omega (arith, +ℤ_parts start (pos 1)), omega (arith, +ℤ_parts start (pos 1)))

pub range_from-Has :
    (start : ℤ) (count : ℕ) (n : ℤ)
    → start ≤ℤ n
    → pos_part n + neg_part start < pos_part start + neg_part n + count
    → Has n (range_from start count)
unfolding range_from
range_from-Has start zero n low high = absurd (omega arith)
range_from-Has start (suc count) n low high = elim (Bool-cases (eq_ℤ start n)) [
  | inl e ↦ inl (ground (arith, eq_of_parts start n))
  | inr e ↦ inr (
      range_from-Has (start +ℤ pos 1) count n
        (ground (arith, +ℤ_parts start (pos 1), eq_of_parts start n))
        (omega (arith, +ℤ_parts start (pos 1))))
]

difference_natural : (a b : ℤ) → b ≤ℤ a → neg_part (a -ℤ b) ≡ 0
unfolding ◌-ℤ◌
difference_natural a b h = ground arith

module _ (start end n : ℤ) (ordered : start ≤ℤ end) where
  pub page_range-bounds : Has n (page_range start end) → (start ≤ℤ n) × (n ≤ℤ end)
  unfolding page_range
  page_range-bounds h =
      let (low, high) = range_from-bounds start (suc (pos_part (end -ℤ start))) n h in
      (low, omega (arith, -ℤ_parts end start, difference_natural end start ordered))

  pub page_range-Has : (start ≤ℤ n) × (n ≤ℤ end) → Has n (page_range start end)
  unfolding page_range
  page_range-Has (low, high) =
      range_from-Has start (suc (pos_part (end -ℤ start))) n low
        (omega (arith, -ℤ_parts end start, difference_natural end start ordered))

-- A set keeps what is put in, and nothing else.
insert_page-Has : (n m : ℤ) (ms : List ℤ) → (m ≡ n) ⊎ Has n ms → Has n (insert_page m ms)
unfolding insert_page
insert_page-Has n m [] h = h
insert_page-Has n m (k ∷ ks) h = elim (Bool-cases (ltb_ℤ m k)) [
  | inl e ↦ rw e h
  | inr e ↦ elim (Bool-cases (eq_ℤ m k)) [
    | inl same ↦
        rw (e, same)
          (elim h [
            | inl m_is ↦ inl (sym (eq_of_parts m k (ground arith)) ∙ m_is)
            | inr there ↦ there
          ])
    | inr other ↦
        rw (e, other)
          (elim h [
            | inl m_is ↦ inr (insert_page-Has n m ks (inl m_is))
            | inr (inl k_is) ↦ inl k_is
            | inr (inr there) ↦ inr (insert_page-Has n m ks (inr there))
          ])
  ]
]

Has-insert_page : (n m : ℤ) (ms : List ℤ) → Has n (insert_page m ms) → (m ≡ n) ⊎ Has n ms
unfolding insert_page
Has-insert_page n m [] h = h
Has-insert_page n m (k ∷ ks) h = elim (Bool-cases (ltb_ℤ m k)) [
  | inl e ↦ rw e at h
  | inr e ↦ elim (Bool-cases (eq_ℤ m k)) [
    | inl same ↦ inr (rw (e, same) at h)
    | inr other ↦
        let there : (k ≡ n) ⊎ Has n (insert_page m ks) = (rw (e, other) at h) in
        elim there [
          | inl k_is ↦ inr (inl k_is)
          | inr later ↦ elim (Has-insert_page n m ks later) [
            | inl m_is ↦ inl m_is
            | inr old ↦ inr (inr old)
          ]
        ]
  ]
]

above : (n m : ℤ) (ms : List ℤ) → n <ℤ m → All (λ (k : ℤ). m <ℤ k) ms → All (λ (k : ℤ). n <ℤ k) ms
above n m [] h all = tt
above n m (k ∷ ks) h all = (omega arith, above n m ks h all.1)

insert_page-All :
    (n m : ℤ) (ms : List ℤ)
    → n <ℤ m
    → All (λ (k : ℤ). n <ℤ k) ms
    → All (λ (k : ℤ). n <ℤ k) (insert_page m ms)
unfolding insert_page
insert_page-All n m [] h all = (h, tt)
insert_page-All n m (k ∷ ks) h all = elim (Bool-cases (ltb_ℤ m k)) [
  | inl e ↦ rw e (h, all)
  | inr e ↦ elim (Bool-cases (eq_ℤ m k)) [
    | inl same ↦ rw (e, same) all
    | inr other ↦ rw (e, other) (all.0, insert_page-All n m ks h all.1)
  ]
]

insert_page-IsAscending : (m : ℤ) (ms : List ℤ) → IsAscending ms → IsAscending (insert_page m ms)
unfolding insert_page
insert_page-IsAscending m [] h = (tt, tt)
insert_page-IsAscending m (k ∷ ks) h = elim (Bool-cases (ltb_ℤ m k)) [
  | inl e ↦ rw e ((ground arith, above m k ks (ground arith) h.0), h)
  | inr e ↦ elim (Bool-cases (eq_ℤ m k)) [
    | inl same ↦ rw (e, same) h
    | inr other ↦
        rw (e, other) (insert_page-All k m ks (ground arith) h.0, insert_page-IsAscending m ks h.1)
  ]
]

pub sorted_set-IsAscending : (ns : List ℤ) → IsAscending (sorted_set ns)
unfolding sorted_set
sorted_set-IsAscending [] = tt
sorted_set-IsAscending (n ∷ ns) =
    insert_page-IsAscending n (sorted_set ns) (sorted_set-IsAscending ns)

pub sorted_set-Has : (n : ℤ) (ns : List ℤ) → Has n ns → Has n (sorted_set ns)
unfolding sorted_set
sorted_set-Has n [] h = h
sorted_set-Has n (m ∷ ms) (inl e) = insert_page-Has n m (sorted_set ms) (inl e)
sorted_set-Has n (m ∷ ms) (inr h) =
    insert_page-Has n m (sorted_set ms) (inr (sorted_set-Has n ms h))

pub Has-sorted_set : (n : ℤ) (ns : List ℤ) → Has n (sorted_set ns) → Has n ns
unfolding sorted_set
Has-sorted_set n [] h = h
Has-sorted_set n (m ∷ ms) h = elim (Has-insert_page n m (sorted_set ms) h) [
  | inl e ↦ inl e
  | inr later ↦ inr (Has-sorted_set n ms later)
]
