-- ===== src/Toc/CommonOffset.antt =====
-- The offset is a difference that no other one outnumbers, and adding it puts every item that
-- voted for it on the page where it was found.
use fast_page.Prelude.{
  Has, List-cases, ℕ, suc, ◌+◌, ◌≤◌, ◌<◌, ◌≡◌, inl, inr, refl, sym, subst, true, false, none, some,
  List, [], ◌∷◌, ltb, if◌then◌else◌, Bool-cases, arith, All,
}
use fast_page.Prelude.Int.{ℤ, ◌+ℤ◌, ◌-ℤ◌, int_laws}
use fast_page.Toc.Items.{absent, int, TocItem, eq_ℤ}
use fast_page.Toc.Offset.{
  Pair, difference, differences, count_one, count_all, most_common, largest, calculate_page_offset,
  add_offset,
}

-- How often a number stands in a list
unfoldable pub occurrences : ℤ → List ℤ → ℕ
occurrences d [] = 0
occurrences d (e ∷ es) = if eq_ℤ e d then suc (occurrences d es) else occurrences d es

unfoldable pub count_of : ℤ → List (ℤ × ℕ) → ℕ
count_of d [] = 0
count_of d ((e, n) ∷ counts) = if eq_ℤ e d then n else count_of d counts

eq_ℤ-eq : (a b : ℤ) → eq_ℤ a b ≡ true → a ≡ b
eq_ℤ-eq a b h = ground arith

eq_ℤ_refl : (a : ℤ) → eq_ℤ a a ≡ true
eq_ℤ_refl a = ground arith

count_of-count_one :
    (d e : ℤ) (counts : List (ℤ × ℕ))
    → count_of d (count_one e counts)
      ≡ (if eq_ℤ e d then suc (count_of d counts) else count_of d counts)
unfolding count_of count_one
count_of-count_one d e [] = ground arith
count_of-count_one d e ((f, n) ∷ counts) =
    ground (arith, count_of-count_one d e counts, eq_ℤ-eq f e, eq_ℤ-eq f d, eq_ℤ-eq e d)

count_of-count_all :
    (d : ℤ) (counts : List (ℤ × ℕ)) (ds : List ℤ)
    → count_of d (count_all counts ds) ≡ count_of d counts + occurrences d ds
unfolding count_all occurrences
count_of-count_all d counts [] = omega arith
count_of-count_all d counts (e ∷ es) =
    ground (arith, count_of-count_all d (count_one e counts) es, count_of-count_one d e counts)

-- No number is counted under two keys, and none is counted 0 times.
abbrev IsNew : ℤ → List (ℤ × ℕ) → Type 0
IsNew d = All (λ (c : ℤ × ℕ). eq_ℤ c.0 d ≡ false)

abbrev AreCounts : List (ℤ × ℕ) → Type 0
AreCounts [] = Unit
AreCounts (c ∷ cs) = (0 < c.1) × IsNew c.0 cs × AreCounts cs

IsNew-count_one :
    (d e : ℤ) (counts : List (ℤ × ℕ))
    → IsNew d counts
    → eq_ℤ e d ≡ false
    → IsNew d (count_one e counts)
unfolding count_one
IsNew-count_one d e [] new other = (other, tt)
IsNew-count_one d e ((f, n) ∷ counts) new other = elim (Bool-cases (eq_ℤ f e)) [
  | inl same ↦ rw same (new.0, new.1)
  | inr differs ↦ rw differs (new.0, IsNew-count_one d e counts new.1 other)
]

eq_ℤ_sym : (a b : ℤ) → eq_ℤ a b ≡ false → eq_ℤ b a ≡ false
eq_ℤ_sym a b h = ground arith

AreCounts-count_one :
    (e : ℤ) (counts : List (ℤ × ℕ)) → AreCounts counts → AreCounts (count_one e counts)
unfolding count_one
AreCounts-count_one e [] h = (omega arith, tt, tt)
AreCounts-count_one e ((f, n) ∷ counts) (positive, new, rest) = elim (Bool-cases (eq_ℤ f e)) [
  | inl same ↦ rw same (omega arith, new, rest)
  | inr differs ↦ rw differs (
    positive,
    IsNew-count_one f e counts new (eq_ℤ_sym f e differs),
    AreCounts-count_one e counts rest,
  )
]

AreCounts-count_all :
    (counts : List (ℤ × ℕ)) (ds : List ℤ) → AreCounts counts → AreCounts (count_all counts ds)
unfolding count_all
AreCounts-count_all counts [] h = h
AreCounts-count_all counts (d ∷ ds) h =
    AreCounts-count_all (count_one d counts) ds (AreCounts-count_one d counts h)

most_common-less :
    (best c : ℤ × ℕ) (cs : List (ℤ × ℕ))
    → ltb best.1 c.1 ≡ true
    → most_common best (c ∷ cs) ≡ most_common c cs
unfolding most_common
most_common-less best c cs h = rw h refl

most_common-more :
    (best c : ℤ × ℕ) (cs : List (ℤ × ℕ))
    → ltb best.1 c.1 ≡ false
    → most_common best (c ∷ cs) ≡ most_common best cs
unfolding most_common
most_common-more best c cs h = rw h refl

-- What is counted most is one of the counts, and no other is larger.
most_common-Has : (best : ℤ × ℕ) (cs : List (ℤ × ℕ)) → Has (most_common best cs) (best ∷ cs)
unfolding most_common
most_common-Has best [] = inl refl
most_common-Has best (c ∷ cs) = elim (Bool-cases (ltb best.1 c.1)) [
  | inl less ↦
      subst (λ m. Has m (best ∷ c ∷ cs)) (sym (most_common-less best c cs less))
        (inr (most_common-Has c cs))
  | inr more ↦
      subst (λ m. Has m (best ∷ c ∷ cs)) (sym (most_common-more best c cs more))
        (elim (most_common-Has best cs) [ inl e ↦ inl e | inr later ↦ inr (inr later) ])
]

abbrev AreAtMost : ℕ → List (ℤ × ℕ) → Type 0
AreAtMost n = All (λ (c : ℤ × ℕ). c.1 ≤ n)

most_common-AreAtMost :
    (best : ℤ × ℕ) (cs : List (ℤ × ℕ)) → AreAtMost (most_common best cs).1 (best ∷ cs)
unfolding most_common
most_common-AreAtMost best [] = (omega arith, tt)
most_common-AreAtMost best (c ∷ cs) = elim (Bool-cases (ltb best.1 c.1)) [
  | inl less ↦
      let (c_le, rest) = most_common-AreAtMost c cs in
      subst (λ (m : ℤ × ℕ). AreAtMost m.1 (best ∷ c ∷ cs)) (sym (most_common-less best c cs less))
        (ground (arith, less, c_le), (c_le, rest))
  | inr more ↦
      let (best_le, rest) = most_common-AreAtMost best cs in
      subst (λ (m : ℤ × ℕ). AreAtMost m.1 (best ∷ c ∷ cs)) (sym (most_common-more best c cs more))
        (best_le, (ground (arith, more, best_le), rest))
]

count_of-le : (d : ℤ) (n : ℕ) (cs : List (ℤ × ℕ)) → AreAtMost n cs → count_of d cs ≤ n
unfolding count_of
count_of-le d n [] h = omega arith
count_of-le d n (c ∷ cs) (le, rest) = ground (arith, le, count_of-le d n cs rest)

IsNew-Has : (d : ℤ) (c : ℤ × ℕ) (cs : List (ℤ × ℕ)) → IsNew d cs → Has c cs → eq_ℤ c.0 d ≡ false
IsNew-Has d c [] new h = absurd h
IsNew-Has d c (x ∷ cs) new (inl e) = subst (λ (y : ℤ × ℕ). eq_ℤ y.0 d ≡ false) e new.0
IsNew-Has d c (x ∷ cs) new (inr h) = IsNew-Has d c cs new.1 h

count_of-Has :
    (c : ℤ × ℕ) (cs : List (ℤ × ℕ)) → AreCounts cs → Has c cs → (count_of c.0 cs ≡ c.1) × (0 < c.1)
unfolding count_of
count_of-Has c [] counts h = absurd h
count_of-Has c (x ∷ cs) (positive, new, rest) (inl e) =
    subst (λ (y : ℤ × ℕ). (count_of y.0 (x ∷ cs) ≡ y.1) × (0 < y.1)) e
      (rw (eq_ℤ_refl x.0) (refl, positive))
count_of-Has c (x ∷ cs) (positive, new, rest) (inr h) =
    let differs = eq_ℤ_sym c.0 x.0 (IsNew-Has x.0 c cs new h) in
    rw differs (count_of-Has c cs rest h)

largest-most :
    (cs : List (ℤ × ℕ)) {d : ℤ}
    → AreCounts cs
    → largest cs ≡ some d
    → (0 < count_of d cs) × ((e : ℤ) → count_of e cs ≤ count_of d cs)
largest-most [] counts h = cc
largest-most (c ∷ cs) {d} counts h =
    let best = most_common c cs in
    let is_best : best.0 ≡ d = ground arith in
    let (counted, positive) = count_of-Has best (c ∷ cs) counts (most_common-Has c cs) in
    let bound : (e : ℤ) → count_of e (c ∷ cs) ≤ best.1 =
      λ e. count_of-le e best.1 (c ∷ cs) (most_common-AreAtMost c cs) in
    subst (λ x. (0 < count_of x (c ∷ cs)) × ((e : ℤ) → count_of e (c ∷ cs) ≤ count_of x (c ∷ cs)))
      is_best (omega (arith, counted, positive), λ e. omega (arith, counted, bound e))

largest-none : (cs : List (ℤ × ℕ)) → largest cs ≡ none → cs ≡ []
largest-none [] h = refl
largest-none (c ∷ cs) h = cc

-- The page offset, where there is one, is a difference between index and printed number of some
-- pair, and no other difference occurs in more pairs.
pub calculate_page_offset-most :
    (pairs : List Pair) {offset : ℤ}
    → calculate_page_offset pairs ≡ some offset
    → (0 < occurrences offset (differences pairs))
      × ((e : ℤ) → occurrences e (differences pairs) ≤ occurrences offset (differences pairs))
unfolding calculate_page_offset count_of
calculate_page_offset-most pairs {offset} h =
    let counts = count_all [] (differences pairs) in
    let (positive, most) = largest-most counts (AreCounts-count_all [] (differences pairs) tt) h in
    let same : (e : ℤ) → count_of e counts ≡ occurrences e (differences pairs) =
      λ e. omega (arith, count_of-count_all e [] (differences pairs)) in
    (omega (arith, positive, same offset), λ e. omega (arith, most e, same e, same offset))

-- There is no offset only where no pair has two integers.
calculate_page_offset-none :
    (pairs : List Pair) → calculate_page_offset pairs ≡ none → differences pairs ≡ []
unfolding calculate_page_offset count_of occurrences
calculate_page_offset-none pairs h = elim (List-cases (differences pairs)) [
  | inl empty ↦ empty
  | inr (d, ds, more) ↦
      let counts = count_of-count_all d [] (differences pairs) in
      absurd (
        ground
          (arith, more, counts, eq_ℤ_refl d, largest-none (count_all [] (differences pairs)) h))
]

add_back : (n i : ℤ) → n +ℤ (i -ℤ n) ≡ i
add_back n i = omega int_laws

-- An item whose pair has the offset as its difference gets, from its printed number, exactly the
-- page index that was found for the pair, and loses the printed number.
pub add_offset-difference :
    (offset n i : ℤ) (item : TocItem) (pair : Pair)
    → item.page ≡ int n
    → pair.page ≡ int n
    → pair.physical_index ≡ int i
    → difference pair ≡ some offset
    → add_offset offset item ≡ record item { physical_index = int i; page = absent }
add_offset-difference offset n i item pair at_n pair_n pair_i h =
    ground (arith, at_n, pair_n, pair_i, add_back n i)
