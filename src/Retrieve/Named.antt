-- ===== src/Retrieve/Named.antt =====
-- Which pages a part of a request names, described apart from the parser.
use fast_page.Prelude.{
  Has, ℕ, ◌≡◌, inl, inr, refl, sym, subst, ap, false, Option, none, some, List, [], ◌∷◌, ◌++◌,
  arith, All, ◌==◌, Bool-cases,
}
use fast_page.Prelude.Int.{ℤ, ◌≤ℤ◌, ltb_ℤ}
use fast_page.Chars.{Text, strip, split_once}
use fast_page.Retrieve.Numbers.{parse_int}
use fast_page.Retrieve.Pages.{single, range_of, split_part, parse_part, page_range}
use fast_page.Retrieve.Sorted.{page_range-bounds, page_range-Has}

-- The character does not occur.
abbrev pub Lacks : ℕ → Text → Type 0
Lacks c = All (λ (d : ℕ). (d == c) ≡ false)

abbrev pub dash : ℕ
dash = b'-'

-- A part is one number, or two with a dash between them; spaces around it and around them do not
-- count. It names the number, or those from the first to the second.
pub data Names (part : Text) (n : ℤ) : Type 0 where
  one : Lacks dash (strip part) → parse_int (strip part) ≡ some n → Names part n
  between :
      (start end : Text) (low high : ℤ)
      → Lacks dash start
      → strip part ≡ start ++ (dash ∷ end)
      → parse_int (strip start) ≡ some low
      → parse_int (strip end) ≡ some high
      → low ≤ℤ n
      → n ≤ℤ high
      → Names part n

module _ (c : ℕ) where
  split_once-Lacks : (t : Text) → Lacks c t → split_once c t ≡ (t, none)
  unfolding split_once
  split_once-Lacks [] h = refl
  split_once-Lacks (d ∷ ds) h = rw (h.0, split_once-Lacks ds h.1) refl

  split_once-append : (a b : Text) → Lacks c a → split_once c (a ++ (c ∷ b)) ≡ (a, some b)
  unfolding split_once
  split_once-append [] b h = ground arith
  split_once-append (d ∷ ds) b h = rw (h.0, split_once-append ds b h.1) refl

  -- The cut is before the first occurrence.
  abbrev IsCutAt : Text → Text × Option Text → Type 0
  IsCutAt t (a, none) = Lacks c a × (t ≡ a)
  IsCutAt t (a, some b) = Lacks c a × (t ≡ a ++ (c ∷ b))

  longer :
      (d : ℕ) (ds : Text) (p : Text × Option Text)
      → (d == c) ≡ false
      → IsCutAt ds p
      → IsCutAt (d ∷ ds) (d ∷ p.0, p.1)
  longer d ds (a, none) e (lacks, is_a) = ((e, lacks), ap (λ (t : Text). d ∷ t) is_a)
  longer d ds (a, some b) e (lacks, is_a) = ((e, lacks), ap (λ (t : Text). d ∷ t) is_a)

  split_once-IsCutAt : (t : Text) → IsCutAt t (split_once c t)
  unfolding split_once
  split_once-IsCutAt [] = (tt, refl)
  split_once-IsCutAt (d ∷ ds) = elim (Bool-cases (d == c)) [
    | inl e ↦ let same : d ≡ c = ground arith in rw e (tt, ap (λ (x : ℕ). x ∷ ds) same)
    | inr e ↦ rw e (longer d ds (split_once c ds) e (split_once-IsCutAt ds))
  ]

ordered : (low n high : ℤ) → low ≤ℤ n → n ≤ℤ high → ltb_ℤ high low ≡ false
ordered low n high above below = ground arith

-- What is named is parsed.
pub Names-parsed :
    (part : Text) (n : ℤ) → Names part n → (ns : List ℤ) × (parse_part part ≡ some ns) × Has n ns
unfolding parse_part
Names-parsed part n (one lacks e) =
    (n ∷ [], rw (split_once-Lacks dash (strip part) lacks, e) refl, inl refl)
Names-parsed part n (between start end low high lacks cut is_low is_high above below) = (
  page_range low high,
  rw (cut, split_once-append dash start end lacks, is_low, is_high, ordered low n high above below)
      refl,
  page_range-Has low high n (omega arith) (above, below),
)

-- The numbers that are parsed are named, and there is one.
abbrev pub AreNamed : Text → Option (List ℤ) → Type 0
AreNamed part none = Unit
AreNamed part (some ns) = ((n : ℤ) × Has n ns) × ((n : ℤ) → Has n ns → Names part n)

single-AreNamed :
    (part : Text) (o : Option ℤ)
    → Lacks dash (strip part)
    → parse_int (strip part) ≡ o
    → AreNamed part (single o)
single-AreNamed part none lacks e = tt
single-AreNamed part (some m) lacks e = (
  (m, inl refl),
  λ n h. elim h [ inl same ↦ subst (Names part) same (one lacks e) | inr nothing ↦ absurd nothing ],
)

range_of-AreNamed :
    (part start end : Text) (o o' : Option ℤ)
    → Lacks dash start
    → strip part ≡ start ++ (dash ∷ end)
    → parse_int (strip start) ≡ o
    → parse_int (strip end) ≡ o'
    → AreNamed part (range_of o o')
range_of-AreNamed part start end none o' lacks cut is_low is_high = tt
range_of-AreNamed part start end (some low) none lacks cut is_low is_high = tt
range_of-AreNamed part start end (some low) (some high) lacks cut is_low is_high =
    elim (Bool-cases (ltb_ℤ high low)) [
      | inl e ↦ rw e tt
      | inr e ↦
          let in_order : low ≤ℤ high = ground arith in
          rw e (
            (low, page_range-Has low high low in_order (omega arith, in_order)),
            λ n h.
                let (above, below) = page_range-bounds low high n in_order h in
                between start end low high lacks cut is_low is_high above below,
          )
    ]

split_part-AreNamed :
    (part : Text) (p : Text × Option Text)
    → IsCutAt dash (strip part) p
    → AreNamed part (split_part p)
split_part-AreNamed part (a, none) (lacks, e) =
    subst (λ (t : Text). AreNamed part (single (parse_int t))) e
      (single-AreNamed part (parse_int (strip part)) (subst (Lacks dash) (sym e) lacks) refl)
split_part-AreNamed part (a, some b) (lacks, e) =
    range_of-AreNamed part a b (parse_int (strip a)) (parse_int (strip b)) lacks e refl refl

pub parse_part-AreNamed : (part : Text) → AreNamed part (parse_part part)
unfolding parse_part
parse_part-AreNamed part =
    split_part-AreNamed part (split_once dash (strip part)) (split_once-IsCutAt dash (strip part))
