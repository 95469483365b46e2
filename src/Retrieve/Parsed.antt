-- ===== src/Retrieve/Parsed.antt =====
-- `_parse_pages` gives what its argument names.
use fast_page.Prelude.{
  Has, ◌≡◌, ◌⊎◌, inl, inr, refl, sym, subst, Option, none, some, List, [], ◌∷◌, ◌++◌,
}
use fast_page.Prelude.Int.{ℤ}
use fast_page.Chars.{Text, split_on}
use fast_page.Retrieve.Pages.{extend, parse_part, parse_parts, sort_pages, parse_pages}
use fast_page.Retrieve.Sorted.{IsAscending, sorted_set-IsAscending, sorted_set-Has, Has-sorted_set}
use fast_page.Retrieve.Named.{Names, AreNamed, Names-parsed, parse_part-AreNamed}

-- One of the parts names the number.
abbrev pub Named : List Text → ℤ → Type 0
Named parts n = (part : Text) × Has part parts × Names part n

-- The outcome for these parts: an error only where a part names nothing; else every part names
-- something, and the numbers are those that are named.
abbrev pub IsOutcome : List Text → Option (List ℤ) → Type 0
IsOutcome parts none = (part : Text) × Has part parts × ((n : ℤ) → Names part n → ⊥)
IsOutcome parts (some ns) =
    ((part : Text) → Has part parts → (n : ℤ) × Names part n)
    × ((n : ℤ) → Has n ns → Named parts n)
    × ((n : ℤ) → Named parts n → Has n ns)

none_parsed : (part : Text) → parse_part part ≡ none → (n : ℤ) → Names part n → ⊥
none_parsed part e n named = let (ns, parsed, there) = Names-parsed part n named in cc

module _ (ns : List ℤ) (n : ℤ) where
  append_left : (ms : List ℤ) → Has n ms → Has n (ms ++ ns)
  append_left [] h = absurd h
  append_left (m ∷ ms) (inl e) = inl e
  append_left (m ∷ ms) (inr h) = inr (append_left ms h)

  append_right : (ms : List ℤ) → Has n ns → Has n (ms ++ ns)
  append_right [] h = h
  append_right (m ∷ ms) h = inr (append_right ms h)

  append_split : (ms : List ℤ) → Has n (ms ++ ns) → Has n ms ⊎ Has n ns
  append_split [] h = inr h
  append_split (m ∷ ms) (inl e) = inl (inl e)
  append_split (m ∷ ms) (inr h) = elim (append_split ms h) [
    | inl left ↦ inl (inr left)
    | inr right ↦ inr right
  ]

-- A part that is parsed, put before the others
extend-IsOutcome :
    (part : Text) (parts : List Text) (o r : Option (List ℤ))
    → parse_part part ≡ o
    → AreNamed part o
    → IsOutcome parts r
    → IsOutcome (part ∷ parts) (extend o r)
extend-IsOutcome part parts none r e named out = (part, inl refl, none_parsed part e)
extend-IsOutcome part parts (some ns) none e named (bad, there, nothing) = (bad, inr there, nothing)
extend-IsOutcome part parts (some ns) (some ms) e ((m, m_there), named) (all, only, every) = (
  λ q h. elim h [
    | inl same ↦ (m, subst (λ (t : Text). Names t m) same (named m m_there))
    | inr later ↦ all q later
  ],
  λ n h. elim (append_split ms n ns h) [
    | inl left ↦ (part, inl refl, named n left)
    | inr right ↦ let (q, q_there, names_n) = only n right in (q, inr q_there, names_n)
  ],
  λ n (q, h, names_n). elim h [
    | inl same ↦
        let (ns', parsed, there) =
          Names-parsed part n (subst (λ (t : Text). Names t n) (sym same) names_n) in
        let is_ns : ns' ≡ ns = cc in append_left ms n ns (subst (Has n) is_ns there)
    | inr later ↦ append_right ms n ns (every n (q, later, names_n))
  ],
)

parse_parts-IsOutcome : (parts : List Text) → IsOutcome parts (parse_parts parts)
unfolding parse_parts
parse_parts-IsOutcome [] = (λ q h. absurd h, λ n h. absurd h, λ n h. absurd h.1)
parse_parts-IsOutcome (part ∷ parts) =
    extend-IsOutcome part parts (parse_part part) (parse_parts parts) refl
      (parse_part-AreNamed part) (parse_parts-IsOutcome parts)

abbrev pub AreSorted : Option (List ℤ) → Type 0
AreSorted none = Unit
AreSorted (some ns) = IsAscending ns

sort_pages-IsOutcome :
    (parts : List Text) (o : Option (List ℤ))
    → IsOutcome parts o
    → IsOutcome parts (sort_pages o) × AreSorted (sort_pages o)
sort_pages-IsOutcome parts none h = (h, tt)
sort_pages-IsOutcome parts (some ns) (all, only, every) = (
  (all, λ n h. only n (Has-sorted_set n ns h), λ n h. sorted_set-Has n ns (every n h)),
  sorted_set-IsAscending ns,
)

-- Parsing a request for pages fails exactly where one of its parts, between commas, names no number.
-- Otherwise the result is strictly ascending and holds exactly the numbers that some part names: a
-- number itself, or all from a first to a last one.
pub parse_pages-IsOutcome :
    (pages : Text)
    → IsOutcome (split_on b',' pages) (parse_pages pages) × AreSorted (parse_pages pages)
unfolding parse_pages
parse_pages-IsOutcome pages =
    sort_pages-IsOutcome (split_on b',' pages) (parse_parts (split_on b',' pages))
      (parse_parts-IsOutcome (split_on b',' pages))
