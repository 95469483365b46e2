-- ===== src/Markdown/Covered.antt =====
-- Which sections thinning removes.
use fast_page.Prelude.{
  ℕ, ◌≤◌, ◌≡◌, refl, ap, ◌∙◌, Bool, false, Option, none, some, List, [], ◌∷◌, map, arith, ltb,
  if◌then◌else◌, Bool-cases, inl, inr,
}
use fast_page.Chars.{Text}
use fast_page.Markdown.Tokens.{Counted}
use fast_page.Markdown.Thinning.{
  Slot, children_texts, remove_children, with_text, thin_node, thin_from_end, pop_removed,
  tree_thinning,
}

-- The heading of a section: what thinning leaves of it as it is
abbrev pub heading : Counted → Text × ℕ × ℕ
heading n = (n.title, n.line_num, n.level)

-- A section is covered if an earlier one, of fewer tokens than the limit, has it among its
-- descendants. One pass from the front carries the level of the outermost such section.
abbrev pub is_covered : Option ℕ → Counted → Bool
is_covered none n = false
is_covered (some cover) n = ltb cover n.level

abbrev pub next_cover : ℕ → Option ℕ → Counted → Option ℕ
next_cover limit cover n =
    if is_covered cover n
    then cover
    else if ltb n.text_token_count limit
    then some n.level
    else none

unfoldable pub uncovered : ℕ → Option ℕ → List Counted → List (Text × ℕ × ℕ)
uncovered limit cover [] = []
uncovered limit cover (n ∷ ns) =
    let rest = uncovered limit (next_cover limit cover n) ns in
    if is_covered cover n then rest else heading n ∷ rest

kept_headings : List Slot → List (Text × ℕ × ℕ)
kept_headings [] = []
kept_headings (s ∷ ss) =
    let rest = kept_headings ss in if s.removed then rest else heading s.node ∷ rest

remove_children_twice :
    (inner outer : ℕ) (ss : List Slot)
    → outer ≤ inner
    → remove_children outer (remove_children inner ss) ≡ remove_children outer ss
unfolding remove_children
remove_children_twice inner outer [] h = refl
remove_children_twice inner outer (s ∷ ss) h = ground (arith, remove_children_twice inner outer ss)

heading-with_text :
    (count_tokens : Text → ℕ) (n : Counted) (ts : List Text)
    → heading (with_text count_tokens n ts) ≡ heading n
heading-with_text count_tokens n [] = refl
heading-with_text count_tokens n (t ∷ ts) = refl

level-with_text :
    (count_tokens : Text → ℕ) (n : Counted) (ts : List Text)
    → (with_text count_tokens n ts).level ≡ n.level
level-with_text count_tokens n [] = refl
level-with_text count_tokens n (t ∷ ts) = refl

pop_removed-kept : (ss : List Slot) → map heading (pop_removed ss) ≡ kept_headings ss
unfolding pop_removed kept_headings
pop_removed-kept [] = refl
pop_removed-kept (s ∷ ss) = ground (arith, pop_removed-kept ss)

module _ (count_tokens : Text → ℕ) (limit : ℕ) where
  -- The slots under a cover: as thinning leaves them, or with the descendants of a section removed
  abbrev under : Option ℕ → List Slot → List Slot
  under none ss = ss
  under (some cover) ss = remove_children cover ss

  under-thin_node :
      (cover : Option ℕ) (n : Counted) (rest : List Slot)
      → kept_headings (under cover (thin_node count_tokens limit n rest)) ≡ (
          let kept = kept_headings (under (next_cover limit cover n) rest) in
          if is_covered cover n then kept else heading n ∷ kept)
  unfolding thin_node kept_headings remove_children
  under-thin_node none n rest = elim (Bool-cases (ltb n.text_token_count limit)) [
    | inl e ↦ rw e (
        ap (λ h. h ∷ kept_headings (remove_children n.level rest))
          (heading-with_text count_tokens n (children_texts n.level rest)))
    | inr e ↦ rw e refl
  ]
  under-thin_node (some cover) n rest =
      let texts = children_texts n.level rest in
      ground (
        arith,
        heading-with_text count_tokens n texts,
        level-with_text count_tokens n texts,
        remove_children_twice n.level cover rest,
      )

  uncovered_lem :
      (cover : Option ℕ) (ns : List Counted)
      → kept_headings (under cover (thin_from_end count_tokens limit ns)) ≡ uncovered limit cover ns
  unfolding uncovered thin_from_end kept_headings remove_children
  uncovered_lem none [] = refl
  uncovered_lem (some cover) [] = refl
  uncovered_lem cover (n ∷ ns) =
      under-thin_node cover n (thin_from_end count_tokens limit ns)
      ∙ ap (λ (kept : List (Text × ℕ × ℕ)). if is_covered cover n then kept else heading n ∷ kept)
          (uncovered_lem (next_cover limit cover n) ns)

-- Thinning keeps, with title, line number and level and in order, exactly the sections that are
-- not among the descendants of an earlier section of fewer tokens than the limit.
pub headings-tree_thinning :
    (count_tokens : Text → ℕ) (limit : ℕ) (ns : List Counted)
    → map heading (tree_thinning count_tokens limit ns) ≡ uncovered limit none ns
unfolding tree_thinning
headings-tree_thinning count_tokens limit ns =
    pop_removed-kept (thin_from_end count_tokens limit ns)
    ∙ uncovered_lem count_tokens limit none ns
