-- ===== src/Markdown/Ink.antt =====
-- Thinning loses no text: the characters that are no spaces stay, in their order.
use fast_page.Prelude.{
  ℕ, ◌≡◌, refl, sym, ap, ◌∙◌, Bool, true, false, not, ◌||◌, List, [], ◌∷◌, ◌++◌, arith, ltb, keep,
  if◌then◌else◌, append-nil, append_assoc, Bool-cases, inl, inr,
}
use fast_page.Chars.{Text, newline, is_space, is_empty, strip, strip_start, strip_end, keep_char}
use fast_page.Markdown.Tokens.{Counted}
use fast_page.Markdown.Thinning.{
  Slot, children_texts, remove_children, ends_with_newline, merge_texts, with_text, thin_node,
  thin_from_end, pop_removed, tree_thinning,
}

-- The characters of a text that are no spaces
abbrev pub ink : Text → Text
ink = keep (λ c. not (is_space c))

pub ink-append : (s t : Text) → ink (s ++ t) ≡ ink s ++ ink t
ink-append [] t = refl
ink-append (c ∷ s) t = ground (arith, ink-append s t)

ink-strip_start : (t : Text) → ink (strip_start t) ≡ ink t
unfolding strip_start
ink-strip_start [] = refl
ink-strip_start (c ∷ cs) = ground (arith, ink-strip_start cs)

ink-keep_char : (c : ℕ) (t : Text) → ink (keep_char c t) ≡ ink (c ∷ t)
ink-keep_char c [] = ground arith
ink-keep_char c (d ∷ ds) = refl

ink-strip_end : (t : Text) → ink (strip_end t) ≡ ink t
unfolding strip_end
ink-strip_end [] = refl
ink-strip_end (c ∷ cs) = ink-keep_char c (strip_end cs) ∙ ground (arith, ink-strip_end cs)

pub ink-strip : (t : Text) → ink (strip t) ≡ ink t
unfolding strip
ink-strip t = ink-strip_end (strip_start t) ∙ ink-strip_start t

ink-empty : (t : Text) → is_empty t ≡ true → ink t ≡ []
ink-empty [] h = refl
ink-empty (c ∷ cs) h = cc

ink-blank : (t : Text) → is_empty (strip t) ≡ true → ink t ≡ []
ink-blank t h = sym (ink-strip t) ∙ ink-empty (strip t) h

abbrev texts_ink : List Text → Text
texts_ink [] = []
texts_ink (t ∷ ts) = ink t ++ texts_ink ts

-- The ink of a list of sections, one text after the other
abbrev pub all_ink : List Counted → Text
all_ink [] = []
all_ink (n ∷ ns) = ink n.body ++ all_ink ns

kept_ink : List Slot → Text
kept_ink [] = []
kept_ink (s ∷ ss) = if s.removed then kept_ink ss else ink s.body ++ kept_ink ss

ink-newlines : (t : Text) → ink (t ++ (newline ∷ newline ∷ [])) ≡ ink t
unfolding is_space
ink-newlines t = ink-append t (newline ∷ newline ∷ []) ∙ append-nil (ink t)

ink-parted : (b : Bool) (t : Text) → ink (if b then t else t ++ (newline ∷ newline ∷ [])) ≡ ink t
ink-parted true t = refl
ink-parted false t = ink-newlines t

ink-merge_texts :
    (merged : Text) (ts : List Text) → ink (merge_texts merged ts) ≡ ink merged ++ texts_ink ts
unfolding merge_texts
ink-merge_texts merged [] = sym (append-nil (ink merged))
ink-merge_texts merged (t ∷ ts) =
    let parted = is_empty merged || ends_with_newline merged in
    let start = if parted then merged else merged ++ (newline ∷ newline ∷ []) in
    ink-merge_texts (start ++ t) ts
    ∙ ap (λ i. i ++ texts_ink ts)
        (ink-append start t ∙ ap (λ i. i ++ ink t) (ink-parted parted merged))
    ∙ append_assoc (ink merged) (ink t) (texts_ink ts)

ink-with_text :
    (count_tokens : Text → ℕ) (n : Counted) (ts : List Text)
    → ink (with_text count_tokens n ts).body ≡ ink n.body ++ texts_ink ts
ink-with_text count_tokens n [] = sym (append-nil (ink n.body))
ink-with_text count_tokens n (t ∷ ts) = ink-merge_texts n.body (t ∷ ts)

kept_ink-remove_children :
    (level : ℕ) (ss : List Slot)
    → texts_ink (children_texts level ss) ++ kept_ink (remove_children level ss) ≡ kept_ink ss
unfolding children_texts remove_children kept_ink
kept_ink-remove_children level [] = refl
kept_ink-remove_children level (s ∷ ss) = ground (
  arith,
  kept_ink-remove_children level ss,
  ink-blank s.body,
  append_assoc (ink s.body) (texts_ink (children_texts level ss))
      (kept_ink (remove_children level ss)),
)

kept_ink-thin_node :
    (count_tokens : Text → ℕ) (limit : ℕ) (n : Counted) (rest : List Slot)
    → kept_ink (thin_node count_tokens limit n rest) ≡ ink n.body ++ kept_ink rest
unfolding thin_node kept_ink
kept_ink-thin_node count_tokens limit n rest = elim (Bool-cases (ltb n.text_token_count limit)) [
  | inl e ↦ rw e (
      ap (λ i. i ++ kept_ink (remove_children n.level rest))
        (ink-with_text count_tokens n (children_texts n.level rest))
      ∙ append_assoc (ink n.body) (texts_ink (children_texts n.level rest))
          (kept_ink (remove_children n.level rest))
      ∙ ap (λ i. ink n.body ++ i) (kept_ink-remove_children n.level rest))
  | inr e ↦ rw e refl
]

kept_ink-thin_from_end :
    (count_tokens : Text → ℕ) (limit : ℕ) (ns : List Counted)
    → kept_ink (thin_from_end count_tokens limit ns) ≡ all_ink ns
unfolding thin_from_end kept_ink
kept_ink-thin_from_end count_tokens limit [] = refl
kept_ink-thin_from_end count_tokens limit (n ∷ ns) =
    kept_ink-thin_node count_tokens limit n (thin_from_end count_tokens limit ns)
    ∙ ap (λ i. ink n.body ++ i) (kept_ink-thin_from_end count_tokens limit ns)

all_ink-pop_removed : (ss : List Slot) → all_ink (pop_removed ss) ≡ kept_ink ss
unfolding pop_removed kept_ink
all_ink-pop_removed [] = refl
all_ink-pop_removed (s ∷ ss) = ground (arith, all_ink-pop_removed ss)

pub ink-tree_thinning :
    (count_tokens : Text → ℕ) (limit : ℕ) (ns : List Counted)
    → all_ink (tree_thinning count_tokens limit ns) ≡ all_ink ns
unfolding tree_thinning
ink-tree_thinning count_tokens limit ns =
    all_ink-pop_removed (thin_from_end count_tokens limit ns)
    ∙ kept_ink-thin_from_end count_tokens limit ns
