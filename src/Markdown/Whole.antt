-- ===== src/Markdown/Whole.antt =====
-- The whole pipeline keeps the text of the file.
use fast_page.Prelude.{
  ℕ, ◌+◌, ◌≡◌, refl, sym, ap, ◌∙◌, Bool, true, false, some, List, [], ◌∷◌, ◌++◌, map, drop,
  append_assoc, append-nil,
}
use fast_page.Chars.{Text, newline, is_space, strip, join_lines}
use fast_page.Markdown.Headings.{extract_nodes}
use fast_page.Markdown.Sections.{Section, end_line, extract_text_content}
use fast_page.Markdown.Tokens.{Counted, update_token_counts}
use fast_page.Markdown.Thinning.{tree_thinning}
use fast_page.Markdown.Build.{TreeNode, Builder, build_tree}
use fast_page.Markdown.Pipeline.{thin_sections, md_tree}
use fast_page.Markdown.SectionLines.{concat_lines, extract-IsCut}
use fast_page.Markdown.Ink.{ink, all_ink, ink-append, ink-strip, ink-tree_thinning}
use fast_page.Markdown.Labels.{labels_from, label, labels-build_tree}

abbrev pub lines_ink : List Text → Text
lines_ink [] = []
lines_ink (line ∷ lines) = ink line ++ lines_ink lines

-- The ink of a tree: its nodes' texts in the order of creation
abbrev pub store_ink : List TreeNode → Text
store_ink [] = []
store_ink (t ∷ store) = ink t.body ++ store_ink store

sections_ink : List Section → Text
sections_ink [] = []
sections_ink (s ∷ ss) = ink s.body ++ sections_ink ss

labels_ink : List (Text × Text × Text × ℕ) → Text
labels_ink [] = []
labels_ink ((title, id, body, line) ∷ rest) = ink body ++ labels_ink rest

ink-join_lines : (lines : List Text) → ink (join_lines lines) ≡ lines_ink lines
unfolding join_lines is_space
ink-join_lines [] = refl
ink-join_lines (line ∷ []) = sym (append-nil (ink line))
ink-join_lines (line ∷ next ∷ lines) =
    ink-append line (newline ∷ join_lines (next ∷ lines))
    ∙ ap (λ r. ink line ++ r) (ink-join_lines (next ∷ lines))

lines_ink-append : (xs ys : List Text) → lines_ink (xs ++ ys) ≡ lines_ink xs ++ lines_ink ys
lines_ink-append [] ys = refl
lines_ink-append (x ∷ xs) ys =
    ap (λ r. ink x ++ r) (lines_ink-append xs ys)
    ∙ sym (append_assoc (ink x) (lines_ink xs) (lines_ink ys))

texts_ink : List Text → Text
texts_ink [] = []
texts_ink (t ∷ ts) = ink t ++ texts_ink ts

texts_ink-runs :
    (runs : List (List Text))
    → texts_ink (map (λ (run : List Text). strip (join_lines run)) runs)
      ≡ lines_ink (concat_lines runs)
unfolding texts_ink
texts_ink-runs [] = refl
texts_ink-runs (run ∷ runs) =
    ap (λ i. i ++ texts_ink (map (λ (r : List Text). strip (join_lines r)) runs))
      (ink-strip (join_lines run) ∙ ink-join_lines run)
    ∙ ap (λ i. lines_ink run ++ i) (texts_ink-runs runs)
    ∙ sym (lines_ink-append run (concat_lines runs))

texts_ink-bodies :
    (ss : List Section) → texts_ink (map (λ (s : Section). s.body) ss) ≡ sections_ink ss
unfolding texts_ink sections_ink
texts_ink-bodies [] = refl
texts_ink-bodies (s ∷ ss) = ap (λ r. ink s.body ++ r) (texts_ink-bodies ss)

sections_ink-counts :
    (count_tokens : Text → ℕ) (ss : List Section)
    → all_ink (update_token_counts count_tokens ss) ≡ sections_ink ss
unfolding update_token_counts sections_ink
sections_ink-counts count_tokens [] = refl
sections_ink-counts count_tokens (s ∷ ss) =
    ap (λ r. ink s.body ++ r) (sections_ink-counts count_tokens ss)

sections_ink-map :
    (ns : List Counted) → sections_ink (map (λ (n : Counted). n.section) ns) ≡ all_ink ns
unfolding sections_ink
sections_ink-map [] = refl
sections_ink-map (n ∷ ns) = ap (λ r. ink n.body ++ r) (sections_ink-map ns)

sections_ink-thin :
    (count_tokens : Text → ℕ) (b : Bool) (limit : ℕ) (ss : List Section)
    → sections_ink (thin_sections count_tokens b limit ss) ≡ sections_ink ss
unfolding thin_sections
sections_ink-thin count_tokens true limit ss =
    let counted = update_token_counts count_tokens ss in
    sections_ink-map (tree_thinning count_tokens limit counted)
    ∙ ink-tree_thinning count_tokens limit counted
    ∙ sections_ink-counts count_tokens ss
sections_ink-thin count_tokens false limit ss = refl

labels_ink-from : (n : ℕ) (ss : List Section) → labels_ink (labels_from n ss) ≡ sections_ink ss
unfolding labels_ink sections_ink
labels_ink-from n [] = refl
labels_ink-from n (s ∷ ss) = ap (λ r. ink s.body ++ r) (labels_ink-from (n + 1) ss)

labels_ink-store : (store : List TreeNode) → labels_ink (map label store) ≡ store_ink store
unfolding labels_ink
labels_ink-store [] = refl
labels_ink-store (t ∷ store) = ap (λ r. ink t.body ++ r) (labels_ink-store store)

store_ink-build_tree : (ss : List Section) → store_ink (build_tree ss).store ≡ sections_ink ss
store_ink-build_tree ss =
    sym (labels_ink-store (build_tree ss).store)
    ∙ ap labels_ink (labels-build_tree ss)
    ∙ labels_ink-from 1 ss

-- Any Markdown text gives a tree, thinned or not, whose nodes' texts, in order, hold exactly the
-- characters that are no spaces of the file's lines from the first section on.
pub ink-md_tree :
    (count_tokens : Text → ℕ) (if_thinning : Bool) (limit : ℕ) (content : Text)
    → let (headings, lines) = extract_nodes content in
      (ss : List Section) × (tree : Builder) × (extract_text_content headings lines ≡ some ss)
      × (md_tree count_tokens if_thinning limit content ≡ some tree)
      × (store_ink tree.store ≡ lines_ink (drop (end_line ss lines) lines))
unfolding md_tree
ink-md_tree count_tokens if_thinning limit content =
    let (headings, lines) = extract_nodes content in
    let (ss, read, cut) = extract-IsCut content in
    let thinned = thin_sections count_tokens if_thinning limit ss in
    (
      ss,
      build_tree thinned,
      read,
      rw read refl,
      store_ink-build_tree thinned
          ∙ sections_ink-thin count_tokens if_thinning limit ss
          ∙ sym (texts_ink-bodies ss)
          ∙ ap texts_ink cut.bodies
          ∙ texts_ink-runs cut.runs
          ∙ ap lines_ink cut.whole,
    )
