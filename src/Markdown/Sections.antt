-- ===== src/Markdown/Sections.antt =====
-- `extract_node_text_content`: each heading with its level and the text up to the next one.
use fast_page.Prelude.{ℕ, ◌-◌, Option, none, some, List, [], ◌∷◌, length, get_elem?, take, drop}
use fast_page.Chars.{Text, strip, join_lines}
use fast_page.Markdown.Patterns.{match_hashes}
use fast_page.Markdown.Headings.{Heading}

pub record Section : Type 0 where
  pub title : Text
  pub line_num : ℕ
  pub level : ℕ
  pub body : Text

-- The first loop: a heading whose line, not stripped, does not begin with a hash is passed over.
-- `none` is the `IndexError` of a line number out of range.
abbrev pub add_section : Heading → Option ℕ → List Section → List Section
add_section h none rest = rest
add_section h (some level) rest =
    record { title = h.node_title; line_num = h.line_num; level = level; body = [] } ∷ rest

infixl 5 ◌>>=◌
abbrev ◌>>=◌ : {A B : Type 0} → Option A → (A → Option B) → Option B
none >>= f = none
some a >>= f = f a

unfoldable pub read_levels : List Heading → List Text → Option (List Section)
unfolding match_hashes
read_levels [] lines = some []
read_levels (h ∷ hs) lines = do
  line_content ← get_elem? lines (h.line_num - 1)
  rest ← read_levels hs lines
  some (add_section h (match_hashes line_content) rest)

-- `lines[start:end]`
abbrev pub slice {ℓ} : {A : Type ℓ} → List A → ℕ → ℕ → List A
slice lines start stop = take (stop - start) (drop start lines)

-- Where a section's lines end: at the next section's line, or at the end of the file.
abbrev pub end_line : List Section → List Text → ℕ
end_line [] lines = length lines
end_line (next ∷ rest) lines = next.line_num - 1

abbrev pub own_lines : Section → List Section → List Text → List Text
own_lines s rest lines = slice lines (s.line_num - 1) (end_line rest lines)

unfoldable pub read_bodies : List Section → List Text → List Section
unfolding strip join_lines
read_bodies [] lines = []
read_bodies (s ∷ rest) lines =
    record s { body = strip (join_lines (own_lines s rest lines)) } ∷ read_bodies rest lines

unfoldable pub extract_text_content : List Heading → List Text → Option (List Section)
unfolding read_levels read_bodies
extract_text_content node_list markdown_lines = do
  all_nodes ← read_levels node_list markdown_lines
  some (read_bodies all_nodes markdown_lines)
