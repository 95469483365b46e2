-- ===== src/Markdown/HeadingLines.antt =====
-- Which lines of a Markdown text become headings.
use fast_page.Prelude.{
  ℕ, zero, suc, ◌+◌, ◌%◌, ◌<◌, ◌≡◌, refl, Bool, true, not, Option, none, some, List, [], ◌∷◌, arith,
  ◌==◌, if◌then◌else◌, ◌∙◌, get_elem?, take, Option-cases, Bool-cases, inl, inr,
}
use fast_page.Chars.{Text, strip, is_empty, split_lines}
use fast_page.Markdown.Patterns.{starts_fence, match_header, hash_run}
use fast_page.Markdown.Headings.{Heading, scan_line, scan_lines, extract_nodes}

-- The number of code fences among some lines.
unfoldable pub fences : List Text → ℕ
fences [] = 0
fences (line ∷ lines) =
    let rest = fences lines in if starts_fence (strip line) then suc rest else rest

abbrev pub odd : ℕ → Bool
odd n = n % 2 == 1

-- The title that a line gives, from what the line is and the number of fences above it.
abbrev pub header_title : Option Text → Option Text
header_title none = none
header_title (some group) = some (strip group)

abbrev pub line_title : Option Text → ℕ → Option Text
line_title none fences_above = none
line_title (some line) fences_above =
    if starts_fence (strip line)
    then none
    else if odd fences_above
    then none
    else header_title (match_header (strip line))

-- The title of the heading of a line, by a list of headings
unfoldable pub title_at : List Heading → ℕ → Option Text
title_at [] n = none
title_at (h ∷ hs) n = if h.line_num == n then some h.node_title else title_at hs n

-- The title of line n + 1 by the definition of a heading alone
abbrev pub expected_title : Text → ℕ → Option Text
expected_title content n =
    line_title (get_elem? (split_lines content) n) (fences (take n (split_lines content)))

above :
    (b : Bool) (k : ℕ) (lines : List Text) (m : ℕ)
    → m < k
    → title_at (scan_lines b k lines) m ≡ none
unfolding title_at scan_lines
above b k [] m h = refl
above b k (line ∷ lines) m h = ground (
  arith,
  above (if starts_fence (strip line) then not b else b) (suc k) lines m,
  Option-cases (match_header (strip line)),
)

match_header-empty : (t : Text) → is_empty t ≡ true → match_header t ≡ none
unfolding match_header hash_run
match_header-empty [] h = refl
match_header-empty (c ∷ cs) h = cc

odd-suc : (k : ℕ) → odd (suc k) ≡ not (odd k)
odd-suc k = ground arith

title_at-scan_line_self :
    (b : Bool) (n : ℕ) (stripped : Text) (rest : List Heading)
    → title_at rest n ≡ none
    → title_at (scan_line b n stripped rest) n ≡ (
        if starts_fence stripped
        then none
        else if b
        then none
        else header_title (match_header stripped))
unfolding title_at
title_at-scan_line_self b n stripped rest h =
    ground (arith, match_header-empty stripped, Option-cases (match_header stripped))

title_at-scan_line_later :
    (b : Bool) (n : ℕ) (stripped : Text) (rest : List Heading) (m : ℕ)
    → n < m
    → title_at (scan_line b n stripped rest) m ≡ title_at rest m
unfolding title_at
title_at-scan_line_later b n stripped rest m h =
    ground (arith, Option-cases (match_header stripped))

scan_lines_lem :
    (lines : List Text) (k n i : ℕ) (m c : ℕ)
    → m ≡ n + i
    → c ≡ k + fences (take i lines)
    → title_at (scan_lines (odd k) n lines) m ≡ line_title (get_elem? lines i) c
unfolding title_at scan_lines fences
scan_lines_lem [] k n i m c em ec = refl
scan_lines_lem (line ∷ lines) k n zero m c em ec =
    let is_m : m ≡ n = omega arith in
    let is_c : c ≡ k = omega arith in
    rw (is_m, is_c)
      (title_at-scan_line_self (odd k) n (strip line) _ (
        above (if starts_fence (strip line) then not (odd k) else odd k) (suc n) lines n
          (omega arith)))
scan_lines_lem (line ∷ lines) k n (suc i) m c em ec =
    title_at-scan_line_later (odd k) n (strip line) _ m (omega arith)
    ∙ elim (Bool-cases (starts_fence (strip line))) [
      | inl e ↦
          rw (e, ← odd-suc k)
            (scan_lines_lem lines (suc k) (suc n) i m c (omega arith) (rw e at ec ∙ omega arith))
      | inr e ↦ rw e (scan_lines_lem lines k (suc n) i m c (omega arith) (rw e at ec))
    ]

-- Line n + 1 of a Markdown text becomes a heading exactly when it is no code fence, the fences
-- above it are even in number and it matches the header pattern; its title is the stripped rest.
pub extract_nodes_lem :
    (content : Text) (n : ℕ) → title_at (extract_nodes content).0 (suc n) ≡ expected_title content n
unfolding extract_nodes
extract_nodes_lem content n =
    scan_lines_lem (split_lines content) 0 1 n (suc n) (fences (take n (split_lines content)))
      (omega arith) (omega arith)
