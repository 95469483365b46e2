-- ===== src/Markdown/SectionLines.antt =====
-- The sections of a Markdown text cut it into consecutive runs of lines.
use fast_page.Prelude.{
  ℕ, zero, suc, ◌+◌, ◌-◌, ◌≤◌, ◌<◌, ◌≡◌, refl, sym, ap, ◌∙◌, Bool, false, not, some, List, [], ◌∷◌,
  ◌++◌, map, arith, if◌then◌else◌, length, get_elem?, take, drop, All, Option-cases, inl, inr,
  take-append-drop,
}
use fast_page.Chars.{Text, strip, join_lines, split_lines}
use fast_page.Markdown.Patterns.{starts_fence, match_header, match_hashes, hash_run}
use fast_page.Markdown.Headings.{Heading, scan_lines, extract_nodes}
use fast_page.Markdown.Sections.{
  Section, read_levels, end_line, own_lines, read_bodies, extract_text_content,
}

-- Line numbers that ascend, from `low` on and below `high`
abbrev pub HeadingsIn : ℕ → ℕ → List Heading → Type 0
HeadingsIn low high [] = Unit
HeadingsIn low high (h ∷ hs) =
    (low ≤ h.line_num) × (h.line_num < high) × HeadingsIn (suc h.line_num) high hs

abbrev pub SectionsIn : ℕ → ℕ → List Section → Type 0
SectionsIn low high [] = Unit
SectionsIn low high (s ∷ ss) =
    (low ≤ s.line_num) × (s.line_num < high) × SectionsIn (suc s.line_num) high ss

HeadingsIn-widen :
    (low low' high : ℕ) (hs : List Heading)
    → low ≤ low'
    → HeadingsIn low' high hs
    → HeadingsIn low high hs
HeadingsIn-widen low low' high [] le h = tt
HeadingsIn-widen low low' high (x ∷ hs) le h = (omega arith, h.1, h.2)

SectionsIn-widen :
    (low low' high : ℕ) (ss : List Section)
    → low ≤ low'
    → SectionsIn low' high ss
    → SectionsIn low high ss
SectionsIn-widen low low' high [] le h = tt
SectionsIn-widen low low' high (x ∷ ss) le h = (omega arith, h.1, h.2)

-- The headings found on some lines are numbered upwards within those lines.
scan_lines-HeadingsIn :
    (b : Bool) (n : ℕ) (lines : List Text) (high : ℕ)
    → high ≡ n + length lines
    → HeadingsIn n high (scan_lines b n lines)
unfolding scan_lines
scan_lines-HeadingsIn b n [] high e = tt
scan_lines-HeadingsIn b n (line ∷ lines) high e =
    let b' = if starts_fence (strip line) then not b else b in
    let rest = scan_lines b' (suc n) lines in
    let later = scan_lines-HeadingsIn b' (suc n) lines high (omega arith) in
    ground (arith, HeadingsIn-widen n (suc n) high rest, Option-cases (match_header (strip line)))

get_elem?-lt {ℓ} :
    {A : Type ℓ} (xs : List A) (i : ℕ) → i < length xs → (x : A) × (get_elem? xs i ≡ some x)
get_elem?-lt [] i h = absurd (omega arith)
get_elem?-lt (x ∷ xs) zero h = (x, refl)
get_elem?-lt (x ∷ xs) (suc i) h = get_elem?-lt xs i (omega arith)

hash_run-le : (limit : ℕ) (t : Text) → hash_run limit t ≤ limit
unfolding hash_run
hash_run-le zero t = omega arith
hash_run-le (suc limit) [] = omega arith
hash_run-le (suc limit) (c ∷ cs) = ground (arith, hash_run-le limit cs)

abbrev pub HasLevel : Section → Type 0
HasLevel s = (1 ≤ s.level) × (s.level ≤ 6)

match_hashes-bounds : (line : Text) {run : ℕ} → match_hashes line ≡ some run → (1 ≤ run) × (run ≤ 6)
unfolding match_hashes
match_hashes-bounds line h = ground (arith, hash_run-le 6 line)

-- For headings within the lines the first loop gives sections, in order and with levels 1 to 6.
read_levels-total :
    (hs : List Heading) (lines : List Text) (low : ℕ)
    → 1 ≤ low
    → HeadingsIn low (suc (length lines)) hs
    → (ss : List Section) × (read_levels hs lines ≡ some ss)
      × SectionsIn low (suc (length lines)) ss
      × All HasLevel ss
unfolding read_levels
read_levels-total [] lines low one h = ([], refl, tt, tt)
read_levels-total (x ∷ hs) lines low one h =
    let (line, is_line) = get_elem?-lt lines (x.line_num - 1) (omega arith) in
    let (rest, is_rest, inside, levels) =
      read_levels-total hs lines (suc x.line_num) (omega arith) h.2 in
    elim (Option-cases (match_hashes line)) [
      | inl e ↦ (
        rest,
        rw (is_line, is_rest, e) refl,
        SectionsIn-widen low (suc x.line_num) (suc (length lines)) rest (omega arith) inside,
        levels,
      )
      | inr (run, e) ↦ (
        record { title = x.node_title; line_num = x.line_num; level = run; body = [] } ∷ rest,
        rw (is_line, is_rest, e) refl,
        (h.0, h.1, inside),
        (match_hashes-bounds line e, levels),
      )
    ]

sub-zero : (n : ℕ) → n - 0 ≡ n
sub-zero n = omega arith

sub-suc : (a b : ℕ) → suc b - suc a ≡ b - a
sub-suc a b = omega arith

take_nil {ℓ} : {A : Type ℓ} (n : ℕ) → ◌≡◌ {A = List A} (take n [] ++ []) []
take_nil zero = refl
take_nil (suc n) = refl

drop-length {ℓ} : {A : Type ℓ} (xs : List A) → drop (length xs) xs ≡ []
drop-length [] = refl
drop-length (x ∷ xs) = drop-length xs

drop-append_slice {ℓ} :
    {A : Type ℓ} (a b : ℕ) (xs : List A) → a ≤ b → take (b - a) (drop a xs) ++ drop b xs ≡ drop a xs
drop-append_slice zero b xs h = rw (sub-zero b) (take-append-drop b xs)
drop-append_slice (suc a) zero xs h = absurd (omega arith)
drop-append_slice (suc a) (suc b) [] h = take_nil (suc b - suc a)
drop-append_slice (suc a) (suc b) (x ∷ xs) h =
    rw (sub-suc a b) (drop-append_slice a b xs (omega arith))

-- All lines of some sections, one section after the other
abbrev pub concat_lines : List (List Text) → List Text
concat_lines [] = []
concat_lines (piece ∷ pieces) = piece ++ concat_lines pieces

pieces : List Section → List Text → List (List Text)
pieces [] lines = []
pieces (s ∷ rest) lines = own_lines s rest lines ∷ pieces rest lines

end_line-ge :
    (low : ℕ) (ss : List Section) (lines : List Text)
    → low ≤ length lines
    → SectionsIn (suc low) (suc (length lines)) ss
    → low ≤ end_line ss lines
end_line-ge low [] lines le h = le
end_line-ge low (s ∷ ss) lines le h = omega arith

concat_lines-pieces :
    (low : ℕ) (ss : List Section) (lines : List Text)
    → 1 ≤ low
    → SectionsIn low (suc (length lines)) ss
    → concat_lines (pieces ss lines) ≡ drop (end_line ss lines) lines
unfolding pieces
concat_lines-pieces low [] lines one h = sym (drop-length lines)
concat_lines-pieces low (s ∷ ss) lines one h =
    rw (concat_lines-pieces (suc s.line_num) ss lines (omega arith) h.2) (
      drop-append_slice (s.line_num - 1) (end_line ss lines) lines
        (omega (arith, end_line-ge s.line_num ss lines (omega arith) h.2)))

bodies-read_bodies :
    (ss : List Section) (lines : List Text)
    → map (λ (s : Section). s.body) (read_bodies ss lines)
      ≡ map (λ (piece : List Text). strip (join_lines piece)) (pieces ss lines)
unfolding read_bodies pieces
bodies-read_bodies [] lines = refl
bodies-read_bodies (s ∷ ss) lines =
    ap (λ r. strip (join_lines (own_lines s ss lines)) ∷ r) (bodies-read_bodies ss lines)

read_bodies-HasLevel :
    (ss : List Section) (lines : List Text) → All HasLevel ss → All HasLevel (read_bodies ss lines)
unfolding read_bodies
read_bodies-HasLevel [] lines h = tt
read_bodies-HasLevel (s ∷ ss) lines h = (h.0, read_bodies-HasLevel ss lines h.1)

end_line-read_bodies :
    (ss : List Section) (lines : List Text)
    → end_line (read_bodies ss lines) lines ≡ end_line ss lines
unfolding read_bodies
end_line-read_bodies [] lines = refl
end_line-read_bodies (s ∷ ss) lines = refl

-- Some sections cut the lines from the first one's heading on into consecutive runs: each text is
-- its run, joined and stripped, and the runs in order are all those lines.
pub record IsCut (lines : List Text) (ss : List Section) : Type 0 where
  pub runs : List (List Text)
  pub bodies :
      map (λ (s : Section). s.body) ss ≡ map (λ (run : List Text). strip (join_lines run)) runs
  pub whole : concat_lines runs ≡ drop (end_line ss lines) lines
  pub levels : All HasLevel ss

-- Of any Markdown text sections are extracted, with no index out of range; their levels are 1 to
-- 6, and their texts are the stripped runs of lines that together make up the file from the first
-- section's line on.
pub extract-IsCut :
    (content : Text)
    → let (headings, lines) = extract_nodes content in
      (ss : List Section) × (extract_text_content headings lines ≡ some ss) × IsCut lines ss
unfolding extract_nodes extract_text_content
extract-IsCut content =
    let lines = split_lines content in
    let headings = scan_lines false 1 lines in
    let (ss, read, inside, levels) =
      read_levels-total headings lines 1 (omega arith)
        (scan_lines-HeadingsIn false 1 lines (suc (length lines)) (omega arith)) in
    (
      read_bodies ss lines,
      rw read refl,
      record {
        runs = pieces ss lines;
        bodies = bodies-read_bodies ss lines;
        whole =
            concat_lines-pieces 1 ss lines (omega arith) inside
            ∙ ap (λ n. drop n lines) (sym (end_line-read_bodies ss lines));
        levels = read_bodies-HasLevel ss lines levels;
      },
    )
