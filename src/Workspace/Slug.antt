-- ===== src/Workspace/Slug.antt =====
-- `normalize_workspace_slug`. `str.lower`, which is a table of Unicode, is an argument.
use fast_page.Prelude.{
  ℕ, Bool, false, not, ◌&&◌, ◌||◌, Option, none, some, [], ◌∷◌, leb, ltb, ◌==◌, length,
  if◌then◌else◌,
}
use fast_page.Http.{Result, ok, raise, raise_if, ◌>>◌}
use fast_page.Chars.{Text, strip, is_empty}

abbrev pub dash : ℕ
dash = b'-'

-- `[a-z0-9]`
unfoldable pub is_slug_char : ℕ → Bool
is_slug_char c = leb b'a' c && leb c b'z' || leb b'0' c && leb c b'9'

-- `re.sub(r"[^a-z0-9]+", "-", text)`; the flag says that a run of other characters goes on.
unfoldable pub sub_runs : Bool → Text → Text
sub_runs in_run [] = []
sub_runs in_run (c ∷ cs) =
    let rest = sub_runs (not (is_slug_char c)) cs in
    if is_slug_char c then c ∷ rest else if in_run then rest else dash ∷ rest

unfoldable pub strip_dashes_start : Text → Text
strip_dashes_start [] = []
strip_dashes_start (c ∷ cs) = let rest = strip_dashes_start cs in if c == dash then rest else c ∷ cs

abbrev pub keep_dash : ℕ → Text → Text
keep_dash c [] = if c == dash then [] else c ∷ []
keep_dash c (d ∷ ds) = c ∷ d ∷ ds

unfoldable pub strip_dashes_end : Text → Text
strip_dashes_end [] = []
strip_dashes_end (c ∷ cs) = keep_dash c (strip_dashes_end cs)

-- The two lines that make the slug
unfoldable pub slug_of : (lower : Text → Text) → Text → Text
unfolding sub_runs strip_dashes_start strip_dashes_end strip
slug_of lower raw_slug =
    strip_dashes_end (strip_dashes_start (sub_runs false (lower (strip raw_slug))))

unfoldable pub normalize_slug : (lower : Text → Text) → Option Text → Result Text
unfolding slug_of
normalize_slug lower none = raise 400 "Workspace slug is required"
normalize_slug lower (some raw_slug) = do
  let slug = slug_of lower raw_slug
  raise_if (is_empty slug) 400 "Workspace slug is invalid"
  raise_if (ltb 128 (length slug)) 400 "Workspace slug is too long"
  ok slug
