-- ===== src/Workspace/NormalSlug.antt =====
-- What a normalized slug looks like.
use fast_page.Prelude.{
  ℕ, ◌≤◌, ◌≡◌, refl, Bool, true, false, not, ◌&&◌, ◌||◌, Option, none, some, [], ◌∷◌, arith, ltb,
  ◌==◌, length, if◌then◌else◌,
}
use fast_page.Http.{ok, raise_if, ◌>>◌}
use fast_page.Chars.{Text, is_space, strip, strip_start, strip_end, is_empty}
use fast_page.Workspace.Slug.{
  dash, is_slug_char, sub_runs, strip_dashes_start, keep_dash, strip_dashes_end, slug_of,
  normalize_slug,
}

-- Only `a-z`, `0-9` and single dashes between them; the flag says that a dash stands in front.
unfoldable pub is_slug_after : Bool → Text → Bool
is_slug_after after_dash [] = not after_dash
is_slug_after after_dash (c ∷ cs) =
    let rest = is_slug_after (not (is_slug_char c)) cs in
    if is_slug_char c then rest else c == dash && not after_dash && rest

-- No dash at either end, no two in a row, no other character, and not empty
abbrev pub is_slug : Text → Bool
is_slug = is_slug_after true

-- The same, but a dash may stand at the end.
loose : Bool → Text → Bool
loose after_dash [] = true
loose after_dash (c ∷ cs) =
    let rest = loose (not (is_slug_char c)) cs in
    if is_slug_char c then rest else c == dash && not after_dash && rest

dash-is_slug_char : is_slug_char dash ≡ false
unfolding is_slug_char
dash-is_slug_char = refl

loose-sub_runs : (b : Bool) (t : Text) → loose b (sub_runs b t) ≡ true
unfolding loose sub_runs
loose-sub_runs b [] = refl
loose-sub_runs b (c ∷ cs) =
    ground (arith, dash-is_slug_char, loose-sub_runs true cs, loose-sub_runs false cs)

loose-strip_start_self : (t : Text) → loose true t ≡ true → strip_dashes_start t ≡ t
unfolding loose strip_dashes_start
loose-strip_start_self [] h = refl
loose-strip_start_self (c ∷ cs) h = ground (arith, dash-is_slug_char)

loose-strip_dashes_start :
    (t : Text) → loose false t ≡ true → loose true (strip_dashes_start t) ≡ true
unfolding loose strip_dashes_start
loose-strip_dashes_start [] h = refl
loose-strip_dashes_start (c ∷ cs) h = ground (arith, dash-is_slug_char, loose-strip_start_self cs)

keep_dash-is_slug :
    (b : Bool) (c : ℕ) (rest : Text)
    → is_slug_char c || c == dash && not b ≡ true
    → (is_empty rest ≡ false → is_slug_after (not (is_slug_char c)) rest ≡ true)
    → is_empty (keep_dash c rest) ≡ false
    → is_slug_after b (keep_dash c rest) ≡ true
unfolding is_slug_after
keep_dash-is_slug b c [] char ih e = ground (arith, dash-is_slug_char)
keep_dash-is_slug b c (d ∷ ds) char ih e = ground arith

is_slug-strip_dashes_end :
    (b : Bool) (t : Text)
    → loose b t ≡ true
    → is_empty (strip_dashes_end t) ≡ false
    → is_slug_after b (strip_dashes_end t) ≡ true
unfolding loose strip_dashes_end is_slug_after
is_slug-strip_dashes_end b [] h e = cc
is_slug-strip_dashes_end b (c ∷ cs) h e =
    keep_dash-is_slug b c (strip_dashes_end cs) (ground arith)
      (is_slug-strip_dashes_end (not (is_slug_char c)) cs (ground arith)) e

accepted-is_slug :
    (s : Text) {slug : Text}
    → (is_empty s ≡ false → is_slug s ≡ true)
    → (raise_if (is_empty s) 400 "Workspace slug is invalid"
        >> (raise_if (ltb 128 (length s)) 400 "Workspace slug is too long" >> ok s))
      ≡ ok slug
    → (is_slug slug ≡ true) × (length slug ≤ 128)
accepted-is_slug s {slug} valid h = ground arith

-- A slug that is accepted is not empty, has at most 128 characters, and consists of `a-z`, `0-9`
-- and single dashes between them.
pub normalize_slug-is_slug :
    (lower : Text → Text) (raw : Option Text) {slug : Text}
    → normalize_slug lower raw ≡ ok slug
    → (is_slug slug ≡ true) × (length slug ≤ 128)
unfolding normalize_slug
normalize_slug-is_slug lower none h = cc
normalize_slug-is_slug lower (some raw) {slug} h =
    accepted-is_slug (slug_of lower raw)
      (is_slug-strip_dashes_end true _
        (loose-strip_dashes_start _ (loose-sub_runs false (lower (strip raw)))))
      h

sub_runs-slug : (b : Bool) (t : Text) → is_slug_after b t ≡ true → sub_runs b t ≡ t
unfolding sub_runs is_slug_after
sub_runs-slug b [] h = refl
sub_runs-slug b (c ∷ cs) h =
    ground (arith, dash-is_slug_char, sub_runs-slug (not (is_slug_char c)) cs)

strip_dashes_start-slug : (t : Text) → is_slug t ≡ true → strip_dashes_start t ≡ t
unfolding strip_dashes_start is_slug_after
strip_dashes_start-slug [] h = refl
strip_dashes_start-slug (c ∷ cs) h = ground (arith, dash-is_slug_char)

strip_dashes_end-slug : (b : Bool) (t : Text) → is_slug_after b t ≡ true → strip_dashes_end t ≡ t
unfolding strip_dashes_end is_slug_after
strip_dashes_end-slug b [] h = refl
strip_dashes_end-slug b (c ∷ []) h = ground (arith, dash-is_slug_char)
strip_dashes_end-slug b (c ∷ d ∷ cs) h =
    rw (strip_dashes_end-slug (not (is_slug_char c)) (d ∷ cs) (ground arith)) refl

slug_char-is_space : (c : ℕ) → is_slug_char c || c == dash ≡ true → is_space c ≡ false
unfolding is_slug_char is_space
slug_char-is_space c h = ground arith

strip_start-slug : (t : Text) (b : Bool) → is_slug_after b t ≡ true → strip_start t ≡ t
unfolding strip_start is_slug_after
strip_start-slug [] b h = refl
strip_start-slug (c ∷ cs) b h = rw (slug_char-is_space c (ground arith)) refl

strip_end-slug : (b : Bool) (t : Text) → is_slug_after b t ≡ true → strip_end t ≡ t
unfolding strip_end is_slug_after
strip_end-slug b [] h = refl
strip_end-slug b (c ∷ []) h = rw (slug_char-is_space c (ground arith)) refl
strip_end-slug b (c ∷ d ∷ cs) h =
    rw (strip_end-slug (not (is_slug_char c)) (d ∷ cs) (ground arith)) refl

is_slug-weaken : (t : Text) → is_slug t ≡ true → is_slug_after false t ≡ true
unfolding is_slug_after
is_slug-weaken [] h = cc
is_slug-weaken (c ∷ cs) h = ground arith

slug-accepted :
    (s : Text)
    → is_slug s ≡ true
    → length s ≤ 128
    → (raise_if (is_empty s) 400 "Workspace slug is invalid"
        >> (raise_if (ltb 128 (length s)) 400 "Workspace slug is too long" >> ok s))
      ≡ ok s
unfolding is_slug_after
slug-accepted [] good short = cc
slug-accepted (c ∷ cs) good short = ground arith

-- What a slug normalizes to is a fixed point: normalized again it is accepted unchanged, if
-- lowering leaves slugs alone.
normalize_slug-idempotent :
    (lower : Text → Text) (raw : Option Text) {slug : Text}
    → ((t : Text) → is_slug t ≡ true → lower t ≡ t)
    → normalize_slug lower raw ≡ ok slug
    → normalize_slug lower (some slug) ≡ ok slug
unfolding normalize_slug
normalize_slug-idempotent lower raw {slug} lowers h =
    let (good, short) = normalize_slug-is_slug lower raw h in
    rw
      (
        strip_start-slug slug true good,
        strip_end-slug true slug good,
        lowers slug good,
        sub_runs-slug false slug (is_slug-weaken slug good),
        strip_dashes_start-slug slug good,
        strip_dashes_end-slug true slug good,
      )
      (slug-accepted slug good short)
