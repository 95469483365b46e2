-- ===== src/Retrieve/Numbers.antt =====
-- Python's `int(text)` for ASCII digits, as `_parse_pages` calls it.
use fast_page.Prelude.{
  ℕ, ◌+◌, ◌-◌, ◌*◌, Bool, true, not, ◌&&◌, ◌||◌, Option, none, some, [], ◌∷◌, leb, ◌==◌,
  if◌then◌else◌,
}
use fast_page.Prelude.Int.{ℤ, pos, sub_ℕ}
use fast_page.Chars.{Text, strip}

abbrev pub is_digit : ℕ → Bool
is_digit c = leb b'0' c && leb c b'9'

-- The digits read so far are `n`; the flag says that a digit must come. A single underscore may
-- stand between digits.
unfoldable pub read_digits : (n : ℕ) → (wants_digit : Bool) → Text → Option ℕ
read_digits n wants [] = if wants then none else some n
read_digits n wants (c ∷ cs) =
    let rest = read_digits (if is_digit c then n * 10 + (c - b'0') else n) (not (is_digit c)) cs in
    if is_digit c || c == b'_' && not wants then rest else none

abbrev map_int : (ℕ → ℤ) → Option ℕ → Option ℤ
map_int f none = none
map_int f (some n) = some (f n)

unfoldable pub read_signed : Text → Option ℤ
unfolding read_digits
read_signed [] = none
read_signed (c ∷ cs) =
    if c == b'-'
    then map_int (sub_ℕ 0) (read_digits 0 true cs)
    else if c == b'+'
    then map_int pos (read_digits 0 true cs)
    else map_int pos (read_digits 0 true (c ∷ cs))

-- `int(text)`; `none` is a ValueError.
unfoldable pub parse_int : Text → Option ℤ
unfolding read_signed strip
parse_int t = read_signed (strip t)
