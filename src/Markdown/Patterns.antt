-- ===== src/Markdown/Patterns.antt =====
-- The regular expressions of pageindex/page_index_md.py, as functions on texts.
use fast_page.Prelude.{
  ℕ, zero, suc, Bool, false, ◌&&◌, Option, none, some, [], ◌∷◌, ◌==◌, if◌then◌else◌, drop,
}
use fast_page.Chars.{Text, is_space, strip_start}

abbrev hash : ℕ
hash = b'#'

-- The match of "```" at the start
abbrev pub starts_fence : Text → Bool
starts_fence (a ∷ b ∷ c ∷ t) = a == b'`' && b == b'`' && c == b'`'
starts_fence _ = false

-- The number of characters that `#{0,limit}` takes
unfoldable pub hash_run : ℕ → Text → ℕ
hash_run zero t = 0
hash_run (suc limit) [] = 0
hash_run (suc limit) (c ∷ cs) = let run = suc (hash_run limit cs) in if c == hash then run else 0

-- The match of `^(#{1,6})`: its length
unfoldable pub match_hashes : Text → Option ℕ
unfolding hash_run
match_hashes line = let run = hash_run 6 line in if run == 0 then none else some run

abbrev last_char : Text → Option Text
last_char [] = none
last_char (c ∷ []) = some (c ∷ [])
last_char (c ∷ d ∷ cs) = last_char (d ∷ cs)

abbrev or_last : Text → Text → Option Text
or_last cs [] = last_char cs
or_last cs (d ∷ ds) = some (d ∷ ds)

-- `\s+(.+)$` behind the hashes: what the group takes. Where only spaces follow, `\s+` gives the
-- last one back, if it keeps one.
unfoldable pub match_title : Text → Option Text
match_title [] = none
match_title (c ∷ cs) = if is_space c then or_last cs (strip_start cs) else none

-- `^(#{1,6})\s+(.+)$`: group 2. Fewer hashes than there are (at most six) leave a hash in front,
-- which is no space.
unfoldable pub match_header : Text → Option Text
unfolding match_hashes match_title
match_header line = elim (match_hashes line) [
  | none ↦ none
  | some run ↦ match_title (drop run line)
]
