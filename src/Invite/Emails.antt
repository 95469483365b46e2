-- ===== src/Invite/Emails.antt =====
-- `normalize_email` and `_mask_email` of app/services/workspace_invite_service.py.
use fast_page.Prelude.{ℕ, Option, none, some, [], ◌∷◌, ◌++◌, if◌then◌else◌}
use fast_page.Chars.{Text, codes, is_empty, strip, split_once}

abbrev or_none : Text → Option Text
or_none t = if is_empty t then none else some t

unfoldable pub normalize_email : (lower : Text → Text) → Option Text → Option Text
unfolding strip
normalize_email lower none = none
normalize_email lower (some raw_email) =
    if is_empty raw_email then none else or_none (lower (strip raw_email))

abbrev pub at_sign : ℕ
at_sign = b'@'

abbrev masked : Text → Option Text → Text
masked local none = codes "***"
masked [] (some domain) = codes "*@" ++ domain
masked (c ∷ []) (some domain) = codes "*@" ++ domain
masked (c ∷ d ∷ cs) (some domain) = c ∷ (codes "***@" ++ domain)

unfoldable pub mask_email : Text → Text
unfolding split_once
mask_email email = let (local, domain) = split_once at_sign email in masked local domain
