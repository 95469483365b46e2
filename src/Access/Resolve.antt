-- ===== src/Access/Resolve.antt =====
-- `resolve_workspace_capabilities`: the role's capabilities under a stored override.
use fast_page.Prelude.{String, Bool, false, not, ◌&&◌, Option, [], ◌∷◌, if◌then◌else◌}
use fast_page.Prelude.Dict.{Dict, insert, get_or}
use fast_page.Json.{Json}
use fast_page.Access.Roles.{role_capabilities, founder_only_keys, is_in}
use fast_page.Access.Override.{Source, parse_override}

-- An override may take a founder-only capability away, and never gives it.
abbrev pub suppressed : String → Bool → Dict Bool → Bool
suppressed key value capabilities =
    is_in key founder_only_keys && value && not (get_or capabilities key false)

unfoldable pub apply_overrides : Dict Bool → Dict Bool → Dict Bool
apply_overrides [] capabilities = capabilities
apply_overrides ((key, value) ∷ overrides) capabilities =
    apply_overrides overrides
      (if suppressed key value capabilities then capabilities else insert key value capabilities)

unfoldable pub resolve_capabilities : (loads : String → Option Json) → String → Source → Dict Bool
unfolding apply_overrides parse_override role_capabilities
resolve_capabilities loads role source =
    apply_overrides (parse_override loads source) (role_capabilities role)
