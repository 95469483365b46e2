-- ===== src/Access/FounderOnly.antt =====
-- Founder-only capabilities, through roles and overrides.
use fast_page.Prelude.{
  String, ◌≡◌, ◌≢◌, Bool, true, false, ◌⊎◌, inl, inr, Option, [], ◌∷◌, arith, eq_iff, if◌then◌else◌,
}
use fast_page.Prelude.Dict.{Dict, insert, get_or, lookup-insert}
use fast_page.Json.{Json}
use fast_page.Access.Roles.{role_capabilities, founder_only_keys, is_in}
use fast_page.Access.Override.{Source, parse_override}
use fast_page.Access.Resolve.{suppressed, apply_overrides, resolve_capabilities}

pub founder_only-cases :
    (key : String)
    → is_in key founder_only_keys ≡ true
    → (key ≡ "can_transfer_founder") ⊎ (key ≡ "can_archive_workspace")
founder_only-cases key h =
    ground (arith, eq_iff "can_transfer_founder" key, eq_iff "can_archive_workspace" key)

transfer-role_capabilities :
    (role : String)
    → role ≢ "founder"
    → get_or (role_capabilities role) "can_transfer_founder" false ≡ false
unfolding role_capabilities
transfer-role_capabilities role h = ground (arith, eq_iff "founder" role)

archive-role_capabilities :
    (role : String)
    → role ≢ "founder"
    → get_or (role_capabilities role) "can_archive_workspace" false ≡ false
unfolding role_capabilities
archive-role_capabilities role h = ground (arith, eq_iff "founder" role)

override_step-founder_only :
    (key j : String) (v : Bool) (capabilities : Dict Bool)
    → is_in key founder_only_keys ≡ true
    → get_or capabilities key false ≡ false
    → get_or
        (if suppressed j v capabilities then capabilities else insert j v capabilities)
        key
        false
      ≡ false
override_step-founder_only key j v capabilities only h =
    ground (arith, eq_iff j key, lookup-insert j key v capabilities)

pub apply_overrides-founder_only :
    (key : String) (overrides capabilities : Dict Bool)
    → is_in key founder_only_keys ≡ true
    → get_or capabilities key false ≡ false
    → get_or (apply_overrides overrides capabilities) key false ≡ false
unfolding apply_overrides
apply_overrides-founder_only key [] capabilities only h = h
apply_overrides-founder_only key ((j, v) ∷ overrides) capabilities only h =
    apply_overrides-founder_only key overrides
      (if suppressed j v capabilities then capabilities else insert j v capabilities) only
      (override_step-founder_only key j v capabilities only h)

-- Whatever override is stored, and for any role text but "founder", the resolved capabilities
-- hold neither the transfer of the founder nor the archiving of the workspace.
pub resolve-founder_only :
    (loads : String → Option Json) (role : String) (source : Source) (key : String)
    → role ≢ "founder"
    → is_in key founder_only_keys ≡ true
    → get_or (resolve_capabilities loads role source) key false ≡ false
unfolding resolve_capabilities
resolve-founder_only loads role source key h only =
    apply_overrides-founder_only key (parse_override loads source) (role_capabilities role) only
      (elim (founder_only-cases key only) [
        | inl e ↦ rw e (transfer-role_capabilities role h)
        | inr e ↦ rw e (archive-role_capabilities role h)
      ])
