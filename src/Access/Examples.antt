-- ===== src/Access/Examples.antt =====
-- The theorems about access at concrete principals, overrides and resources, and test runs.
use mathlib.Core.Bool.{false≢true}
use fast_page.Prelude.{
  String, ◌≡◌, refl, subst, Bool, true, false, Option, none, some, [], ◌∷◌, arith, str_eq, eq_iff,
  if◌then◌else◌,
}
use fast_page.Prelude.Dict.{Dict, lookup, insert, get_or}
use fast_page.Json.{Json, Fields, end, field, get_field}
use fast_page.Http.{Result, ok, raise}
use fast_page.Access.Override.{mapping, json_text, validate_override, dump_override}
use fast_page.Access.Resolve.{resolve_capabilities}
use fast_page.Access.Principal.{Principal}
use fast_page.Access.Resources.{
  KnowledgeBase, ChatSkill, assert_can_read_knowledge_base, assert_can_edit_knowledge_base,
  assert_can_read_skill, assert_can_edit_skill,
}
use fast_page.Access.FounderOnly.{resolve-founder_only}
use fast_page.Access.RoundTrip.{IsCodec, resolve-dump_override}
use fast_page.Access.Visibility.{other_workspace_hidden}

abbrev no_json : String → Option Json
no_json t = none

abbrev grab : Fields
grab = field "can_transfer_founder" (Json.bool true) (field "can_run_skills" (Json.bool false) end)

resolve-founder_only_example :
    get_or (resolve_capabilities no_json "admin" (mapping grab)) "can_transfer_founder" false
    ≡ false
resolve-founder_only_example =
    resolve-founder_only no_json "admin" (mapping grab) "can_transfer_founder"
      (λ p. false≢true ((eq_iff "admin" "founder").1 p)) refl

abbrev limits : Fields
limits = field "can_manage_members" (Json.bool false) end

abbrev limits_text : String
limits_text = "{\"can_manage_members\": false}"

abbrev loads : String → Option Json
loads t = if str_eq t limits_text then some (Json.obj limits) else none

abbrev dumps : Dict Bool → String
dumps d = limits_text

limits-IsCodec : IsCodec loads dumps (("can_manage_members", false) ∷ [])
unfolding get_field lookup
limits-IsCodec = record {
  payload = limits;
  loads-dumps = refl;
  entries = λ k. ground arith;
  nonempty = refl;
}

ok-injective : (a b : Dict Bool) → ◌≡◌ {A = Result (Dict Bool)} (ok a) (ok b) → a ≡ b
ok-injective a b e = cc

limits_accepted :
    (d : Dict Bool)
    → validate_override (some (Json.obj limits)) "admin" ≡ ok d
    → IsCodec loads dumps d
unfolding validate_override insert
limits_accepted d e =
    subst (IsCodec loads dumps) (ok-injective (("can_manage_members", false) ∷ []) d e)
      limits-IsCodec

resolve-dump_override_example :
    get_or (resolve_capabilities loads "admin" (json_text limits_text)) "can_manage_members" false
    ≡ false
unfolding dump_override get_field
resolve-dump_override_example =
    resolve-dump_override loads dumps "admin" limits "can_manage_members" limits_accepted (refl, tt)
      refl

-- A founder-only key for an admin is refused, and so is a key that is not known.
refused :
    (validate_override (some (Json.obj grab)) "admin"
      ≡ raise 400 "permissions_override.can_transfer_founder is founder-only")
    × (validate_override (some (Json.obj (field "b" Json.null (field "a" Json.null end)))) "admin"
        ≡ raise 400 "Unknown workspace capability override keys: a, b")
unfolding validate_override
refused = (refl, refl)

abbrev guest : Principal
guest = record {
  kind = "session";
  tenant_id = 1;
  workspace_id = 10;
  tenant_membership_role = "member";
  tenant_membership_status = "active";
  workspace_membership_role = "guest";
  workspace_membership_status = "active";
  workspace_permissions = ("can_view_workspace", true) ∷ [];
  user = record {
    id = 7;
    tenant_id = 1;
    username = b'g' ∷ [];
    email = none;
    password_hash = [];
    can_create_workspace = false;
    is_platform_admin = false;
    must_change_password = false;
    is_active = true;
    created_at = 90;
    updated_at = 90;
  };
  api_key = none;
  workspace_membership_id = some 70;
}

abbrev shared_base : KnowledgeBase
shared_base = record { workspace_id = 10; created_by = 8; visibility = some "workspace_edit" }

abbrev secret_base : KnowledgeBase
secret_base = record { workspace_id = 10; created_by = 8; visibility = some "secret" }

abbrev foreign_base : KnowledgeBase
foreign_base = record { workspace_id = 11; created_by = 7; visibility = some "workspace_read" }

abbrev own_skill : ChatSkill
own_skill = record {
  id = 3;
  tenant_id = 1;
  workspace_id = some 10;
  owner_user_id = 7;
  visibility = none;
}

abbrev foreign_skill : ChatSkill
foreign_skill = record {
  id = 4;
  tenant_id = 1;
  workspace_id = none;
  owner_user_id = 7;
  visibility = none;
}

other_workspace_hidden_example :
    (assert_can_read_knowledge_base guest foreign_base ≡ raise 404 "Knowledge base not found")
    × (assert_can_edit_knowledge_base guest foreign_base ≡ raise 404 "Knowledge base not found")
    × (assert_can_read_skill guest foreign_skill ≡ raise 404 "Skill not found")
    × (assert_can_edit_skill guest foreign_skill ≡ raise 404 "Skill not found")
other_workspace_hidden_example =
    other_workspace_hidden guest foreign_base foreign_skill (omega arith) (ground arith)
