-- ===== src/Access/Principal.antt =====
-- app/core/principal.py, and `require_workspace_capability`.
use Prim.Native.String.{◌++◌ as str_append}
use fast_page.Prelude.{ℕ, String, Bool, false, Option, none, some, str_eq, if◌then◌else◌}
use fast_page.Prelude.Dict.{Dict, get_or}
use fast_page.Http.{Result, ok, raise}
use fast_page.Chars.{Text}

-- A row of app/models/user.py
pub record User : Type 0 where
  pub id : ℕ
  pub tenant_id : ℕ
  pub username : Text
  pub email : Option Text
  pub password_hash : Text
  pub can_create_workspace : Bool
  pub is_platform_admin : Bool
  pub must_change_password : Bool
  pub is_active : Bool
  pub created_at : ℕ
  pub updated_at : ℕ

pub record Principal : Type 0 where
  pub kind : String
  pub tenant_id : ℕ
  pub workspace_id : ℕ
  pub tenant_membership_role : String
  pub tenant_membership_status : String
  pub workspace_membership_role : String
  pub workspace_membership_status : String
  pub workspace_permissions : Dict Bool
  pub user : User
  pub api_key : Option ℕ
  pub workspace_membership_id : Option ℕ

abbrev pub user_id : Principal → ℕ
user_id p = p.user.id

abbrev pub has_capability : Principal → String → Bool
has_capability p key = get_or p.workspace_permissions key false

-- `detail or f"…"`: an empty text counts as none.
abbrev or_default : Option String → String → String
or_default none text = text
or_default (some t) text = if str_eq t "" then text else t

unfoldable pub require_capability : Principal → String → Option String → Result (Unit {0})
require_capability p key detail =
    if has_capability p key
    then ok tt
    else raise 403 (or_default detail (str_append "Missing workspace capability: " key))
