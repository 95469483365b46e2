-- ===== src/Workspace/Models.antt =====
-- The rows of app/models/workspace.py, workspace_membership.py and tenant_membership.py, and the
-- tables that the services read and write.
use fast_page.Prelude.{ℕ, String, Bool, Option, List}
use fast_page.Chars.{Text}
use fast_page.Access.Principal.{User}

pub record Workspace : Type 0 where
  pub id : ℕ
  pub tenant_id : ℕ
  pub name : Text
  pub slug : Text
  pub status : String
  pub is_default : Bool
  pub created_by : Option ℕ
  pub default_provider_id : Option ℕ
  pub archived_at : Option ℕ
  pub archived_by : Option ℕ
  pub created_at : ℕ
  pub updated_at : ℕ

pub record WorkspaceMembership : Type 0 where
  pub id : ℕ
  pub workspace_id : ℕ
  pub user_id : ℕ
  pub role : String
  pub status : String
  pub permissions_override_json : String
  pub created_by : Option ℕ
  pub created_at : ℕ
  pub updated_at : ℕ

pub record TenantMembership : Type 0 where
  pub id : ℕ
  pub tenant_id : ℕ
  pub user_id : ℕ
  pub role : String
  pub status : String
  pub created_by : Option ℕ
  pub created_at : ℕ
  pub updated_at : ℕ

pub record Db : Type 0 where
  pub workspaces : List Workspace
  pub memberships : List WorkspaceMembership
  pub tenant_memberships : List TenantMembership
  pub users : List User
