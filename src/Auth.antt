-- ===== src/Auth.antt =====
-- app/core/auth.py: who a request acts for, and what an access token says.
use fast_page.Prelude.{ℕ, ◌+◌, ◌*◌, String, Bool, Option, some}
use fast_page.Prelude.Dict.{Dict}
use fast_page.Json.{Json}
use fast_page.Chars.{Text}
use fast_page.Http.{Result, ok, ◌>>=◌}
use fast_page.Access.Override.{json_text}
use fast_page.Access.Resolve.{resolve_capabilities}
use fast_page.Access.Principal.{User}
use fast_page.Workspace.Models.{Workspace, WorkspaceMembership, TenantMembership, Db}
use fast_page.Workspace.Resolution.{resolve_auth_tenant, resolve_membership_context}

pub record AuthContext : Type 0 where
  pub user : User
  pub tenant_id : ℕ
  pub workspace : Workspace
  pub tenant_membership : TenantMembership
  pub workspace_membership : WorkspaceMembership
  pub workspace_permissions : Dict Bool

-- A user's `tenant_id` is never empty.
unfoldable pub resolve_auth_context :
    (loads : String → Option Json)
    → Db
    → User
    → (tenant_id workspace_id : Option ℕ) → Result AuthContext
unfolding resolve_auth_tenant resolve_membership_context resolve_capabilities
resolve_auth_context loads db user tenant_id workspace_id = do
  t ← resolve_auth_tenant db user.id tenant_id workspace_id (some user.tenant_id)
  c ← resolve_membership_context db user.id t.tenant_id workspace_id
  ok (record {
    user = user;
    tenant_id = t.tenant_id;
    workspace = c.workspace;
    tenant_membership = t;
    workspace_membership = c.membership;
    workspace_permissions =
        resolve_capabilities loads c.membership.role
          (json_text c.membership.permissions_override_json);
  })

pub record Claims : Type 0 where
  pub sub : ℕ
  pub username : Text
  pub tenant_id : ℕ
  pub workspace_id : ℕ
  pub membership_role : String
  pub tenant_membership_role : String
  pub workspace_membership_role : String
  pub workspace_membership_id : ℕ
  pub jti : String
  pub iat : ℕ
  pub exp : ℕ

-- What `create_access_token` signs: times count seconds.
unfoldable pub claims_of : AuthContext → (jti : String) → (now expires_minutes : ℕ) → Claims
claims_of c jti now expires_minutes = record {
  sub = c.user.id;
  username = c.user.username;
  tenant_id = c.tenant_id;
  workspace_id = c.workspace.id;
  membership_role = c.workspace_membership.role;
  tenant_membership_role = c.tenant_membership.role;
  workspace_membership_role = c.workspace_membership.role;
  workspace_membership_id = c.workspace_membership.id;
  jti = jti;
  iat = now;
  exp = now + expires_minutes * 60;
}

unfoldable pub create_access_token :
    (encode : Claims → String) → AuthContext → (jti : String) → (now : ℕ) → String
unfolding claims_of
create_access_token encode c jti now = encode (claims_of c jti now 720)
