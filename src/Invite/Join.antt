-- ===== src/Invite/Join.antt =====
-- What accepting and claiming an invite share: the invite's state, the memberships that it gives,
-- and the answer.
use fast_page.Prelude.{
  ℕ, String, Bool, not, ◌&&◌, ◌||◌, Option, none, some, [], ◌∷◌, ◌++◌, ◌==◌, keep, str_eq,
  if◌then◌else◌,
}
use fast_page.Prelude.Dict.{Dict}
use fast_page.Json.{Json}
use fast_page.Http.{Result, ok, raise, raise_if, ◌>>=◌, ◌>>◌}
use fast_page.Access.Override.{json_text, parse_override}
use fast_page.Access.Principal.{User}
use fast_page.Auth.{AuthContext, Claims, create_access_token}
use fast_page.Workspace.Models.{Workspace, WorkspaceMembership, TenantMembership, Db}
use fast_page.Workspace.Queries.{first, get_workspace, is_workspace_archived}
use fast_page.Workspace.Guards.{or_404}
use fast_page.Workspace.Members.{reactivated, update_membership}
use fast_page.Invite.Models.{
  WorkspaceInvite, Store, StoreRequest, checked, write, set_invite, get_invite, effective_status,
  expired,
}
use fast_page.Invite.Guards.{check_pending}
use fast_page.Invite.Manage.{InviteOut, serialize_invite}

-- The rows of the membership table for a workspace and a user
abbrev pub find_membership : Db → (workspace_id user_id : ℕ) → Option WorkspaceMembership
find_membership db workspace_id user_id =
    first (keep (λ m. m.workspace_id == workspace_id && m.user_id == user_id) db.memberships)

abbrev pub find_tenant_membership : Db → (tenant_id user_id : ℕ) → Option TenantMembership
find_tenant_membership db tenant_id user_id =
    first (keep (λ m. m.tenant_id == tenant_id && m.user_id == user_id) db.tenant_memberships)

abbrev pub tenant_membership_id : TenantMembership → ℕ
tenant_membership_id m = m.id

abbrev pub new_tenant_membership : (id tenant_id user_id now : ℕ) → TenantMembership
new_tenant_membership id tenant_id user_id now = record {
  id = id;
  tenant_id = tenant_id;
  user_id = user_id;
  role = "member";
  status = "active";
  created_by = none;
  created_at = now;
  updated_at = now;
}

abbrev pub restored : ℕ → TenantMembership → TenantMembership
restored now m = record m { status = "active"; updated_at = now }

unfoldable pub ensure_found : Db → Option TenantMembership → (tenant_id user_id now new_id : ℕ) → Db
ensure_found db none tenant_id user_id now new_id = record db {
  tenant_memberships =
      db.tenant_memberships ++ (new_tenant_membership new_id tenant_id user_id now ∷ []);
}
ensure_found db (some m) tenant_id user_id now new_id =
    if not (str_eq m.status "active")
    then record db {
      tenant_memberships = write tenant_membership_id m.id (restored now) db.tenant_memberships;
    }
    else db

unfoldable pub ensure_tenant_membership : Db → (tenant_id user_id now new_id : ℕ) → Db
unfolding ensure_found
ensure_tenant_membership db tenant_id user_id now new_id =
    ensure_found db (find_tenant_membership db tenant_id user_id) tenant_id user_id now new_id

abbrev pub invited_membership : (id user_id : ℕ) → WorkspaceInvite → (now : ℕ) → WorkspaceMembership
invited_membership id user_id i now = record {
  id = id;
  workspace_id = i.workspace_id;
  user_id = user_id;
  role = i.role;
  status = "active";
  permissions_override_json = i.permissions_override_json;
  created_by = none;
  created_at = now;
  updated_at = now;
}

abbrev pub refuse_founder : WorkspaceInvite → Result (Unit {0})
refuse_founder i =
    raise_if (str_eq i.role "founder") 403 "Founder role cannot be granted via invite"

-- The invite's own workspace is the one that is given.
unfoldable pub upsert_membership :
    Db → Option WorkspaceMembership → WorkspaceInvite → (user_id now new_id : ℕ) → Result Db
upsert_membership db (some m) i user_id now new_id = do
  raise_if (str_eq m.status "active") 409 "User already has an active membership in this workspace"
  refuse_founder i
  ok (update_membership m.id (reactivated i.role i.permissions_override_json now) db)
upsert_membership db none i user_id now new_id = do
  refuse_founder i
  ok (record db { memberships = db.memberships ++ (invited_membership new_id user_id i now ∷ []) })

-- `db.get(Workspace, invite.workspace_id)`, which must be open
unfoldable pub invite_workspace : Db → WorkspaceInvite → (closed : String) → Result Workspace
unfolding is_workspace_archived
invite_workspace db i closed = do
  w ← or_404 (get_workspace db i.workspace_id) "Workspace not found"
  raise_if (is_workspace_archived w || not (str_eq w.status "active")) 409 closed
  ok w

abbrev pub accepted : (user_id now : ℕ) → WorkspaceInvite → WorkspaceInvite
accepted user_id now i = record i {
  status = "accepted";
  accepted_user_id = some user_id;
  accepted_at = some now;
  updated_at = now;
}

abbrev pub row_id : User → ℕ
row_id u = u.id

-- The user's `tenant_id` follows the invite.
abbrev pub aligned : (tenant_id now : ℕ) → User → User
aligned tenant_id now u =
    if u.tenant_id == tenant_id then u else record u { tenant_id = tenant_id; updated_at = now }

-- Loads an invite and lets a handler go on where it is pending. One that has expired is written so.
unfoldable pub with_pending :
    {A : Type 0} → Store → ℕ → (now : ℕ) → (WorkspaceInvite → StoreRequest A) → StoreRequest A
unfolding get_invite effective_status check_pending
with_pending s invite_id now next =
    checked s (or_404 (get_invite s invite_id) "Invite not found") λ i.
      if str_eq (effective_status i now) "expired"
      then (raise 409 "Invite has expired", set_invite i.id (expired now) s)
      else checked s (check_pending (effective_status i now)) λ _. next i

-- The tables after the memberships, the invite and the user are written
abbrev pub joined : Store → Db → WorkspaceInvite → User → (tenant_id now : ℕ) → Store
joined s db i user tenant_id now =
    set_invite i.id (accepted user.id now) (record s {
      db = record db { users = write row_id user.id (aligned tenant_id now) db.users };
    })

-- The answer, which hands over a session in the invite's workspace. Rows are shown whole.
pub record Handoff : Type 0 where
  pub invite : InviteOut
  pub access_token : String
  pub user : User
  pub workspace : Workspace
  pub tenant_membership : TenantMembership
  pub workspace_membership : WorkspaceMembership
  pub permissions_override : Dict Bool
  pub permissions : Dict Bool

unfoldable pub handoff :
    (loads : String → Option Json)
    → (encode : Claims → String) → WorkspaceInvite
    → AuthContext
    → (jti : String) → (now token_at : ℕ) → Handoff
unfolding serialize_invite create_access_token
handoff loads encode i c jti now token_at = record {
  invite = serialize_invite loads i now;
  access_token = create_access_token encode c jti token_at;
  user = c.user;
  workspace = c.workspace;
  tenant_membership = c.tenant_membership;
  workspace_membership = c.workspace_membership;
  permissions_override =
      parse_override loads (json_text c.workspace_membership.permissions_override_json);
  permissions = c.workspace_permissions;
}
