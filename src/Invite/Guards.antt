-- ===== src/Invite/Guards.antt =====
-- The internal guards of app/services/workspace_invite_service.py.
use Prim.Native.String.{◌++◌ as str_append}
use fast_page.Prelude.{ℕ, String, not, ◌&&◌, ◌||◌, List, [], ◌∷◌, ◌==◌, str_eq, if◌then◌else◌}
use fast_page.Http.{Result, ok, raise, raise_if, ◌>>=◌, ◌>>◌}
use fast_page.Access.Roles.{is_in}
use fast_page.Access.Principal.{Principal, has_capability}
use fast_page.Workspace.Models.{Workspace, Db}
use fast_page.Workspace.Queries.{get_workspace_or_404, is_workspace_archived}
use fast_page.Workspace.Guards.{is_platform_admin}
use fast_page.Invite.Models.{WorkspaceInvite}

abbrev pub invite_roles : List String
invite_roles = "admin" ∷ "member" ∷ "guest" ∷ []

abbrev pub admin_invite_roles : List String
admin_invite_roles = "member" ∷ "guest" ∷ []

unfoldable pub get_workspace_for_invites : Db → Principal → ℕ → Result Workspace
unfolding is_workspace_archived is_platform_admin
get_workspace_for_invites db p workspace_id = do
  w ← get_workspace_or_404 db workspace_id
  raise_if (not (w.id == p.workspace_id) && not (is_platform_admin p)) 404 "Workspace not found"
  raise_if (is_workspace_archived w || not (str_eq w.status "active")) 409 "Workspace is archived"
  ok w

unfoldable pub require_invite_management : Principal → Result (Unit {0})
unfolding is_platform_admin
require_invite_management p =
    if is_platform_admin p
    then ok tt
    else if not (is_in p.workspace_membership_role ("founder" ∷ "admin" ∷ []))
    then raise 403 "Invite management is forbidden"
    else if not (has_capability p "can_manage_invites")
    then raise 403 "Missing workspace capability: can_manage_invites"
    else ok tt

unfoldable pub assert_invite_role_allowed : Principal → String → Result (Unit {0})
unfolding is_platform_admin
assert_invite_role_allowed p role =
    if str_eq role "founder"
    then raise 403 "Founder role cannot be assigned via invite"
    else if not (is_in role invite_roles)
    then raise 400 (str_append "Invalid invite role: " role)
    else if is_platform_admin p
    then ok tt
    else if str_eq p.workspace_membership_role "founder"
    then ok tt
    else if str_eq p.workspace_membership_role "admin" && not (is_in role admin_invite_roles)
    then raise 403 "Admins may only invite member or guest"
    else ok tt

unfoldable pub assert_revoke_role_allowed : Principal → WorkspaceInvite → Result (Unit {0})
unfolding is_platform_admin
assert_revoke_role_allowed p i =
    if is_platform_admin p
    then ok tt
    else if str_eq p.workspace_membership_role "founder"
    then ok tt
    else if str_eq p.workspace_membership_role "admin" && not (is_in i.role admin_invite_roles)
    then raise 403 "Admins may only revoke member or guest invites"
    else ok tt

-- Of an invite that is not expired: it must be pending.
unfoldable pub check_pending : (status : String) → Result (Unit {0})
check_pending status =
    if str_eq status "revoked"
    then raise 409 "Invite has been revoked"
    else if str_eq status "accepted"
    then raise 409 "Invite has already been accepted"
    else if not (str_eq status "pending")
    then raise 409 (str_append (str_append "Invite is not pending (status=" status) ")")
    else ok tt
