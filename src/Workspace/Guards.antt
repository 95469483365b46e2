-- ===== src/Workspace/Guards.antt =====
-- The checks of app/services/workspace_admin_service.py: who may do what to whom.
use fast_page.Prelude.{
  ℕ, String, Bool, not, ◌&&◌, ◌||◌, Option, none, some, List, [], ◌∷◌, ◌==◌, keep, str_eq,
  if◌then◌else◌,
}
use fast_page.Http.{Result, ok, err, raise, raise_if, ◌>>=◌, ◌>>◌}
use fast_page.Access.Roles.{is_in}
use fast_page.Access.Principal.{Principal, User, has_capability}
use fast_page.Workspace.Models.{Workspace, WorkspaceMembership, Db}
use fast_page.Workspace.Queries.{first, is_workspace_archived, get_workspace_or_404}

abbrev pub membership_roles : List String
membership_roles = "founder" ∷ "admin" ∷ "member" ∷ "guest" ∷ []

abbrev pub membership_statuses : List String
membership_statuses = "active" ∷ "disabled" ∷ "removed" ∷ []

abbrev pub admin_manageable_roles : List String
admin_manageable_roles = "member" ∷ "guest" ∷ []

-- An answer and the tables that are committed. What raises before a commit leaves the tables.
abbrev pub Request : Type 0 → Type 0
Request A = Result A × Db

abbrev pub guarded : {A B : Type 0} → Db → Result B → (B → Request A) → Request A
guarded db (ok b) f = f b
guarded db (err e) f = (err e, db)

unfoldable pub is_platform_admin : Principal → Bool
is_platform_admin p = str_eq p.kind "session" && p.user.is_platform_admin

unfoldable pub get_workspace_for_admin : Db → Principal → ℕ → Result Workspace
get_workspace_for_admin db p workspace_id = do
  w ← get_workspace_or_404 db workspace_id
  raise_if (not (w.id == p.workspace_id) && not (is_platform_admin p)) 404 "Workspace not found"
  raise_if (not (str_eq w.status "active") || is_workspace_archived w) 409 "Workspace is archived"
  ok w

unfoldable pub require_member_management : Principal → Result (Unit {0})
unfolding is_platform_admin
require_member_management p =
    if is_platform_admin p
    then ok tt
    else if not (is_in p.workspace_membership_role ("founder" ∷ "admin" ∷ []))
    then raise 403 "Workspace member management is forbidden"
    else if not (has_capability p "can_manage_members")
    then raise 403 "Missing workspace capability: can_manage_members"
    else ok tt

unfoldable pub require_workspace_create : Principal → Result (Unit {0})
require_workspace_create p =
    if not (str_eq p.kind "session")
    then raise 403 "Workspace creation requires a user session"
    else if p.user.is_platform_admin
    then ok tt
    else if not p.user.can_create_workspace
    then raise 403 "Workspace creation is not allowed for this user"
    else ok tt

unfoldable pub require_founder_transfer : Principal → Result (Unit {0})
unfolding is_platform_admin
require_founder_transfer p =
    if is_platform_admin p
    then ok tt
    else if not (str_eq p.workspace_membership_role "founder")
    then raise 403 "Founder transfer is forbidden"
    else if not (has_capability p "can_transfer_founder")
    then raise 403 "Missing workspace capability: can_transfer_founder"
    else ok tt

unfoldable pub require_archive : Principal → Result (Unit {0})
unfolding is_platform_admin
require_archive p =
    if is_platform_admin p
    then ok tt
    else if not (str_eq p.workspace_membership_role "founder")
    then raise 403 "Workspace archive is forbidden"
    else if not (has_capability p "can_archive_workspace")
    then raise 403 "Missing workspace capability: can_archive_workspace"
    else ok tt

unfoldable pub assert_assignable_role : Principal → String → Result (Unit {0})
unfolding is_platform_admin
assert_assignable_role p role =
    if str_eq role "founder"
    then raise 403 "Founder role must be transferred via founder transfer"
    else if is_platform_admin p
    then ok tt
    else if str_eq p.workspace_membership_role "founder"
    then ok tt
    else if not (str_eq p.workspace_membership_role "admin")
        || not (is_in role admin_manageable_roles)
    then raise 403 "Admins can create only member or guest memberships"
    else ok tt

unfoldable pub assert_manageable_target :
    Principal → WorkspaceMembership → String → Result (Unit {0})
unfolding is_platform_admin
assert_manageable_target p m desired_role =
    if str_eq m.role "founder" || str_eq desired_role "founder"
    then raise 403 "Founder membership must be managed via founder transfer"
    else if is_platform_admin p
    then ok tt
    else if str_eq p.workspace_membership_role "founder"
    then ok tt
    else if not (str_eq p.workspace_membership_role "admin")
    then raise 403 "Workspace member management is forbidden"
    else if not (is_in m.role admin_manageable_roles)
    then raise 403 "Admins can manage only member or guest memberships"
    else if not (is_in desired_role admin_manageable_roles)
    then raise 403 "Admins cannot assign admin or founder role"
    else ok tt

-- `None`, which a request may spell out, is no role and no status.
abbrev one_of : List String → String → Option String → Result String
one_of allowed detail none = raise 400 detail
one_of allowed detail (some v) = if is_in v allowed then ok v else raise 400 detail

unfoldable pub validate_membership_role : Option String → Result String
validate_membership_role = one_of membership_roles "Invalid workspace membership role"

unfoldable pub validate_membership_status : Option String → Result String
validate_membership_status = one_of membership_statuses "Invalid workspace membership status"

-- `db.get(User, id)`
unfoldable pub get_user : Db → ℕ → Option User
get_user db id = first (keep (λ u. u.id == id) db.users)

abbrev pub or_404 {ℓ} : {A : Type ℓ} → Option A → String → Result A
or_404 none detail = raise 404 detail
or_404 (some a) detail = ok a

unfoldable pub get_membership_user : Db → WorkspaceMembership → Result User
unfolding get_user
get_membership_user db m = or_404 (get_user db m.user_id) "Workspace membership user not found"
