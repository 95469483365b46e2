-- ===== src/Workspace/Members.antt =====
-- Members of a workspace: `create_workspace_member`, `update_workspace_member`,
-- `remove_workspace_member` and `list_workspace_members`.
use fast_page.Prelude.{
  ℕ, String, Bool, ◌&&◌, Option, none, some, List, [], ◌∷◌, ◌++◌, ◌==◌, str_eq, if◌then◌else◌,
}
use fast_page.Prelude.Dict.{Dict}
use fast_page.Json.{Json}
use fast_page.Chars.{Text}
use fast_page.Http.{Result, ok, raise_if, ◌>>=◌, ◌>>◌}
use fast_page.Access.Override.{json_text, parse_override, dump_override}
use fast_page.Access.Principal.{Principal, User, user_id}
use fast_page.Workspace.Models.{Workspace, WorkspaceMembership, Db}
use fast_page.Workspace.Queries.{
  is_none, get_membership, get_membership_by_user, get_active_tenant_membership,
}
use fast_page.Workspace.Guards.{
  Request, guarded, get_workspace_for_admin, require_member_management, assert_assignable_role,
  assert_manageable_target, validate_membership_role, validate_membership_status, get_user, or_404,
  get_membership_user,
}

pub record MemberOut : Type 0 where
  pub id : ℕ
  pub workspace_id : ℕ
  pub user_id : ℕ
  pub email : Option Text
  pub role : String
  pub status : String
  pub permissions_override : Dict Bool
  pub created_at : ℕ
  pub updated_at : ℕ

unfoldable pub serialize_member :
    (loads : String → Option Json) → WorkspaceMembership → User → MemberOut
serialize_member loads m u = record {
  id = m.id;
  workspace_id = m.workspace_id;
  user_id = m.user_id;
  email = u.email;
  role = m.role;
  status = m.status;
  permissions_override = parse_override loads (json_text m.permissions_override_json);
  created_at = m.created_at;
  updated_at = m.updated_at;
}

-- The row with this primary key, written anew
abbrev pub update_rows :
    ℕ
    → (WorkspaceMembership → WorkspaceMembership)
    → List WorkspaceMembership
    → List WorkspaceMembership
update_rows id f [] = []
update_rows id f (m ∷ ms) = (if m.id == id then f m else m) ∷ update_rows id f ms

abbrev pub update_membership : ℕ → (WorkspaceMembership → WorkspaceMembership) → Db → Db
update_membership id f db = record db { memberships = update_rows id f db.memberships }

pub record MemberCreate : Type 0 where
  pub user_id : ℕ
  pub role : String
  pub permissions_override : Option Json

-- The row of a new member, or of a former one who comes back
abbrev pub new_membership :
    Principal → (id workspace_id user_id : ℕ) → String → String → ℕ → WorkspaceMembership
new_membership p id workspace_id user role override_json now = record {
  id = id;
  workspace_id = workspace_id;
  user_id = user;
  role = role;
  status = "active";
  permissions_override_json = override_json;
  created_by = some (user_id p);
  created_at = now;
  updated_at = now;
}

abbrev pub reactivated : String → String → ℕ → WorkspaceMembership → WorkspaceMembership
reactivated role override_json now m = record m {
  role = role;
  status = "active";
  permissions_override_json = override_json;
  updated_at = now;
}

-- The checks of `create_workspace_member`, up to the look for a former membership
unfoldable pub check_create :
    (dumps : Dict Bool → String)
    → Db
    → Principal
    → ℕ
    → MemberCreate
    → Result (Workspace × User × String)
check_create dumps db p workspace_id payload = do
  w ← get_workspace_for_admin db p workspace_id
  require_member_management p
  role ← validate_membership_role (some payload.role)
  assert_assignable_role p role
  u ← or_404 (get_user db payload.user_id) "User not found"
  raise_if (is_none (get_active_tenant_membership db u.id (some w.tenant_id))) 400
      "User is not in the workspace tenant"
  override_json ← dump_override dumps payload.permissions_override role
  ok (w, u, override_json)

module _ (loads : String → Option Json) (dumps : Dict Bool → String) where
  abbrev save_member :
      Db
      → Principal
      → String
      → ℕ
      → ℕ
      → Workspace × User × String
      → Option WorkspaceMembership
      → Request MemberOut
  save_member db p role now new_id (w, u, override_json) none =
      let m = new_membership p new_id w.id u.id role override_json now in
      (ok (serialize_member loads m u), record db { memberships = db.memberships ++ (m ∷ []) })
  save_member db p role now new_id (w, u, override_json) (some existing) =
      guarded db
        (assert_manageable_target p existing role
          >> raise_if (str_eq existing.status "active") 409 "Workspace membership already exists")
        λ _. (
          ok (serialize_member loads (reactivated role override_json now existing) u),
          update_membership existing.id (reactivated role override_json now) db,
        )

  unfoldable pub create_member :
      Db → Principal → ℕ → MemberCreate → (now new_id : ℕ) → Request MemberOut
  create_member db p workspace_id payload now new_id =
      guarded db (check_create dumps db p workspace_id payload) λ (w, u, override_json).
        save_member db p payload.role now new_id (w, u, override_json)
          (get_membership_by_user db w.id u.id)

-- The fields that the request sets. A field may be set to `None`.
pub record MemberUpdate : Type 0 where
  pub role : Option (Option String)
  pub status : Option (Option String)
  pub permissions_override : Option (Option Json)

abbrev pub or_current : Option (Option String) → String → Option String
or_current none current = some current
or_current (some v) current = v

abbrev pub is_empty_update : MemberUpdate → Bool
is_empty_update u = is_none u.role && is_none u.status && is_none u.permissions_override

abbrev pub edited : String → String → String → ℕ → WorkspaceMembership → WorkspaceMembership
edited role status override_json now m = record m {
  role = role;
  status = status;
  permissions_override_json = override_json;
  updated_at = now;
}

-- The new `permissions_override_json`, which stays where the request does not set it
abbrev pub next_override :
    (dumps : Dict Bool → String)
    → Option (Option Json)
    → String
    → WorkspaceMembership
    → Result String
next_override dumps none role m = ok m.permissions_override_json
next_override dumps (some override) role m = dump_override dumps override role

unfoldable pub check_update :
    Db → Principal → ℕ → ℕ → MemberUpdate → Result (WorkspaceMembership × String × String)
check_update db p workspace_id membership_id payload = do
  w ← get_workspace_for_admin db p workspace_id
  require_member_management p
  m ← or_404 (get_membership db w.id membership_id) "Workspace membership not found"
  role ← validate_membership_role (or_current payload.role m.role)
  status ← validate_membership_status (or_current payload.status m.status)
  assert_manageable_target p m role
  ok (m, role, status)

module _ (loads : String → Option Json) (dumps : Dict Bool → String) where
  abbrev answer : Db → WorkspaceMembership → Result MemberOut
  answer db m = do u ← get_membership_user db m; ok (serialize_member loads m u)

  -- The answer is made after the commit: it may still be an error.
  unfoldable pub update_member :
      Db → Principal → ℕ → ℕ → MemberUpdate → (now : ℕ) → Request MemberOut
  update_member db p workspace_id membership_id payload now =
      guarded db (check_update db p workspace_id membership_id payload) λ (m, role, status).
        if is_empty_update payload
        then (answer db m, db)
        else guarded db (next_override dumps payload.permissions_override role m) λ override_json.
          let db' = update_membership m.id (edited role status override_json now) db in
          (answer db' (edited role status override_json now m), db')

unfoldable pub check_remove : Db → Principal → ℕ → ℕ → Result WorkspaceMembership
check_remove db p workspace_id membership_id = do
  w ← get_workspace_for_admin db p workspace_id
  require_member_management p
  m ← or_404 (get_membership db w.id membership_id) "Workspace membership not found"
  assert_manageable_target p m m.role
  ok m

abbrev pub removed : ℕ → WorkspaceMembership → WorkspaceMembership
removed now m = record m { status = "removed"; updated_at = now }

unfoldable pub remove_member : Db → Principal → ℕ → ℕ → (now : ℕ) → Request (Unit {0})
remove_member db p workspace_id membership_id now =
    guarded db (check_remove db p workspace_id membership_id) λ m.
      if str_eq m.status "removed"
      then (ok tt, db)
      else (ok tt, update_membership m.id (removed now) db)
