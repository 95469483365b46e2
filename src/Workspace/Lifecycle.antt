-- ===== src/Workspace/Lifecycle.antt =====
-- A workspace's life: `create_workspace`, `update_workspace_metadata` and `archive_workspace`.
-- A conflict that the unique index on (tenant, slug) finds only at the commit needs a second
-- request between the look-up and the commit; requests here run one after the other.
use fast_page.Prelude.{
  ℕ, Bool, false, not, ◌&&◌, Option, none, some, List, [], ◌∷◌, ◌++◌, map, ◌==◌, any, if◌then◌else◌,
}
use fast_page.Http.{Result, ok, raise, raise_if, ◌>>=◌, ◌>>◌}
use fast_page.Chars.{Text, strip, is_empty, text_eq}
use fast_page.Access.Principal.{Principal, user_id, require_capability}
use fast_page.Workspace.Models.{Workspace, Db}
use fast_page.Workspace.Queries.{is_none, get_workspace_or_404}
use fast_page.Workspace.Guards.{
  Request, guarded, is_platform_admin, get_workspace_for_admin, require_workspace_create,
  require_archive,
}
use fast_page.Workspace.Members.{new_membership}
use fast_page.Workspace.Slug.{normalize_slug}

-- A row has this tenant and this slug.
abbrev pub slug_taken : ℕ → Text → List Workspace → Bool
slug_taken tenant_id slug = any (λ w. w.tenant_id == tenant_id && text_eq w.slug slug)

-- `(name or "").strip()`, which must not be empty
abbrev pub check_name : Option Text → Result Text
check_name none = raise 400 "Workspace name cannot be empty"
check_name (some name) =
    if is_empty (strip name) then raise 400 "Workspace name cannot be empty" else ok (strip name)

abbrev pub or_name : Option Text → Text → Text
or_name none name = name
or_name (some slug) name = slug

abbrev pub new_workspace : Principal → (id : ℕ) → Text → Text → (now : ℕ) → Workspace
new_workspace p id name slug now = record {
  id = id;
  tenant_id = p.tenant_id;
  name = name;
  slug = slug;
  status = "active";
  is_default = false;
  created_by = some (user_id p);
  default_provider_id = none;
  archived_at = none;
  archived_by = none;
  created_at = now;
  updated_at = now;
}

module _ (lower : Text → Text) where
  unfoldable pub check_create_workspace :
      Db → Principal → Option Text → Option Text → Result (Text × Text)
  check_create_workspace db p name slug = do
    require_workspace_create p
    n ← check_name name
    s ← normalize_slug lower (some (or_name slug n))
    raise_if (slug_taken p.tenant_id s db.workspaces) 409
        "Workspace slug already exists in this tenant"
    ok (n, s)

  unfoldable pub create_workspace :
      Db
      → Principal
      → (name slug : Option Text) → (now workspace_id membership_id : ℕ) → Request Workspace
  unfolding check_create_workspace
  create_workspace db p name slug now workspace_id membership_id =
      guarded db (check_create_workspace db p name slug) λ (n, s).
        let w = new_workspace p workspace_id n s now in
        (
          ok w,
          record db {
            workspaces = db.workspaces ++ (w ∷ []);
            memberships =
                db.memberships
                ++ (new_membership p membership_id workspace_id (user_id p) "founder" "{}" now
                    ∷ []);
          },
        )

-- The row with this primary key, written anew
abbrev pub update_workspaces : ℕ → (Workspace → Workspace) → List Workspace → List Workspace
update_workspaces id f = map (λ w. if w.id == id then f w else w)

-- The fields that the request sets. A field may be set to `None`.
pub record WorkspaceUpdate : Type 0 where
  pub name : Option (Option Text)
  pub slug : Option (Option Text)

unfoldable pub check_update_actor : Db → Principal → ℕ → Result Workspace
check_update_actor db p workspace_id = do
  w ← get_workspace_or_404 db workspace_id
  raise_if (not (w.tenant_id == p.tenant_id) && not (is_platform_admin p)) 404 "Workspace not found"
  raise_if (not (is_platform_admin p) && not (w.id == p.workspace_id)) 404 "Workspace not found"
  if is_platform_admin p
      then ok tt
      else require_capability p "can_edit_workspace_metadata"
          (some "Missing workspace capability: can_edit_workspace_metadata")
  ok w

abbrev next_name : Option (Option Text) → Text → Result Text
next_name none current = ok current
next_name (some name) current = check_name name

abbrev next_slug :
    (lower : Text → Text) → Option (Option Text) → Workspace → List Workspace → Result Text
next_slug lower none w ws = ok w.slug
next_slug lower (some raw) w ws = do
  slug ← normalize_slug lower raw
  raise_if (any (λ v. v.tenant_id == w.tenant_id && text_eq v.slug slug && not (v.id == w.id)) ws)
      409 "Workspace slug already exists in this tenant"
  ok slug

abbrev pub with_metadata : Text → Text → ℕ → Workspace → Workspace
with_metadata name slug now w = record w { name = name; slug = slug; updated_at = now }

module _ (lower : Text → Text) where
  unfoldable pub update_metadata :
      Db → Principal → ℕ → WorkspaceUpdate → (now : ℕ) → Request Workspace
  unfolding check_update_actor
  update_metadata db p workspace_id updates now =
      guarded db (check_update_actor db p workspace_id) λ w.
        if is_none updates.name && is_none updates.slug
        then (ok w, db)
        else guarded db
            (do
              n ← next_name updates.name w.name
              s ← next_slug lower updates.slug w db.workspaces
              ok (n, s))
            λ (n, s). (
              ok (with_metadata n s now w),
              record db {
                workspaces = update_workspaces w.id (with_metadata n s now) db.workspaces;
              },
            )

unfoldable pub check_archive : Db → Principal → ℕ → Result Workspace
check_archive db p workspace_id = do
  w ← get_workspace_for_admin db p workspace_id
  require_archive p
  raise_if w.is_default 409 "Default workspace cannot be archived"
  ok w

abbrev pub archived : ℕ → ℕ → Workspace → Workspace
archived by now w = record w {
  status = "archived";
  archived_at = some now;
  archived_by = some by;
  updated_at = now;
}

unfoldable pub archive_workspace : Db → Principal → ℕ → (now : ℕ) → Request Workspace
unfolding check_archive
archive_workspace db p workspace_id now = guarded db (check_archive db p workspace_id) λ w. (
  ok (archived (user_id p) now w),
  record db { workspaces = update_workspaces w.id (archived (user_id p) now) db.workspaces },
)
