-- ===== src/Workspace/Steps.antt =====
-- The requests of app/services/workspace_admin_service.py as steps on the tables. A new row has
-- an id of its own; requests run one after the other.
use fast_page.Prelude.{ℕ, ◌≡◌, ◌≢◌, Bool, true, String, Option, All}
use fast_page.Prelude.Dict.{Dict}
use fast_page.Json.{Json}
use fast_page.Chars.{Text}
use fast_page.Access.Principal.{Principal}
use fast_page.Workspace.Models.{Workspace, WorkspaceMembership, Db}
use fast_page.Workspace.Members.{
  MemberCreate, MemberUpdate, create_member, update_member, remove_member,
}
use fast_page.Workspace.Founder.{transfer_founder, founders_unique}
use fast_page.Workspace.Lifecycle.{
  WorkspaceUpdate, create_workspace, update_metadata, archive_workspace,
}
use fast_page.Workspace.Count.{founder_count, IsFresh, IsKeyed}

-- No workspace and no membership uses this workspace id.
abbrev pub IsUnused : ℕ → Db → Type 0
IsUnused id db =
    All (λ (w : Workspace). w.id ≢ id) db.workspaces
    × All (λ (m : WorkspaceMembership). m.workspace_id ≢ id) db.memberships

module _ (loads : String → Option Json) (dumps : Dict Bool → String) (lower : Text → Text) where
  pub data Step : Db → Db → Type 0 where
    creates_member :
        {db : Db} (p : Principal) (w : ℕ) (payload : MemberCreate) (now id : ℕ)
        → IsFresh id db.memberships
        → Step db (create_member loads dumps db p w payload now id).1
    updates_member :
        {db : Db} (p : Principal) (w i : ℕ) (payload : MemberUpdate) (now : ℕ)
        → Step db (update_member loads dumps db p w i payload now).1
    removes_member :
        {db : Db} (p : Principal) (w i now : ℕ) → Step db (remove_member db p w i now).1
    transfers_founder :
        {db : Db} (p : Principal) (w u now : ℕ) → Step db (transfer_founder loads db p w u now).1
    creates_workspace :
        {db : Db} (p : Principal) (name slug : Option Text) (now id membership_id : ℕ)
        → IsUnused id db
        → IsFresh membership_id db.memberships
        → Step db (create_workspace lower db p name slug now id membership_id).1
    updates_metadata :
        {db : Db} (p : Principal) (w : ℕ) (updates : WorkspaceUpdate) (now : ℕ)
        → Step db (update_metadata lower db p w updates now).1
    archives : {db : Db} (p : Principal) (w now : ℕ) → Step db (archive_workspace db p w now).1

  -- What any run of requests leads to
  pub data Reach (db : Db) : Db → Type 0 where
    here : Reach db db
    then_step : {db' db'' : Db} → Reach db db' → Step db' db'' → Reach db db''

-- Every workspace has exactly one active founder.
abbrev pub IsSound : Db → Type 0
IsSound db =
    IsKeyed db.memberships
    × (founders_unique db.memberships ≡ true)
    × All (λ (w : Workspace). founder_count w.id db.memberships ≡ 1) db.workspaces
