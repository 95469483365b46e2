-- ===== src/Workspace/Resolution.antt =====
-- Which tenant and workspace a request runs in (app/services/workspace_membership_service.py).
use fast_page.Prelude.{
  ℕ, String, Bool, not, ◌&&◌, ◌||◌, Option, none, some, List, [], ◌∷◌, ◌==◌, keep, str_eq,
  if◌then◌else◌,
}
use fast_page.Http.{Result, ok, raise, raise_if, ◌>>=◌, ◌>>◌}
use fast_page.Workspace.Models.{Workspace, WorkspaceMembership, TenantMembership, Db}
use fast_page.Workspace.Queries.{
  is_none, is_workspace_archived, get_workspace, get_active_membership, before,
  get_active_tenant_membership, get_default_workspace,
}

pub record MembershipContext : Type 0 where
  pub workspace : Workspace
  pub membership : WorkspaceMembership

abbrev pub or_unauthorized {ℓ} : {A : Type ℓ} → Option A → String → Result A
or_unauthorized none detail = raise 401 detail
or_unauthorized (some a) detail = ok a

abbrev pub or_else {ℓ} : {A : Type ℓ} → Option A → Option A → Option A
or_else none o = o
or_else (some a) o = some a

-- `if fallback_tenant_id: …`
abbrev pub try_fallback : Db → ℕ → Option ℕ → Option TenantMembership
try_fallback db user_id none = none
try_fallback db user_id (some t) = get_active_tenant_membership db user_id (some t)

unfoldable pub resolve_tenant_membership : Db → ℕ → Option ℕ → Option ℕ → Result TenantMembership
unfolding get_active_tenant_membership
resolve_tenant_membership db user_id (some t) fallback =
    or_unauthorized (get_active_tenant_membership db user_id (some t)) "No active tenant membership"
resolve_tenant_membership db user_id none fallback =
    or_unauthorized
      (or_else (try_fallback db user_id fallback) (get_active_tenant_membership db user_id none))
      "No active tenant membership"

abbrev tenant_of : Option Workspace → Option ℕ
tenant_of none = none
tenant_of (some w) = some w.tenant_id

unfoldable pub workspace_tenant_hint : Db → Option ℕ → Option ℕ
unfolding get_workspace
workspace_tenant_hint db none = none
workspace_tenant_hint db (some id) = tenant_of (get_workspace db id)

abbrev tenant_hint : Db → Option ℕ → Option ℕ → Option ℕ
tenant_hint db none workspace_id = workspace_tenant_hint db workspace_id
tenant_hint db (some t) workspace_id = some t

unfoldable pub resolve_auth_tenant :
    Db → ℕ → (tenant_id workspace_id compat_tenant_id : Option ℕ) → Result TenantMembership
unfolding workspace_tenant_hint resolve_tenant_membership
resolve_auth_tenant db user_id tenant_id workspace_id compat_tenant_id =
    let hint = tenant_hint db tenant_id workspace_id in
    resolve_tenant_membership db user_id hint
      (if is_none hint && is_none workspace_id then compat_tenant_id else none)

unfoldable pub resolve_explicit : Db → ℕ → ℕ → ℕ → Result MembershipContext
unfolding get_workspace get_active_membership is_workspace_archived
resolve_explicit db user_id tenant_id workspace_id = do
  w ← or_unauthorized (get_workspace db workspace_id) "Workspace not found"
  raise_if (not (w.tenant_id == tenant_id)) 401 "Workspace not in active tenant"
  raise_if (is_workspace_archived w || not (str_eq w.status "active")) 401 "Workspace is archived"
  m ←
      or_unauthorized (get_active_membership db user_id workspace_id)
        "No active workspace membership"
  ok (record { workspace = w; membership = m })

-- A row of the join of memberships and workspaces
abbrev pub Row : Type 0
Row = WorkspaceMembership × Workspace

unfoldable pub join_one : WorkspaceMembership → List Workspace → List Row
join_one m [] = []
join_one m (w ∷ ws) =
    let rest = join_one m ws in if m.workspace_id == w.id then (m, w) ∷ rest else rest

unfoldable pub append_rows : List Row → List Row → List Row
append_rows [] rows = rows
append_rows (r ∷ rs) rows = r ∷ append_rows rs rows

unfoldable pub join_rows : List WorkspaceMembership → List Workspace → List Row
unfolding join_one append_rows
join_rows [] ws = []
join_rows (m ∷ ms) ws = append_rows (join_one m ws) (join_rows ms ws)

-- `ORDER BY membership.created_at, membership.id, workspace.created_at, workspace.id`
abbrev pub row_before : Row → Row → Bool
row_before (m, w) (m', w') =
    before (m.created_at, m.id) (m'.created_at, m'.id)
    || m.created_at == m'.created_at
      && m.id == m'.id
      && before (w.created_at, w.id) (w'.created_at, w'.id)

abbrev pub earlier_row : Row → Option Row → Option Row
earlier_row r none = some r
earlier_row r (some r') = some (if row_before r' r then r' else r)

-- The first row of the sorted rows
unfoldable pub first_row : List Row → Option Row
first_row [] = none
first_row (r ∷ rs) = earlier_row r (first_row rs)

abbrev pub is_open : Workspace → Bool
is_open w = str_eq w.status "active" && is_none w.archived_at

unfoldable pub fallback_row : Db → ℕ → ℕ → Option Row
unfolding join_rows first_row
fallback_row db user_id tenant_id = first_row (
    keep
      (λ r.
        r.0.user_id == user_id
        && str_eq r.0.status "active"
        && r.1.tenant_id == tenant_id
        && is_open r.1)
      (join_rows db.memberships db.workspaces))

abbrev pub context_of : Row → MembershipContext
context_of (m, w) = record { workspace = w; membership = m }

-- The default workspace, where the user is an active member of it
unfoldable pub default_row : Db → ℕ → Option Workspace → Option Row
unfolding get_active_membership
default_row db user_id none = none
default_row db user_id (some w) = elim (get_active_membership db user_id w.id) [
  | none ↦ none
  | some m ↦ some (m, w)
]

unfoldable pub resolve_membership_context : Db → ℕ → ℕ → Option ℕ → Result MembershipContext
unfolding resolve_explicit default_row fallback_row get_default_workspace
resolve_membership_context db user_id tenant_id (some workspace_id) =
    resolve_explicit db user_id tenant_id workspace_id
resolve_membership_context db user_id tenant_id none = do
  row ←
      or_unauthorized
        (or_else (default_row db user_id (get_default_workspace db tenant_id))
          (fallback_row db user_id tenant_id))
        "No active workspace membership"
  ok (context_of row)
