-- ===== src/Workspace/Context.antt =====
-- The context that a request runs in is one of the user's own memberships.
use fast_page.Prelude.{
  Has, ℕ, ◌≡◌, ◌⊎◌, inl, inr, refl, sym, subst, Bool, true, false, not, ◌&&◌, ◌||◌, Option, none,
  some, String, Option-cases, ◌==◌, str_eq, arith, eq_iff,
}
use fast_page.Http.{ok}
use fast_page.Workspace.Models.{Workspace, WorkspaceMembership, Db}
use fast_page.Workspace.Queries.{
  is_none, is_workspace_archived, get_workspace, get_active_membership, get_default_workspace,
  workspace_key,
}
use fast_page.Workspace.Resolution.{
  MembershipContext, or_unauthorized, or_else, resolve_explicit, Row, join_rows, is_open,
  fallback_row, context_of, default_row, resolve_membership_context,
}
use fast_page.Workspace.Count.{Has-keep, first-Has, Has-order_by}
use fast_page.Workspace.FounderTransfer.{get_active_membership-row}
use fast_page.Workspace.Joined.{Has-join_rows, first_row-Has}

-- An active membership of the user in a workspace of the tenant that is neither archived nor
-- inactive
pub record IsMember (db : Db) (user tenant : ℕ) (c : MembershipContext) : Type 0 where
  pub membership_there : Has c.membership db.memberships
  pub workspace_there : Has c.workspace db.workspaces
  pub of_user : c.membership.user_id ≡ user
  pub of_workspace : c.membership.workspace_id ≡ c.workspace.id
  pub of_tenant : c.workspace.tenant_id ≡ tenant
  pub active : str_eq c.membership.status "active" ≡ true
  pub workspace_active : str_eq c.workspace.status "active" ≡ true
  pub unarchived : is_workspace_archived c.workspace ≡ false

or_unauthorized-eq-ok :
    {A : Type 0} (o : Option A) (detail : String) {a : A}
    → or_unauthorized o detail ≡ ok a
    → o ≡ some a
or_unauthorized-eq-ok none detail h = cc
or_unauthorized-eq-ok (some a) detail h = cc

pub get_workspace-row :
    (db : Db) (id : ℕ) {w : Workspace}
    → get_workspace db id ≡ some w
    → Has w db.workspaces × ((w.id == id) ≡ true)
unfolding get_workspace
get_workspace-row db id {w} h =
    Has-keep (λ (r : Workspace). r.id == id) w db.workspaces (first-Has w _ h)

resolve_explicit-parts :
    (db : Db) (user tenant id : ℕ) {w : Workspace} {m : WorkspaceMembership}
    → resolve_explicit db user tenant id ≡ ok (record { workspace = w; membership = m })
    → (get_workspace db id ≡ some w)
      × (get_active_membership db user id ≡ some m)
      × ((w.tenant_id == tenant) ≡ true)
      × ((is_workspace_archived w || not (str_eq w.status "active")) ≡ false)
unfolding resolve_explicit
resolve_explicit-parts db user tenant id h = ground arith

resolve_explicit-IsMember :
    (db : Db) (user tenant id : ℕ) {c : MembershipContext}
    → resolve_explicit db user tenant id ≡ ok c
    → IsMember db user tenant c
resolve_explicit-IsMember db user tenant id {c} h =
    let (got, member, of_tenant, opens) =
      resolve_explicit-parts db user tenant id {w = c.workspace} {m = c.membership} h in
    let (workspace_there, same) = get_workspace-row db id got in
    let (membership_there, passes) = get_active_membership-row db user id member in
    record {
      membership_there = membership_there;
      workspace_there = workspace_there;
      of_user = ground (arith, passes);
      of_workspace = ground (arith, passes, same);
      of_tenant = ground (arith, of_tenant);
      active = ground (arith, passes);
      workspace_active = ground (arith, opens);
      unarchived = ground (arith, opens);
    }

-- What the fallback query asks of a row
abbrev pub admits : ℕ → ℕ → Row → Bool
admits user tenant r =
    r.0.user_id == user && str_eq r.0.status "active" && r.1.tenant_id == tenant && is_open r.1

active_unarchived : (s : String) → str_eq s "active" ≡ true → str_eq s "archived" ≡ false
active_unarchived s h =
    subst (λ t. str_eq t "archived" ≡ false) (sym ((eq_iff s "active").0 h)) refl

admitted-IsMember :
    (db : Db) (user tenant : ℕ) (r : Row)
    → Has r.0 db.memberships
    → Has r.1 db.workspaces
    → (r.0.workspace_id == r.1.id) ≡ true
    → admits user tenant r ≡ true
    → IsMember db user tenant (context_of r)
unfolding is_workspace_archived
admitted-IsMember db user tenant r membership_there workspace_there joins passes = record {
  membership_there = membership_there;
  workspace_there = workspace_there;
  of_user = ground (arith, passes);
  of_workspace = ground (arith, joins);
  of_tenant = ground (arith, passes);
  active = ground (arith, passes);
  workspace_active = ground (arith, passes);
  unarchived = ground (arith, passes, active_unarchived r.1.status);
}

fallback_row-IsMember :
    (db : Db) (user tenant : ℕ) {r : Row}
    → fallback_row db user tenant ≡ some r
    → IsMember db user tenant (context_of r)
unfolding fallback_row
fallback_row-IsMember db user tenant {r} h =
    let (in_join, passes) =
      Has-keep (admits user tenant) r (join_rows db.memberships db.workspaces)
        (first_row-Has r _ h) in
    let (membership_there, workspace_there, joins) =
      Has-join_rows r db.memberships db.workspaces in_join in
    admitted-IsMember db user tenant r membership_there workspace_there joins passes

get_default_workspace-row :
    (db : Db) (tenant : ℕ) {w : Workspace}
    → get_default_workspace db tenant ≡ some w
    → Has w db.workspaces
      × ((w.tenant_id == tenant
            && w.is_default
            && str_eq w.status "active"
            && is_none w.archived_at)
          ≡ true)
unfolding get_default_workspace
get_default_workspace-row db tenant {w} h =
    Has-keep
      (λ (v : Workspace).
        v.tenant_id == tenant && v.is_default && str_eq v.status "active" && is_none v.archived_at)
      w db.workspaces (Has-order_by workspace_key w _ (first-Has w _ h))

default_row-parts :
    (db : Db) (user : ℕ) (o : Option Workspace) {r : Row}
    → default_row db user o ≡ some r
    → (o ≡ some r.1) × (get_active_membership db user r.1.id ≡ some r.0)
unfolding default_row
default_row-parts db user none h = cc
default_row-parts db user (some w) {r} h =
    elim (Option-cases (get_active_membership db user w.id)) [
      | inl missing ↦ ground (arith, missing)
      | inr (m, got) ↦ ground (arith, got)
    ]

default_row-IsMember :
    (db : Db) (user tenant : ℕ) {r : Row}
    → default_row db user (get_default_workspace db tenant) ≡ some r
    → IsMember db user tenant (context_of r)
default_row-IsMember db user tenant {r} h =
    let (is_default, member) =
      default_row-parts db user (get_default_workspace db tenant) {r = r} h in
    let (workspace_there, fits) = get_default_workspace-row db tenant is_default in
    let (membership_there, passes) = get_active_membership-row db user r.1.id member in
    admitted-IsMember db user tenant r membership_there workspace_there (ground (arith, passes))
      (ground (arith, passes, fits))

or_else-cases :
    {A : Type 0} (o o' : Option A) {a : A} → or_else o o' ≡ some a → (o ≡ some a) ⊎ (o' ≡ some a)
or_else-cases none o' h = inr h
or_else-cases (some a) o' h = inl h

-- A workspace context that is resolved, by id or by default, is an active membership of that very
-- user in a workspace of the tenant that is active and not archived, and both rows are in the
-- tables.
pub resolve_membership_context-IsMember :
    (db : Db) (user tenant : ℕ) (workspace_id : Option ℕ) {c : MembershipContext}
    → resolve_membership_context db user tenant workspace_id ≡ ok c
    → IsMember db user tenant c
unfolding resolve_membership_context
resolve_membership_context-IsMember db user tenant (some id) h =
    resolve_explicit-IsMember db user tenant id h
resolve_membership_context-IsMember db user tenant none {c} h =
    let row : Row = (c.membership, c.workspace) in
    let chosen : or_else (default_row db user (get_default_workspace db tenant))
          (fallback_row db user tenant)
        ≡ some row =
      ground arith in
    elim (or_else-cases (default_row db user (get_default_workspace db tenant))
      (fallback_row db user tenant) chosen) [
        | inl by_default ↦ default_row-IsMember db user tenant by_default
        | inr by_fallback ↦ fallback_row-IsMember db user tenant by_fallback
      ]
