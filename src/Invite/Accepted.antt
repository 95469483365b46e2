-- ===== src/Invite/Accepted.antt =====
-- Accepting an invite: whoever may accept it gets a session in its workspace.
use fast_page.Prelude.{
  Has, ℕ, ◌≡◌, refl, subst, String, Bool, true, false, ◌&&◌, Option, none, some, [], ◌∷◌, ◌++◌,
  arith, ◌==◌, All, str_eq, leb,
}
use fast_page.Json.{Json}
use fast_page.Http.{ok}
use fast_page.Chars.{Text, text_eq}
use fast_page.Access.Roles.{is_in}
use fast_page.Access.Principal.{User}
use fast_page.Workspace.Models.{Workspace, WorkspaceMembership, TenantMembership, Db}
use fast_page.Workspace.Queries.{
  is_workspace_archived, get_workspace, get_active_membership, get_active_tenant_membership,
  membership_key, tenant_membership_key,
}
use fast_page.Workspace.Resolution.{
  resolve_auth_tenant, resolve_tenant_membership, resolve_membership_context, resolve_explicit,
}
use fast_page.Workspace.Members.{reactivated, update_membership}
use fast_page.Workspace.Present.{update_rows-Has}
use fast_page.Invite.Models.{WorkspaceInvite, Store, get_invite}
use fast_page.Invite.Emails.{normalize_email}
use fast_page.Invite.Guards.{invite_roles}
use fast_page.Invite.Join.{upsert_membership, find_membership, invited_membership}
use fast_page.Invite.Orderly.{All-Has}
use fast_page.Invite.Joins.{find_membership-Has}
use fast_page.Invite.Member.{
  found_first, append-Has_end, IsInactive, HasRole, IsActiveIn, HasRole-append, HasRole-update,
  Joined,
}

-- The invite may be accepted: it is pending and in time, its workspace is open, the user's email is
-- its email, and the user has no active membership yet.
pub record MayAccept (lower : Text → Text) (s : Store) (user : User) (id now : ℕ)
    (i : WorkspaceInvite) (w : Workspace) (email : Text) : Type 0 where
  pub found : get_invite s id ≡ some i
  pub pending : i.status ≡ "pending"
  pub in_time : leb i.expires_at now ≡ false
  pub of_workspace : get_workspace s.db i.workspace_id ≡ some w
  pub workspace_active : str_eq w.status "active" ≡ true
  pub unarchived : is_workspace_archived w ≡ false
  pub users_email : normalize_email lower user.email ≡ some email
  pub addressed : text_eq email i.email ≡ true
  pub role_allowed : is_in i.role invite_roles ≡ true
  pub no_member : All (IsInactive w.id user.id) s.db.memberships

module _ (db : Db) (w u : ℕ) (i : WorkspaceInvite) (now id : ℕ) (of_w : i.workspace_id ≡ w)
    (role : str_eq i.role "founder" ≡ false) (inactive : All (IsInactive w u) db.memberships) where
  abbrev pub Given : Option WorkspaceMembership → Type 0
  Given o =
      (db' : Db) × (upsert_membership db o i u now id ≡ ok db')
      × Joined w u i db'
      × (db'.workspaces ≡ db.workspaces)
      × (db'.tenant_memberships ≡ db.tenant_memberships)

  pub upsert-Given : (o : Option WorkspaceMembership) → find_membership db w u ≡ o → Given o
  unfolding upsert_membership
  upsert-Given none e =
      let m = invited_membership id u i now in
      (
        record db { memberships = db.memberships ++ (m ∷ []) },
        rw role refl,
        (
          (m, append-Has_end db.memberships m, (of_w, refl, refl)),
          HasRole-append w u i db.memberships m inactive (λ _ _ _. (refl, refl)),
        ),
        refl,
        refl,
      )
  upsert-Given (some m) e =
      let (there, is_w, is_u) = find_membership-Has db w u e in
      let back = reactivated i.role i.permissions_override_json now in
      let old = All-Has (IsInactive w u) db.memberships m inactive there is_w is_u in
      (
        update_membership m.id back db,
        rw (old, role) refl,
        (
          (
            back m,
            subst (λ r. Has r (update_membership m.id back db).memberships) (ground arith)
                (update_rows-Has m.id back m db.memberships there),
            (is_w, is_u, refl),
          ),
          HasRole-update w u i m.id back db.memberships inactive (λ r _ _ _. (refl, refl)),
        ),
        refl,
        refl,
      )

-- The session that the invite promises: in its workspace, for its user, in its role
pub record IsSession (u : ℕ) (i : WorkspaceInvite) (w : Workspace)
    (tenant_membership : TenantMembership) (m : WorkspaceMembership) : Type 0 where
  pub in_tenant : tenant_membership.tenant_id ≡ w.tenant_id
  pub tenant_active : str_eq tenant_membership.status "active" ≡ true
  pub in_workspace : m.workspace_id ≡ w.id
  pub of_user : m.user_id ≡ u
  pub active : str_eq m.status "active" ≡ true
  pub with_role : m.role ≡ i.role
  pub with_override : m.permissions_override_json ≡ i.permissions_override_json

module _ (loads : String → Option Json) (db : Db) (user : User) (w : Workspace)
    (i : WorkspaceInvite) (there : get_workspace db w.id ≡ some w)
    (active : str_eq w.status "active" ≡ true) (unarchived : is_workspace_archived w ≡ false) where
  pub resolve_tenant_found :
      (m : TenantMembership)
      → Has m db.tenant_memberships
      → (m.tenant_id ≡ w.tenant_id) × (m.user_id ≡ user.id) × (str_eq m.status "active" ≡ true)
      → (t : TenantMembership) × (resolve_auth_tenant db user.id
            (some w.tenant_id)
            (some w.id)
            (some user.tenant_id)
          ≡ ok t)
        × (t.tenant_id ≡ w.tenant_id)
        × (str_eq t.status "active" ≡ true)
  unfolding resolve_auth_tenant resolve_tenant_membership get_active_tenant_membership
  resolve_tenant_found m h (in_tenant, of_user, is_active) =
      let p : TenantMembership → Bool =
        λ r. r.user_id == user.id && str_eq r.status "active" && r.tenant_id == w.tenant_id in
      let (t, found, _, is_it) =
        found_first tenant_membership_key p db.tenant_memberships m h (ground arith) in
      (t, rw found refl, ground arith, ground arith)

  pub resolve_workspace_found :
      (tenant_id : ℕ)
      → tenant_id ≡ w.tenant_id
      → Joined w.id user.id i db
      → (m : WorkspaceMembership) × (resolve_membership_context db user.id tenant_id (some w.id)
          ≡ ok (record { workspace = w; membership = m }))
        × IsActiveIn w.id user.id m
        × (m.role ≡ i.role)
        × (m.permissions_override_json ≡ i.permissions_override_json)
  unfolding resolve_membership_context resolve_explicit get_active_membership
  resolve_workspace_found tenant_id in_tenant ((m, h, (in_w, of_user, is_active)), roles) =
      let p : WorkspaceMembership → Bool =
        λ r. r.user_id == user.id && r.workspace_id == w.id && str_eq r.status "active" in
      let (r, found, r_there, is_it) =
        found_first membership_key p db.memberships m h (ground arith) in
      let of_w : r.workspace_id ≡ w.id = ground arith in
      let of_u : r.user_id ≡ user.id = ground arith in
      let is_act : str_eq r.status "active" ≡ true = ground arith in
      let (role, override) =
        All-Has (HasRole w.id user.id i) db.memberships r roles r_there of_w of_u is_act in
      let same_tenant : (w.tenant_id == tenant_id) ≡ true = ground arith in
      (
        r,
        rw (there, same_tenant, unarchived, active, found) refl,
        (of_w, of_u, is_act),
        role,
        override,
      )
