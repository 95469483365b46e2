-- ===== src/Invite/Joins.antt =====
-- The memberships that an invite gives found nothing: every workspace keeps its founders.
use fast_page.Prelude.{
  Has, ℕ, ◌≡◌, refl, sym, subst, ap, ◌∙◌, inl, inr, false, Option, none, some, [], ◌∷◌, ◌++◌, arith,
  Option-cases, str_eq,
}
use fast_page.Http.{ok}
use fast_page.Chars.{Text}
use fast_page.Access.Principal.{User}
use fast_page.Workspace.Models.{Workspace, WorkspaceMembership, TenantMembership, Db}
use fast_page.Workspace.Members.{reactivated, update_membership}
use fast_page.Workspace.Count.{founds, founder_count, IsKeyed, IsFresh, Has-keep, first-Has}
use fast_page.Workspace.MemberFounders.{Kept, Kept-update_membership, not_founding, create_row-Kept}
use fast_page.Invite.Models.{WorkspaceInvite}
use fast_page.Invite.Join.{
  ensure_found, ensure_tenant_membership, upsert_membership, find_membership,
  find_tenant_membership, invited_membership,
}
use fast_page.Invite.Accept.{join_workspace}
use fast_page.Invite.Claim.{claim_user}

-- The founders of every workspace, and the workspaces, are as they were.
abbrev pub Safe : Db → Db → Type 0
Safe db db' = Kept db db' × (db'.workspaces ≡ db.workspaces)

ensure_found-same :
    (db : Db) (o : Option TenantMembership) (tenant_id user_id now new_id : ℕ)
    → let db' = ensure_found db o tenant_id user_id now new_id in
      (db'.memberships ≡ db.memberships) × (db'.workspaces ≡ db.workspaces) × (db'.users ≡ db.users)
unfolding ensure_found
ensure_found-same db none tenant_id user_id now new_id = (refl, refl, refl)
ensure_found-same db (some m) tenant_id user_id now new_id = ground arith

pub ensure-same :
    (db : Db) (tenant_id user_id now new_id : ℕ)
    → let db' = ensure_tenant_membership db tenant_id user_id now new_id in
      (db'.memberships ≡ db.memberships) × (db'.workspaces ≡ db.workspaces) × (db'.users ≡ db.users)
unfolding ensure_tenant_membership
ensure-same db tenant_id user_id now new_id =
    ensure_found-same db (find_tenant_membership db tenant_id user_id) tenant_id user_id now new_id

pub find_membership-Has :
    (db : Db) (w u : ℕ) {m : WorkspaceMembership}
    → find_membership db w u ≡ some m
    → Has m db.memberships × (m.workspace_id ≡ w) × (m.user_id ≡ u)
find_membership-Has db w u {m} h =
    let (there, same) = Has-keep _ m db.memberships (first-Has m _ h) in
    (there, ground arith, ground arith)

not_active :
    (w : ℕ) (m : WorkspaceMembership) → str_eq m.status "active" ≡ false → founds w m ≡ false
not_active w m h = ground arith

pub upsert-new :
    (db : Db) (i : WorkspaceInvite) (u now new_id : ℕ) {db' : Db}
    → upsert_membership db none i u now new_id ≡ ok db'
    → (str_eq i.role "founder" ≡ false)
      × (record db { memberships = db.memberships ++ (invited_membership new_id u i now ∷ []) }
          ≡ db')
unfolding upsert_membership
upsert-new db i u now new_id h = ground arith

pub upsert-former :
    (db : Db) (m : WorkspaceMembership) (i : WorkspaceInvite) (u now new_id : ℕ) {db' : Db}
    → upsert_membership db (some m) i u now new_id ≡ ok db'
    → (str_eq m.status "active" ≡ false)
      × (str_eq i.role "founder" ≡ false)
      × (update_membership m.id (reactivated i.role i.permissions_override_json now) db ≡ db')
unfolding upsert_membership
upsert-former db m i u now new_id h = ground arith

upsert-Safe :
    (db : Db) (i : WorkspaceInvite) (w u now new_id : ℕ) {db' : Db}
    → IsKeyed db.memberships
    → IsFresh new_id db.memberships
    → upsert_membership db (find_membership db w u) i u now new_id ≡ ok db'
    → Safe db db'
upsert-Safe db i w u now new_id {db'} keyed fresh h = elim (Option-cases (find_membership db w u)) [
  | inl new ↦
      let (role, done) = upsert-new db i u now new_id (rw new at h) in
      subst (Safe db) done
        (create_row-Kept db keyed (invited_membership new_id u i now) fresh role, refl)
  | inr (m, found) ↦
      let (inactive, role, done) = upsert-former db m i u now new_id (rw found at h) in
      let back = reactivated i.role i.permissions_override_json now in
      subst (Safe db) done (
        Kept-update_membership db m back keyed (find_membership-Has db w u found).0 (λ r. refl)
            (λ v. not_founding v (back m) role ∙ sym (not_active v m inactive)),
        refl,
      )
]

pub join_workspace-Safe :
    (db : Db) (user : User) (w : Workspace) (i : WorkspaceInvite) (now new_tenant_id new_id : ℕ)
    {db' : Db}
    → IsKeyed db.memberships
    → IsFresh new_id db.memberships
    → join_workspace db user w i now new_tenant_id new_id ≡ ok db'
    → Safe db db'
unfolding join_workspace
join_workspace-Safe db user w i now new_tenant_id new_id {db'} keyed fresh h =
    let mid = ensure_tenant_membership db w.tenant_id user.id now new_tenant_id in
    let (same, same_ws, _) = ensure-same db w.tenant_id user.id now new_tenant_id in
    let ((counts, keyed'), ws) =
      upsert-Safe mid i w.id user.id now new_id {db' = db'} (subst IsKeyed (sym same) keyed)
        (subst (IsFresh new_id) (sym same) fresh) h in
    ((λ v. counts v ∙ ap (founder_count v) same, keyed'), ws ∙ same_ws)

module _ (hash_password : Text → Text) where
  pub claim_user-same :
      (db : Db) (o : Option User) (email password : Text) (username : Option Text) (suffix : Text)
      (tenant_id now new_id : ℕ) {u : User} {db' : Db}
      → claim_user hash_password db o email password username suffix tenant_id now new_id
        ≡ ok (u, db')
      → (db'.memberships ≡ db.memberships) × (db'.workspaces ≡ db.workspaces)
  unfolding claim_user
  claim_user-same db none email password username suffix tenant_id now new_id h = ground arith
  claim_user-same db (some u) email password username suffix tenant_id now new_id h = ground arith
