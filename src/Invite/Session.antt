-- ===== src/Invite/Session.antt =====
-- `accept_workspace_invite` as a whole.
use fast_page.Prelude.{
  Has, ℕ, ◌≡◌, refl, sym, subst, ap, ◌∙◌, inl, inr, String, true, false, Option, some, arith, All,
  Bool-cases, str_eq, eq_iff,
}
use fast_page.Json.{Json}
use fast_page.Http.{Result, ok}
use fast_page.Chars.{Text}
use fast_page.Access.Roles.{is_in}
use fast_page.Access.Override.{json_text}
use fast_page.Access.Resolve.{resolve_capabilities}
use fast_page.Access.Principal.{User}
use fast_page.Auth.{AuthContext, Claims, resolve_auth_context}
use fast_page.Workspace.Models.{Workspace, TenantMembership, Db}
use fast_page.Workspace.Queries.{get_workspace}
use fast_page.Workspace.Context.{get_workspace-row}
use fast_page.Invite.Requests.{get_invite-Has}
use fast_page.Invite.Models.{WorkspaceInvite, Store, write_invite, effective_status}
use fast_page.Invite.Guards.{check_pending, invite_roles}
use fast_page.Invite.Join.{
  Handoff, handoff, ensure_tenant_membership, find_membership, invite_workspace, accepted, aligned,
  with_pending, joined,
}
use fast_page.Invite.Accept.{check_accept, join_workspace, accepted_answer, accept_invite}
use fast_page.Invite.Joins.{ensure-same}
use fast_page.Invite.Member.{ensure-found, IsInactive, Joined}
use fast_page.Invite.Accepted.{
  MayAccept, upsert-Given, IsSession, resolve_tenant_found, resolve_workspace_found,
}

not_founder : (role : String) → is_in role invite_roles ≡ true → str_eq role "founder" ≡ false
not_founder role h = elim (Bool-cases (str_eq role "founder")) [
  | inr e ↦ e
  | inl e ↦
      let same : role ≡ "founder" = (eq_iff role "founder").0 e in
      let wrong : false ≡ true = (rw same at h) in cc
]

module _ (lower : Text → Text) (s : Store) (user : User) (id now : ℕ) (i : WorkspaceInvite)
    (w : Workspace) (email : Text) (may : MayAccept lower s user id now i w email) where
  status_pending : effective_status i now ≡ "pending"
  unfolding effective_status
  status_pending = rw (may.pending, may.in_time) refl

  accept_checked : check_accept lower s.db user i ≡ ok w
  unfolding check_accept invite_workspace
  accept_checked =
      rw
        (
          may.of_workspace, may.unarchived, may.workspace_active, may.users_email, may.addressed,
          may.role_allowed,
        )
        refl

  workspace_there :
      (db : Db) → db.workspaces ≡ s.db.workspaces → get_workspace db i.workspace_id ≡ some w
  unfolding get_workspace
  workspace_there db ws = rw ws may.of_workspace

  w_is : i.workspace_id ≡ w.id
  w_is = ground (arith, (get_workspace-row s.db i.workspace_id may.of_workspace).1)

  module _ (new_tenant_id new_id : ℕ) where
    -- The tables after both memberships are given
    abbrev IsGiven : Db → Type 0
    IsGiven db =
        (join_workspace s.db user w i now new_tenant_id new_id ≡ ok db)
        × Joined w.id user.id i db
        × (db.workspaces ≡ s.db.workspaces)
        × ((m : TenantMembership) × Has m db.tenant_memberships
            × ((m.tenant_id ≡ w.tenant_id)
                × (m.user_id ≡ user.id)
                × (str_eq m.status "active" ≡ true)))

    memberships-IsGiven : (db : Db) × IsGiven db
    unfolding join_workspace
    memberships-IsGiven =
        let mid = ensure_tenant_membership s.db w.tenant_id user.id now new_tenant_id in
        let (same, same_ws, _) = ensure-same s.db w.tenant_id user.id now new_tenant_id in
        let (m, there, is_in_tenant) = ensure-found s.db w.tenant_id user.id now new_tenant_id in
        let (db, done, joins, ws, tms) =
          upsert-Given mid w.id user.id i now new_id w_is (not_founder i.role may.role_allowed)
            (subst (All (IsInactive w.id user.id)) (sym same) may.no_member)
            (find_membership mid w.id user.id) refl in
        (db, (done, joins, ws ∙ same_ws, (m, subst (Has m) (sym tms) there, is_in_tenant)))

    module _ (loads : String → Option Json) where
      auth_found :
          (db : Db)
          → (db.workspaces ≡ s.db.workspaces)
          → Joined w.id user.id i db
          → (m : TenantMembership) → Has m db.tenant_memberships
          → (m.tenant_id ≡ w.tenant_id) × (m.user_id ≡ user.id) × (str_eq m.status "active" ≡ true)
          → (c : AuthContext) × (resolve_auth_context loads db
                (aligned w.tenant_id now user)
                (some w.tenant_id)
                (some w.id)
              ≡ ok c)
            × (c.workspace ≡ w)
            × IsSession user.id i w c.tenant_membership c.workspace_membership
      unfolding resolve_auth_context
      auth_found db ws joins m there is_in_tenant =
          let user' = aligned w.tenant_id now user in
          let same_id : user'.id ≡ user.id = ground arith in
          let at : get_workspace db w.id ≡ some w =
            subst (λ k. get_workspace db k ≡ some w) w_is (workspace_there db ws) in
          let (t, tenant_ok, in_tenant, tenant_active) =
            resolve_tenant_found loads db user' w i at may.workspace_active may.unarchived m there
              (rw same_id is_in_tenant) in
          let (r, found, (in_w, of_u, is_active), role, override) =
            resolve_workspace_found loads db user' w i at may.workspace_active may.unarchived
              t.tenant_id in_tenant (rw same_id joins) in
          (
            record {
              user = user';
              tenant_id = t.tenant_id;
              workspace = w;
              tenant_membership = t;
              workspace_membership = r;
              workspace_permissions =
                  resolve_capabilities loads r.role (json_text r.permissions_override_json);
            },
            rw (tenant_ok, found) refl,
            refl,
            record {
              in_tenant = in_tenant;
              tenant_active = tenant_active;
              in_workspace = in_w;
              of_user = of_u ∙ same_id;
              active = is_active;
              with_role = role;
              with_override = override;
            },
          )

      module _ (encode : Claims → String) (jti : String) (token_at : ℕ) where
        accept_runs :
            (db : Db)
            → join_workspace s.db user w i now new_tenant_id new_id ≡ ok db
            → let s' = joined s db i user w.tenant_id now in
              accept_invite loads encode lower s user id jti now token_at new_tenant_id new_id ≡ (
                accepted_answer loads encode s'
                    (accepted user.id now i)
                    (aligned w.tenant_id now user)
                    w
                    jti
                    now
                    token_at,
                s',
              )
        unfolding accept_invite with_pending check_pending
        accept_runs db given = rw (may.found, status_pending, accept_checked, given) refl

        -- Where an invite is pending and in time, of an active workspace that is not archived, for a
        -- role that an invite may give and for the user's email, and the user has no active
        -- membership of the workspace, accepting it succeeds: the answer is a session in this
        -- workspace, with active memberships of the user in its tenant and in it, in the invite's role
        -- and with its override. The invite's row is accepted by the user at that time, and no
        -- other invite changes.
        pub accept_invite-IsSession :
            let (answer, s') =
              accept_invite loads encode lower s user id jti now token_at new_tenant_id new_id in
            (h : Handoff) × (answer ≡ ok h)
            × (h.workspace ≡ w)
            × IsSession user.id i w h.tenant_membership h.workspace_membership
            × (s'.invites ≡ write_invite id (accepted user.id now) s.invites)
        unfolding accepted_answer handoff
        accept_invite-IsSession =
            let (db, (done, joins, ws, (m, there, is_in_tenant))) = memberships-IsGiven in
            let s' = joined s db i user w.tenant_id now in
            let (c, found, at, session) = auth_found s'.db ws joins m there is_in_tenant in
            let runs = accept_runs db done in
            (
              handoff loads encode (accepted user.id now i) c jti now token_at,
              ap (λ (r : Result Handoff × Store). r.0) runs ∙ rw found refl,
              at,
              session,
              ap (λ (r : Result Handoff × Store). r.1.invites) runs
                  ∙ ap (λ k. write_invite k (accepted user.id now) s.invites)
                      (get_invite-Has s id may.found).1,
            )
