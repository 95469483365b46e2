-- ===== src/Invite/Accept.antt =====
-- `accept_workspace_invite`.
use Prim.Native.String.{◌++◌ as str_append}
use fast_page.Prelude.{ℕ, String, not, Option, none, some}
use fast_page.Json.{Json}
use fast_page.Http.{Result, ok, raise, raise_if, ◌>>=◌, ◌>>◌}
use fast_page.Chars.{Text, text_eq}
use fast_page.Access.Roles.{is_in}
use fast_page.Access.Principal.{User}
use fast_page.Auth.{Claims, resolve_auth_context}
use fast_page.Workspace.Models.{Workspace, Db}
use fast_page.Invite.Models.{WorkspaceInvite, Store, StoreRequest, checked}
use fast_page.Invite.Emails.{normalize_email}
use fast_page.Invite.Guards.{invite_roles}
use fast_page.Invite.Join.{
  Handoff, handoff, find_membership, ensure_tenant_membership, upsert_membership, invite_workspace,
  accepted, aligned, with_pending, joined,
}

abbrev check_email : Option Text → WorkspaceInvite → Result (Unit {0})
check_email none i =
    raise 403 "Your account does not have an email address and cannot accept invite"
check_email (some email) i =
    raise_if (not (text_eq email i.email)) 403 "Your email does not match the invite target email"

-- The checks of a pending invite
unfoldable pub check_accept : (lower : Text → Text) → Db → User → WorkspaceInvite → Result Workspace
unfolding invite_workspace normalize_email
check_accept lower db user i = do
  w ← invite_workspace db i "Workspace is archived; invite cannot be accepted"
  check_email (normalize_email lower user.email) i
  raise_if (not (is_in i.role invite_roles)) 409 (str_append "Invite has invalid role: " i.role)
  ok w

-- The memberships that the invite gives, if there is none yet
unfoldable pub join_workspace :
    Db → User → Workspace → WorkspaceInvite → (now new_tenant_id new_id : ℕ) → Result Db
unfolding ensure_tenant_membership upsert_membership
join_workspace db user w i now new_tenant_id new_id =
    let db' = ensure_tenant_membership db w.tenant_id user.id now new_tenant_id in
    upsert_membership db' (find_membership db' w.id user.id) i user.id now new_id

module _ (loads : String → Option Json) (encode : Claims → String) where
  -- The session is looked up in the tables after the commit.
  unfoldable pub accepted_answer :
      Store
      → WorkspaceInvite
      → User
      → Workspace
      → (jti : String) → (now token_at : ℕ) → Result Handoff
  unfolding resolve_auth_context handoff
  accepted_answer s i user w jti now token_at = do
    c ← resolve_auth_context loads s.db user (some w.tenant_id) (some w.id)
    ok (handoff loads encode i c jti now token_at)

  unfoldable pub accept_invite :
      (lower : Text → Text)
      → Store
      → User
      → ℕ
      → (jti : String) → (now token_at new_tenant_id new_id : ℕ) → StoreRequest Handoff
  unfolding with_pending
  accept_invite lower s user invite_id jti now token_at new_tenant_id new_id =
      with_pending s invite_id now λ i. checked s (check_accept lower s.db user i) λ w.
        checked s (join_workspace s.db user w i now new_tenant_id new_id) λ db.
          let s' = joined s db i user w.tenant_id now in
          (
            accepted_answer s' (accepted user.id now i) (aligned w.tenant_id now user) w jti now
                token_at,
            s',
          )
