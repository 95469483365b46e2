-- ===== src/Invite/Addressed.antt =====
-- Nobody joins a workspace by an invite that is not theirs.
use fast_page.Prelude.{
  ℕ, ◌≡◌, refl, inl, inr, String, true, false, Option, some, arith, Bool-cases, Option-cases,
  str_eq, leb,
}
use fast_page.Json.{Json}
use fast_page.Http.{HttpException, Result, ok, err}
use fast_page.Chars.{Text, text_eq}
use fast_page.Access.Roles.{is_in}
use fast_page.Access.Principal.{User}
use fast_page.Auth.{Claims}
use fast_page.Workspace.Models.{Workspace, Db}
use fast_page.Workspace.Queries.{is_workspace_archived, get_workspace}
use fast_page.Workspace.Guards.{or_404}
use fast_page.Workspace.MemberFounders.{or_404-eq-ok}
use fast_page.Invite.Models.{
  WorkspaceInvite, Store, StoreRequest, checked, get_invite, effective_status,
}
use fast_page.Invite.Emails.{normalize_email}
use fast_page.Invite.Guards.{check_pending, invite_roles}
use fast_page.Invite.Join.{Handoff, with_pending, invite_workspace}
use fast_page.Invite.Accept.{check_accept, accept_invite}
use fast_page.Invite.Requests.{check_pending-IsPendingAt}

-- The invite is pending and in time, for a role that it may give, to the user's own email, and its
-- workspace is open.
pub record IsAddressed (lower : Text → Text) (s : Store) (user : User) (id now : ℕ)
    (i : WorkspaceInvite) (w : Workspace) (email : Text) : Type 0 where
  pub found : get_invite s id ≡ some i
  pub pending : i.status ≡ "pending"
  pub in_time : leb i.expires_at now ≡ false
  pub of_workspace : get_workspace s.db i.workspace_id ≡ some w
  pub workspace_active : str_eq w.status "active" ≡ true
  pub unarchived : is_workspace_archived w ≡ false
  pub users_email : normalize_email lower user.email ≡ some email
  pub addressed : text_eq email i.email ≡ true
  pub role_allowed : is_in i.role invite_roles ≡ true

checked-eq-ok :
    {A B : Type 0} (s : Store) (r : Result B) (f : B → StoreRequest A) {a : A}
    → (checked s r f).0 ≡ ok a
    → (b : B) × (r ≡ ok b) × ((f b).0 ≡ ok a)
checked-eq-ok s (ok b) f h = (b, refl, h)
checked-eq-ok s (err e) f h = cc

err_ne_ok : {A : Type 0} {a : A} {e : HttpException} → err e ≡ ok a → ⊥
err_ne_ok h = cc

with_pending-eq-ok :
    {A : Type 0} (s : Store) (id now : ℕ) (next : WorkspaceInvite → StoreRequest A) {a : A}
    → (with_pending s id now next).0 ≡ ok a
    → (i : WorkspaceInvite) × (get_invite s id ≡ some i)
      × (i.status ≡ "pending")
      × (leb i.expires_at now ≡ false)
      × ((next i).0 ≡ ok a)
unfolding with_pending
with_pending-eq-ok s id now next h =
    let (i, found, rest) = checked-eq-ok s (or_404 (get_invite s id) "Invite not found") _ h in
    elim (Bool-cases (str_eq (effective_status i now) "expired")) [
      | inl e ↦ absurd (err_ne_ok (rw e at rest))
      | inr e ↦
          let (t, passed, go) =
            checked-eq-ok s (check_pending (effective_status i now)) _ (rw e at rest) in
          let (pending, in_time) = check_pending-IsPendingAt i now passed in
          (i, or_404-eq-ok (get_invite s id) "Invite not found" found, pending, in_time, go)
    ]

check_accept-eq-ok :
    (lower : Text → Text) (db : Db) (user : User) (i : WorkspaceInvite) {w : Workspace}
    → check_accept lower db user i ≡ ok w
    → (get_workspace db i.workspace_id ≡ some w)
      × (str_eq w.status "active" ≡ true)
      × (is_workspace_archived w ≡ false)
      × ((email : Text) × (normalize_email lower user.email ≡ some email)
          × (text_eq email i.email ≡ true))
      × (is_in i.role invite_roles ≡ true)
unfolding check_accept invite_workspace
check_accept-eq-ok lower db user i {w} h = elim (Option-cases (normalize_email lower user.email)) [
  | inl no_email ↦ ground arith
  | inr (email, e) ↦
      (ground arith, ground arith, ground arith, (email, e, ground arith), ground arith)
]

-- Who accepts an invite with success is the one it was sent to: it was pending and not past its
-- time, for a role that an invite may give, its workspace was active and not archived, and its email
-- was the normal form of the user's email.
pub accept_invite-IsAddressed :
    (loads : String → Option Json) (encode : Claims → String) (lower : Text → Text) (s : Store)
    (user : User) (id : ℕ) (jti : String) (now token_at new_tenant_id new_id : ℕ) {h : Handoff}
    → (accept_invite loads encode lower s user id jti now token_at new_tenant_id new_id).0 ≡ ok h
    → (i : WorkspaceInvite) × (w : Workspace) × (email : Text) × IsAddressed lower s user id now i w
        email
unfolding accept_invite
accept_invite-IsAddressed loads encode lower s user id jti now token_at new_tenant_id new_id done =
    let (i, found, pending, in_time, go) = with_pending-eq-ok s id now _ done in
    let (w, passed, _) = checked-eq-ok s (check_accept lower s.db user i) _ go in
    let (of_workspace, active, unarchived, (email, users, addressed), role) =
      check_accept-eq-ok lower s.db user i passed in
    (
      i,
      w,
      email,
      record {
        found = found;
        pending = pending;
        in_time = in_time;
        of_workspace = of_workspace;
        workspace_active = active;
        unarchived = unarchived;
        users_email = users;
        addressed = addressed;
        role_allowed = role;
      },
    )
