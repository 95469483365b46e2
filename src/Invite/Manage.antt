-- ===== src/Invite/Manage.antt =====
-- `list_workspace_invites`, `create_workspace_invite`, `revoke_workspace_invite` and
-- `preview_workspace_invite`. Each reading of the clock is an argument.
use Prim.Native.String.{◌++◌ as str_append}
use fast_page.Prelude.{
  ℕ, ◌+◌, String, Bool, not, ◌&&◌, ◌||◌, Option, none, some, List, [], ◌∷◌, ◌++◌, leb, ltb, ◌==◌,
  keep, map, str_eq, if◌then◌else◌,
}
use fast_page.Prelude.Dict.{Dict}
use fast_page.Json.{Json}
use fast_page.Http.{Result, ok, raise, ◌>>=◌, ◌>>◌}
use fast_page.Chars.{Text}
use fast_page.Access.Override.{json_text, parse_override, dump_override}
use fast_page.Access.Principal.{Principal, user_id}
use fast_page.Workspace.Models.{Workspace}
use fast_page.Workspace.Queries.{first}
use fast_page.Workspace.Guards.{or_404}
use fast_page.Invite.Models.{
  WorkspaceInvite, Store, StoreRequest, checked, set_invite, effective_status, is_pending_for,
  pending_unique, expired,
}
use fast_page.Invite.Emails.{normalize_email}
use fast_page.Invite.Guards.{
  get_workspace_for_invites, require_invite_management, assert_invite_role_allowed,
  assert_revoke_role_allowed,
}

pub record InviteOut : Type 0 where
  pub id : ℕ
  pub workspace_id : ℕ
  pub email : Text
  pub role : String
  pub status : String
  pub permissions_override : Dict Bool
  pub invited_by : ℕ
  pub accepted_user_id : Option ℕ
  pub expires_at : ℕ
  pub accepted_at : Option ℕ
  pub revoked_at : Option ℕ
  pub created_at : ℕ
  pub updated_at : ℕ

unfoldable pub serialize_invite :
    (loads : String → Option Json) → WorkspaceInvite → (now : ℕ) → InviteOut
unfolding effective_status
serialize_invite loads i now = record {
  id = i.id;
  workspace_id = i.workspace_id;
  email = i.email;
  role = i.role;
  status = effective_status i now;
  permissions_override = parse_override loads (json_text i.permissions_override_json);
  invited_by = i.invited_by;
  accepted_user_id = i.accepted_user_id;
  expires_at = i.expires_at;
  accepted_at = i.accepted_at;
  revoked_at = i.revoked_at;
  created_at = i.created_at;
  updated_at = i.updated_at;
}

-- `ORDER BY created_at DESC, id`
abbrev newer : WorkspaceInvite → WorkspaceInvite → Bool
newer i j = ltb j.created_at i.created_at || i.created_at == j.created_at && ltb i.id j.id

unfoldable pub insert_newer : WorkspaceInvite → List WorkspaceInvite → List WorkspaceInvite
insert_newer i [] = i ∷ []
insert_newer i (j ∷ js) = let rest = insert_newer i js in if newer j i then j ∷ rest else i ∷ j ∷ js

unfoldable pub newest_first : List WorkspaceInvite → List WorkspaceInvite
newest_first [] = []
newest_first (i ∷ is) = insert_newer i (newest_first is)

unfoldable pub list_invites :
    (loads : String → Option Json) → Store → Principal → ℕ → (now : ℕ) → Result (List InviteOut)
unfolding get_workspace_for_invites require_invite_management newest_first
list_invites loads s p workspace_id now = do
  w ← get_workspace_for_invites s.db p workspace_id
  require_invite_management p
  ok (
      map (λ i. serialize_invite loads i now)
        (newest_first (keep (λ i. i.workspace_id == w.id) s.invites)))

pub record InviteCreate : Type 0 where
  pub email : Text
  pub role : String
  pub permissions_override : Option Json
  pub expires_at : Option ℕ

-- Seven days
abbrev pub default_ttl : ℕ
default_ttl = 604800

abbrev pub or_default_expiry : Option ℕ → ℕ → ℕ
or_default_expiry none now = now + default_ttl
or_default_expiry (some at) now = at

abbrev pub new_invite :
    Principal
    → (id workspace_id : ℕ) → Text
    → String
    → String
    → (expires_at now : ℕ) → WorkspaceInvite
new_invite p id workspace_id email role override_json expires_at now = record {
  id = id;
  workspace_id = workspace_id;
  email = email;
  role = role;
  permissions_override_json = override_json;
  status = "pending";
  invited_by = user_id p;
  accepted_user_id = none;
  expires_at = expires_at;
  accepted_at = none;
  revoked_at = none;
  created_at = now;
  updated_at = now;
}

abbrev or_invalid_email : Option Text → Result Text
or_invalid_email none = raise 400 "Invalid email address"
or_invalid_email (some email) = ok email

-- The checks of `create_workspace_invite` before it looks for a pending invite
unfoldable pub check_invite :
    (lower : Text → Text)
    → (dumps : Dict Bool → String) → Store
    → Principal
    → ℕ
    → InviteCreate
    → Result (Workspace × Text × String)
check_invite lower dumps s p workspace_id payload = do
  w ← get_workspace_for_invites s.db p workspace_id
  require_invite_management p
  assert_invite_role_allowed p payload.role
  email ← or_invalid_email (normalize_email lower (some payload.email))
  override_json ← dump_override dumps payload.permissions_override payload.role
  ok (w, email, override_json)

abbrev duplicate {ℓ} : {A : Type ℓ} → Result A
duplicate = raise 409 "A pending invite already exists for this email in this workspace"

-- A pending invite that has expired is written as expired and does not block; the new one is then
-- in the same commit.
unfoldable pub clear_pending : Option WorkspaceInvite → (checked_at : ℕ) → Store → Result Store
clear_pending none checked_at s = ok s
clear_pending (some i) checked_at s =
    if leb i.expires_at checked_at then ok (set_invite i.id (expired checked_at) s) else duplicate

abbrev pub add_invite : WorkspaceInvite → Store → Store
add_invite i s = record s { invites = s.invites ++ (i ∷ []) }

module _ (loads : String → Option Json) where
  unfoldable pub create_invite :
      (lower : Text → Text)
      → (dumps : Dict Bool → String) → Store
      → Principal
      → ℕ
      → InviteCreate
      → (checked_at ttl_from now answered_at new_id : ℕ) → StoreRequest InviteOut
  create_invite lower dumps s p workspace_id payload checked_at ttl_from now answered_at new_id =
      checked s (check_invite lower dumps s p workspace_id payload) λ (w, email, override_json).
        checked s (clear_pending (first (keep (is_pending_for w.id email) s.invites)) checked_at s)
          λ s'.
            let i =
              new_invite p new_id w.id email payload.role override_json
                (or_default_expiry payload.expires_at ttl_from) now in
            if not (pending_unique (add_invite i s').invites)
            then (duplicate, s)
            else (ok (serialize_invite loads i answered_at), add_invite i s')

-- `revoke_workspace_invite` up to the invite's status
unfoldable pub find_revocable : Store → Principal → ℕ → ℕ → Result WorkspaceInvite
find_revocable s p workspace_id invite_id = do
  w ← get_workspace_for_invites s.db p workspace_id
  require_invite_management p
  i ←
      or_404 (first (keep (λ i. i.id == invite_id && i.workspace_id == w.id) s.invites))
        "Invite not found"
  assert_revoke_role_allowed p i
  ok i

abbrev pub revoked : ℕ → WorkspaceInvite → WorkspaceInvite
revoked now i = record i { status = "revoked"; revoked_at = some now; updated_at = now }

module _ (loads : String → Option Json) where
  unfoldable pub revoke_invite : Store → Principal → ℕ → ℕ → (now : ℕ) → StoreRequest InviteOut
  revoke_invite s p workspace_id invite_id now =
      checked s (find_revocable s p workspace_id invite_id) λ i.
        let status = effective_status i now in
        if str_eq status "accepted"
        then (raise 409 "Accepted invites cannot be revoked", s)
        else if str_eq status "revoked"
        then (raise 409 "Invite is already revoked", s)
        else if str_eq status "expired"
        then (
          raise 409 "Invite has already expired and cannot be revoked",
          set_invite i.id (expired now) s,
        )
        else if not (str_eq status "pending")
        then (raise 409 (str_append (str_append "Invite cannot be revoked (status=" status) ")"), s)
        else (ok (serialize_invite loads (revoked now i) now), set_invite i.id (revoked now) s)
