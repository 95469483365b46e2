-- ===== src/Invite/Examples.antt =====
-- The theorems about invites at a small table, and test runs.
use fast_page.Prelude.{
  Has, ℕ, ◌+◌, ◌≡◌, refl, inl, inr, String, Bool, true, false, ◌&&◌, Option, none, some, [], ◌∷◌,
  map, arith, leb, if◌then◌else◌,
}
use fast_page.Prelude.Dict.{Dict, lookup}
use fast_page.Json.{Json}
use fast_page.Http.{Result, ok, raise}
use fast_page.Chars.{Text, codes, is_space, text_eq}
use fast_page.Access.Principal.{Principal, User}
use fast_page.Auth.{Claims}
use fast_page.Workspace.Models.{Workspace, WorkspaceMembership}
use fast_page.Workspace.Queries.{get_workspace, get_workspace_or_404, is_workspace_archived}
use fast_page.Workspace.Founder.{has_founder, founders_unique}
use fast_page.Workspace.Count.{founder_count}
use fast_page.Invite.Models.{
  WorkspaceInvite, Store, write_invite, get_invite, effective_status, pending_unique,
}
use fast_page.Invite.Emails.{normalize_email, mask_email}
use fast_page.Invite.Manage.{revoke_invite, revoked, find_revocable}
use fast_page.Invite.Guards.{
  get_workspace_for_invites, require_invite_management, assert_revoke_role_allowed,
}
use fast_page.Invite.Claim.{claim_invite, claim_user, find_by_email, has_password, free_username}
use fast_page.Invite.Preview.{preview_invite}
use fast_page.Invite.Join.{Handoff, accepted, invite_workspace}
use fast_page.Invite.Accept.{accept_invite}
use fast_page.Invite.Steps.{
  IsStoreSound, start, then_request, revokes_invite, InviteReach-IsStoreSound, InviteReach-settled,
}
use fast_page.Invite.Accepted.{MayAccept, IsSession}
use fast_page.Invite.Session.{accept_invite-IsSession}
use fast_page.Invite.Addressed.{IsAddressed, accept_invite-IsAddressed}

abbrev user : ℕ → Text → User
user id email = record {
  id = id;
  tenant_id = 4;
  username = b'u' ∷ [];
  email = some email;
  password_hash = b'h' ∷ [];
  can_create_workspace = false;
  is_platform_admin = false;
  must_change_password = false;
  is_active = true;
  created_at = 90;
  updated_at = 90;
}

abbrev carol : User
carol = user 3 (codes "c@x.org")

abbrev lab : Workspace
lab = record {
  id = 10;
  tenant_id = 5;
  name = b'L' ∷ [];
  slug = b'l' ∷ [];
  status = "active";
  is_default = false;
  created_by = some 1;
  default_provider_id = none;
  archived_at = none;
  archived_by = none;
  created_at = 100;
  updated_at = 100;
}

abbrev member : ℕ → ℕ → String → String → WorkspaceMembership
member id user role status = record {
  id = id;
  workspace_id = 10;
  user_id = user;
  role = role;
  status = status;
  permissions_override_json = "{}";
  created_by = none;
  created_at = 100;
  updated_at = 100;
}

abbrev invite : ℕ → Text → String → WorkspaceInvite
invite id email role = record {
  id = id;
  workspace_id = 10;
  email = email;
  role = role;
  permissions_override_json = "{}";
  status = "pending";
  invited_by = 1;
  accepted_user_id = none;
  expires_at = 500;
  accepted_at = none;
  revoked_at = none;
  created_at = 110;
  updated_at = 110;
}

abbrev carols : WorkspaceInvite
carols = invite 40 (codes "c@x.org") "member"

abbrev withdrawn : WorkspaceInvite
withdrawn = revoked 115 (invite 41 (codes "d@x.org") "guest")

-- Carol was a member once, and was removed.
abbrev store : Store
store = record {
  db = record {
    workspaces = lab ∷ [];
    memberships = member 20 1 "founder" "active" ∷ member 21 3 "admin" "removed" ∷ [];
    tenant_memberships = [];
    users = user 1 (codes "a@x.org") ∷ carol ∷ [];
  };
  invites = carols ∷ withdrawn ∷ [];
}

abbrev as_founder : Principal
as_founder = record {
  kind = "session";
  tenant_id = 5;
  workspace_id = 10;
  tenant_membership_role = "member";
  tenant_membership_status = "active";
  workspace_membership_role = "founder";
  workspace_membership_status = "active";
  workspace_permissions = ("can_manage_invites", true) ∷ [];
  user = user 1 (codes "a@x.org");
  api_key = none;
  workspace_membership_id = some 20;
}

abbrev no_json : String → Option Json
no_json t = none

abbrev empty_object : Dict Bool → String
empty_object d = "{}"

abbrev encode : Claims → String
encode c = c.jti

abbrev hash : Text → Text
hash password = b'$' ∷ password

abbrev ascii_lower : Text → Text
ascii_lower = map (λ c. if leb b'A' c && leb c b'Z' then c + 32 else c)

masks :
    (mask_email (codes "carol@x.org") ≡ codes "c***@x.org")
    × (mask_email (codes "c@x") ≡ codes "*@x")
unfolding mask_email
masks = (refl, refl)

-- The preview shows what is pending, until its time.
previews :
    ((preview_invite store 40 499).valid ≡ true)
    × ((preview_invite store 40 500).valid ≡ false)
    × ((preview_invite store 41 120).valid ≡ false)
unfolding preview_invite
previews = (refl, refl, refl)

store-IsStoreSound : IsStoreSound store
unfolding founder_count founders_unique has_founder pending_unique text_eq
store-IsStoreSound = (
  (((λ e. absurd (omega arith), tt), (tt, tt)), refl, (refl, tt)),
  record {
    keyed = ((λ e. absurd (omega arith), tt), (tt, tt));
    unique = refl;
    proper = (
      record { accepted_by = refl; accepted_when = refl; revoked_when = refl; invites_role = refl },
      (
        record {
          accepted_by = refl;
          accepted_when = refl;
          revoked_when = refl;
          invites_role = refl;
        },
        tt,
      ),
    );
  },
)

-- The founder withdraws Carol's invite.
abbrev after_revoke : Store
after_revoke = (revoke_invite no_json store as_founder 10 40 120).1

withdraws : after_revoke.invites ≡ revoked 120 carols ∷ withdrawn ∷ []
unfolding revoke_invite find_revocable effective_status get_workspace_for_invites
    get_workspace_or_404 require_invite_management lookup assert_revoke_role_allowed
withdraws = refl

InviteReach-IsStoreSound_example : IsStoreSound after_revoke
InviteReach-IsStoreSound_example =
    InviteReach-IsStoreSound no_json empty_object ascii_lower encode hash
      (then_request start (revokes_invite as_founder 10 40 120)) store-IsStoreSound

InviteReach-settled_example : Has withdrawn after_revoke.invites
InviteReach-settled_example =
    InviteReach-settled no_json empty_object ascii_lower encode hash withdrawn
      (then_request start (revokes_invite as_founder 10 40 120)) store-IsStoreSound (inr refl)
      (inr (inl refl))

carol_may : MayAccept ascii_lower store carol 40 120 carols lab (codes "c@x.org")
unfolding get_invite get_workspace is_workspace_archived normalize_email text_eq is_space
carol_may = record {
  found = refl;
  pending = refl;
  in_time = refl;
  of_workspace = refl;
  workspace_active = refl;
  unarchived = refl;
  users_email = refl;
  addressed = refl;
  role_allowed = refl;
  no_member = (λ w u. absurd (omega arith), (λ w u. refl, tt));
}

abbrev carol_accepts : Result Handoff × Store
carol_accepts = accept_invite no_json encode ascii_lower store carol 40 "j" 120 121 60 61

accept_invite-IsSession_example :
    (h : Handoff) × (carol_accepts.0 ≡ ok h)
    × (h.workspace ≡ lab)
    × IsSession 3 carols lab h.tenant_membership h.workspace_membership
    × (carol_accepts.1.invites ≡ write_invite 40 (accepted 3 120) store.invites)
accept_invite-IsSession_example =
    accept_invite-IsSession ascii_lower store carol 40 120 carols lab (codes "c@x.org") carol_may 60
      61 no_json encode "j" 121

carol_accepted : (h : Handoff) × (carol_accepts.0 ≡ ok h)
carol_accepted =
    let (h, done, _, _, _) =
      accept_invite-IsSession ascii_lower store carol 40 120 carols lab (codes "c@x.org") carol_may
        60 61 no_json encode "j" 121 in
    (h, done)

accept_invite-IsAddressed_example :
    (i : WorkspaceInvite) × (w : Workspace) × (email : Text) × IsAddressed ascii_lower store carol
      40 120 i w email
accept_invite-IsAddressed_example =
    accept_invite-IsAddressed no_json encode ascii_lower store carol 40 "j" 120 121 60 61
      (carol_accepted.1)

-- Carol has a password, so that her invite cannot be claimed; Dan's makes him a user.
carol_claims :
    (claim_invite no_json encode hash store 40 (codes "pw") none (codes "f") "j" 120 121 70 60 61).0
    ≡ raise 400
        "This email already has an account with a password. Please log in and accept the invite from your dashboard."
unfolding claim_invite has_password invite_workspace get_workspace claim_user text_eq
carol_claims = refl

dan_is_new :
    (find_by_email store.db (codes "d@x.org") ≡ none)
    × (free_username store.db none (codes "u@x.org") (codes "f") ≡ codes "u_f")
unfolding free_username text_eq
dan_is_new = (refl, refl)
