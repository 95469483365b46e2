-- ===== src/Invite/Preview.antt =====
-- `preview_workspace_invite`, which asks for no session.
use fast_page.Prelude.{
  ℕ, String, Bool, true, false, not, Option, none, some, [], str_eq, if◌then◌else◌,
}
use fast_page.Chars.{Text, codes}
use fast_page.Access.Principal.{User}
use fast_page.Workspace.Models.{Workspace}
use fast_page.Workspace.Queries.{get_workspace}
use fast_page.Workspace.Guards.{get_user}
use fast_page.Invite.Models.{WorkspaceInvite, Store, get_invite, effective_status}
use fast_page.Invite.Emails.{mask_email}

pub record Preview : Type 0 where
  pub valid : Bool
  pub workspace_name : Text
  pub role : String
  pub inviter_username : Text
  pub email_masked : Text

abbrev pub invalid_preview : Preview
invalid_preview = record {
  valid = false;
  workspace_name = [];
  role = "";
  inviter_username = [];
  email_masked = [];
}

abbrev name_of : Option Workspace → Text
name_of none = codes "Unknown workspace"
name_of (some w) = w.name

abbrev username_of : Option User → Text
username_of none = codes "Unknown"
username_of (some u) = u.username

unfoldable pub preview_found : Store → Option WorkspaceInvite → (now : ℕ) → Preview
unfolding effective_status get_workspace get_user mask_email
preview_found s none now = invalid_preview
preview_found s (some i) now =
    if not (str_eq (effective_status i now) "pending") then invalid_preview else record {
      valid = true;
      workspace_name = name_of (get_workspace s.db i.workspace_id);
      role = i.role;
      inviter_username = username_of (get_user s.db i.invited_by);
      email_masked = mask_email i.email;
    }

unfoldable pub preview_invite : Store → ℕ → (now : ℕ) → Preview
unfolding preview_found get_invite
preview_invite s invite_id now = preview_found s (get_invite s invite_id) now
