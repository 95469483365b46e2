-- ===== src/Sessions/Examples.antt =====
-- The theorems about chat sessions at a workspace with one skill.
use fast_page.Prelude.{◌≡◌, refl, ap, true, false, none, some, [], ◌∷◌}
use fast_page.Http.{Result, ok}
use fast_page.Chars.{codes, strip, is_space}
use fast_page.Access.Principal.{Principal, require_capability}
use fast_page.Prelude.Dict.{lookup}
use fast_page.Access.Resources.{ChatSkill, can_read_skill, workspace_matches, assert_can_read_skill}
use fast_page.Workspace.Models.{Workspace}
use fast_page.Sessions.Models.{ChatSession, ChatMessage, SessionStore}
use fast_page.Sessions.Scope.{
  new_session, create_session, get_skill_session_or_404, get_skill_or_404, validate_skill_scope,
}
use fast_page.Sessions.Messages.{NewMessage, append_message}
use fast_page.Sessions.Orderly.{IsOrderly}
use fast_page.Sessions.Numbered.{
  here, next, appends, creates, SessionReach-IsOrderly, empty-IsOrderly,
}
use fast_page.Sessions.Again.{append_message-again}
use fast_page.Sessions.Visible.{IsReadable, IsVisible, get_skill_session_or_404-IsVisible}
use fast_page.Sessions.Made.{Made, create_session-Made}

abbrev main : Workspace
main = record {
  id = 10;
  tenant_id = 1;
  name = codes "Main";
  slug = codes "main";
  status = "active";
  is_default = true;
  created_by = some 7;
  default_provider_id = none;
  archived_at = none;
  archived_by = none;
  created_at = 90;
  updated_at = 90;
}

abbrev user : Principal
user = record {
  kind = "session";
  tenant_id = 1;
  workspace_id = 10;
  tenant_membership_role = "member";
  tenant_membership_status = "active";
  workspace_membership_role = "member";
  workspace_membership_status = "active";
  workspace_permissions = ("can_run_skills", true) ∷ [];
  user = record {
    id = 7;
    tenant_id = 1;
    username = codes "u";
    email = none;
    password_hash = [];
    can_create_workspace = false;
    is_platform_admin = false;
    must_change_password = false;
    is_active = true;
    created_at = 90;
    updated_at = 90;
  };
  api_key = none;
  workspace_membership_id = some 70;
}

abbrev skill : ChatSkill
skill = record {
  id = 3;
  tenant_id = 1;
  workspace_id = some 10;
  owner_user_id = 8;
  visibility = some "workspace_read";
}

abbrev tables : SessionStore
tables = record { workspaces = main ∷ []; skills = skill ∷ []; sessions = []; messages = [] }

abbrev chat : ChatSession
chat = new_session user (some (codes "  ")) (some 3) 20 100

abbrev with_chat : SessionStore
with_chat = record tables { sessions = chat ∷ [] }

abbrev question : NewMessage
question = record {
  session_id = 20;
  tenant_id = 1;
  user_id = 7;
  role = "user";
  content = codes "Why?";
  run_id = some 5;
}

abbrev asked : ChatMessage
asked = record {
  id = 30;
  session_id = 20;
  tenant_id = 1;
  workspace_id = some 10;
  user_id = 7;
  run_id = some 5;
  role = "user";
  content = codes "Why?";
  sequence_no = 1;
  created_at = 101;
}

created : create_session tables user (some (codes "  ")) (some 3) 20 100 ≡ (ok chat, with_chat)
unfolding create_session get_skill_or_404 validate_skill_scope require_capability lookup
    can_read_skill workspace_matches assert_can_read_skill
created = refl

titled : chat.title ≡ codes "New Chat Session"
unfolding new_session strip is_space
titled = refl

appended : (append_message with_chat question 30 101 102).0 ≡ ok asked
unfolding append_message new_session
appended = refl

answered : get_skill_session_or_404 with_chat user 3 20 ≡ ok chat
unfolding get_skill_session_or_404 new_session can_read_skill workspace_matches
    assert_can_read_skill
answered = refl

append_message-again_example :
    append_message
      (append_message with_chat question 30 101 102).1
      (record question { user_id = 8; content = codes "Again" })
      31
      103
      104
    ≡ (ok asked, (append_message with_chat question 30 101 102).1)
append_message-again_example =
    append_message-again with_chat question 5 30 101 102 8 31 103 104 (codes "Again") asked refl
      appended

get_skill_session_or_404-IsVisible_example :
    IsVisible with_chat user chat
    × (chat.id ≡ 20)
    × (chat.skill_id ≡ some 3)
    × IsReadable with_chat user 3
get_skill_session_or_404-IsVisible_example =
    get_skill_session_or_404-IsVisible with_chat user 3 20 chat answered

create_session-Made_example :
    Made tables
      (create_session tables user (some (codes "  ")) (some 3) 20 100).1
      user
      (some 3)
      chat
create_session-Made_example =
    create_session-Made tables user (some (codes "  ")) (some 3) 20 100 chat tt
      (ap (λ (r : Result ChatSession × SessionStore). r.0) created)

SessionReach-IsOrderly_example :
    IsOrderly
      (append_message
        (create_session tables user none none 20 100).1
        question
        30
        101
        102).1.messages
SessionReach-IsOrderly_example =
    SessionReach-IsOrderly empty-IsOrderly
      (next (next here (creates user none none 20 100)) (appends question 30 101 102))
