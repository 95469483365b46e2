-- ===== src/Sessions/Models.antt =====
-- The rows of app/models/chat_session.py, and the tables that app/services/session_service.py reads
-- and writes. An id is never empty.
use fast_page.Prelude.{ℕ, String, Option, List}
use fast_page.Chars.{Text}
use fast_page.Access.Resources.{ChatSkill}
use fast_page.Workspace.Models.{Workspace}

pub record ChatSession : Type 0 where
  pub id : ℕ
  pub tenant_id : ℕ
  pub workspace_id : Option ℕ
  pub user_id : ℕ
  pub skill_id : Option ℕ
  pub active_run_id : Option ℕ
  pub title : Text
  pub created_at : ℕ
  pub updated_at : ℕ

pub record ChatMessage : Type 0 where
  pub id : ℕ
  pub session_id : ℕ
  pub tenant_id : ℕ
  pub workspace_id : Option ℕ
  pub user_id : ℕ
  pub run_id : Option ℕ
  pub role : String
  pub content : Text
  pub sequence_no : ℕ
  pub created_at : ℕ

pub record SessionStore : Type 0 where
  pub workspaces : List Workspace
  pub skills : List ChatSkill
  pub sessions : List ChatSession
  pub messages : List ChatMessage
