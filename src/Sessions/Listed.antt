-- ===== src/Sessions/Listed.antt =====
-- What a session lists after a message has been appended.
use fast_page.Prelude.{ℕ, ◌≡◌, ◌≢◌, Option, none, some, List, [], ◌∷◌, ◌++◌}
use fast_page.Access.Principal.{Principal}
use fast_page.Sessions.Models.{ChatMessage, SessionStore}
use fast_page.Sessions.Messages.{NewMessage, list_session_messages}

-- What `append_message` promises of the lists of messages, by the tables before, after, and its answer
pub record Appended (st st' : SessionStore) (n : NewMessage) (m : ChatMessage) : Type 0 where
  -- The messages of the session in the message's tenant and workspace
  pub listed :
      (before : List ChatMessage)
      → list_session_messages st none (some n.tenant_id) m.workspace_id n.session_id none
        ≡ some before
      → list_session_messages st' none (some n.tenant_id) m.workspace_id n.session_id none
        ≡ some (before ++ (m ∷ []))
  -- The last of them
  pub last :
      list_session_messages st' none (some n.tenant_id) m.workspace_id n.session_id (some 1)
      ≡ some (m ∷ [])
  -- Any list of another session
  pub others :
      (p : Option Principal) (t w : Option ℕ) (id : ℕ) (limit : Option ℕ)
      → n.session_id ≢ id
      → list_session_messages st' p t w id limit ≡ list_session_messages st p t w id limit
