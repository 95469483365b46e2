-- ===== src/Sessions/Messages.antt =====
-- `append_message` and `list_session_messages`. Each call runs in one piece, as if in a transaction of
-- its own.
use fast_page.Prelude.{
  ℕ, zero, suc, ◌+◌, ◌-◌, String, Bool, not, ◌&&◌, Option, none, some, List, [], ◌∷◌, ◌++◌, ◌==◌,
  ltb, leb, keep, length, drop, str_eq, if◌then◌else◌,
}
use fast_page.Http.{Result, ok, err, raise}
use fast_page.Chars.{Text}
use fast_page.Access.Principal.{Principal}
use fast_page.Workspace.Queries.{first, is_none}
use fast_page.Sessions.Models.{ChatSession, ChatMessage, SessionStore}
use fast_page.Sessions.Scope.{is_id, sort, workspace_filter}

-- The keyword arguments of `append_message`
pub record NewMessage : Type 0 where
  pub session_id : ℕ
  pub tenant_id : ℕ
  pub user_id : ℕ
  pub role : String
  pub content : Text
  pub run_id : Option ℕ

-- `db.get(ChatSession, id)`
unfoldable pub get_session : SessionStore → ℕ → Option ChatSession
get_session st id = first (keep (λ s. s.id == id) st.sessions)

abbrev pub in_tenant : Option ChatSession → ℕ → Result ChatSession
in_tenant none tenant_id = raise 404 "Session not found"
in_tenant (some s) tenant_id =
    if not (s.tenant_id == tenant_id) then raise 404 "Session not found" else ok s

unfoldable pub session_of : SessionStore → NewMessage → Result ChatSession
unfolding get_session
session_of st n = in_tenant (get_session st n.session_id) n.tenant_id

abbrev pub is_turn : ℕ → ℕ → String → ChatMessage → Bool
is_turn session_id run_id role m =
    m.session_id == session_id && is_id m.run_id run_id && str_eq m.role role

abbrev pub message_of_run : List ChatMessage → ℕ → Option ℕ → String → Option ChatMessage
message_of_run ms session_id none role = none
message_of_run ms session_id (some run_id) role = first (keep (is_turn session_id run_id role) ms)

unfoldable pub existing_message : SessionStore → NewMessage → Option ChatMessage
existing_message st n = message_of_run st.messages n.session_id n.run_id n.role

-- `max(sequence_no) or 0`
unfoldable pub max_number : List ChatMessage → ℕ
max_number [] = 0
max_number (m ∷ ms) =
    let rest = max_number ms in if ltb rest m.sequence_no then m.sequence_no else rest

unfoldable pub next_sequence : SessionStore → ℕ → ℕ
unfolding max_number
next_sequence st session_id = max_number (keep (λ m. m.session_id == session_id) st.messages) + 1

unfoldable pub new_message : SessionStore → ChatSession → NewMessage → (id now : ℕ) → ChatMessage
unfolding next_sequence
new_message st s n id now = record {
  id = id;
  session_id = n.session_id;
  tenant_id = n.tenant_id;
  workspace_id = s.workspace_id;
  user_id = n.user_id;
  run_id = n.run_id;
  role = n.role;
  content = n.content;
  sequence_no = next_sequence st n.session_id;
  created_at = now;
}

-- `session.updated_at = datetime.utcnow()`
unfoldable pub touch : ℕ → ℕ → List ChatSession → List ChatSession
touch id now [] = []
touch id now (s ∷ ss) = (if s.id == id then record s { updated_at = now } else s) ∷ touch id now ss

abbrev pub store_message :
    SessionStore → Option ChatMessage → ChatMessage → ℕ → Result ChatMessage × SessionStore
store_message st (some existing) m updated_at = (ok existing, st)
store_message st none m updated_at = (
  ok m,
  record st {
    messages = st.messages ++ (m ∷ []);
    sessions = touch m.session_id updated_at st.sessions;
  },
)

abbrev pub append_in :
    SessionStore
    → Result ChatSession
    → NewMessage
    → (id now updated_at : ℕ) → Result ChatMessage × SessionStore
append_in st (err e) n id now updated_at = (err e, st)
append_in st (ok s) n id now updated_at =
    store_message st (existing_message st n) (new_message st s n id now) updated_at

unfoldable pub append_message :
    SessionStore → NewMessage → (id now updated_at : ℕ) → Result ChatMessage × SessionStore
unfolding session_of existing_message new_message touch
append_message st n id now updated_at = append_in st (session_of st n) n id now updated_at

-- `ChatMessage.workspace_id.is_(None)`, or the column equals a workspace
abbrev pub workspace_clause : Option ℕ → Option ℕ → Bool
workspace_clause none workspace_id = is_none workspace_id
workspace_clause (some w) workspace_id = is_id workspace_id w

-- `messages[-limit:]`, where a limit above zero is given
abbrev pub last_messages : Option ℕ → List ChatMessage → List ChatMessage
last_messages none ms = ms
last_messages (some zero) ms = ms
last_messages (some (suc k)) ms = drop (length ms - suc k) ms

unfoldable pub select_messages :
    SessionStore → ℕ → (ChatMessage → Bool) → Option ℕ → List ChatMessage
unfolding sort
select_messages st session_id clauses limit = last_messages limit (
    sort (λ m k. leb m.sequence_no k.sequence_no)
      (keep (λ m. m.session_id == session_id && clauses m) st.messages))

-- `none` is the `ValueError` of a call with no principal and no tenant.
unfoldable pub list_session_messages :
    SessionStore
    → Option Principal
    → (tenant_id workspace_id : Option ℕ) → (session_id : ℕ) → (limit : Option ℕ)
    → Option (List ChatMessage)
unfolding select_messages workspace_filter
list_session_messages st (some p) tenant_id workspace_id session_id limit = some (
    select_messages st session_id
      (λ m. m.tenant_id == p.tenant_id && workspace_filter st p m.workspace_id) limit)
list_session_messages st none none workspace_id session_id limit = none
list_session_messages st none (some t) workspace_id session_id limit = some (
    select_messages st session_id
      (λ m. m.tenant_id == t && workspace_clause workspace_id m.workspace_id) limit)
