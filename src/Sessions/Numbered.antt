-- ===== src/Sessions/Numbered.antt =====
-- The numbers of a session's messages, and retries: what holds in any store that calls of the service
-- lead to.
use fast_page.Prelude.{ℕ, ◌≡◌, refl, sym, subst, Option, none, some, []}
use fast_page.Http.{Result, ok, err}
use fast_page.Chars.{Text}
use fast_page.Access.Principal.{Principal}
use fast_page.Sessions.Models.{ChatSession, ChatMessage, SessionStore}
use fast_page.Sessions.Scope.{create_session, check_new_session, new_session, store_session}
use fast_page.Sessions.Messages.{
  NewMessage, session_of, existing_message, new_message, store_message, append_in, append_message,
}
use fast_page.Sessions.Orderly.{IsOrderly, message_of_run-none, append-IsOrderly}

module _ (st : SessionStore) (o : IsOrderly st.messages) where
  store_message-IsOrderly :
      (s : ChatSession) (n : NewMessage) (found : Option ChatMessage) (id now updated_at : ℕ)
      → existing_message st n ≡ found
      → IsOrderly (store_message st found (new_message st s n id now) updated_at).1.messages
  unfolding existing_message new_message
  store_message-IsOrderly s n (some m) id now updated_at e = o
  store_message-IsOrderly s n none id now updated_at e =
      append-IsOrderly st (new_message st s n id now) refl
        (message_of_run-none st.messages (new_message st s n id now) n.run_id refl e) o

  append_in-IsOrderly :
      (r : Result ChatSession) (n : NewMessage) (id now updated_at : ℕ)
      → IsOrderly (append_in st r n id now updated_at).1.messages
  append_in-IsOrderly (err e) n id now updated_at = o
  append_in-IsOrderly (ok s) n id now updated_at =
      store_message-IsOrderly s n (existing_message st n) id now updated_at refl

  append_message-IsOrderly :
      (n : NewMessage) (id now updated_at : ℕ)
      → IsOrderly (append_message st n id now updated_at).1.messages
  unfolding append_message
  append_message-IsOrderly n = append_in-IsOrderly (session_of st n) n

  store_session-IsOrderly :
      (check : Result (Unit {0})) (s : ChatSession)
      → IsOrderly (store_session st check s).1.messages
  store_session-IsOrderly (err e) s = o
  store_session-IsOrderly (ok done) s = o

-- What calls of the service make of its tables. The other tables, and the sessions, may change in
-- between; nothing else writes messages.
pub data SessionStep : SessionStore → SessionStore → Type 0 where
  elsewhere : {st st' : SessionStore} → st'.messages ≡ st.messages → SessionStep st st'
  creates :
      {st : SessionStore} (p : Principal) (title : Option Text) (skill_id : Option ℕ) (id now : ℕ)
      → SessionStep st (create_session st p title skill_id id now).1
  appends :
      {st : SessionStore} (n : NewMessage) (id now updated_at : ℕ)
      → SessionStep st (append_message st n id now updated_at).1

pub data SessionReach (st : SessionStore) : SessionStore → Type 0 where
  here : SessionReach st st
  next : {t u : SessionStore} → SessionReach st t → SessionStep t u → SessionReach st u

SessionStep-IsOrderly :
    {st st' : SessionStore} → SessionStep st st' → IsOrderly st.messages → IsOrderly st'.messages
unfolding create_session
SessionStep-IsOrderly (elsewhere {st = a} {st' = b} e) o = subst IsOrderly (sym e) o
SessionStep-IsOrderly (creates {st = a} p title skill_id id now) o =
    store_session-IsOrderly a o (check_new_session a p skill_id)
      (new_session p title skill_id id now)
SessionStep-IsOrderly (appends {st = a} n id now updated_at) o =
    append_message-IsOrderly a o n id now updated_at

-- Whatever calls create sessions and append messages, in whatever order and with whatever retries,
-- and however the tables other than that of the messages change in between: in each session the
-- messages stand in the order of the calls and are numbered 1, 2, 3 and so on without a gap, and no
-- two messages of a session are of one run and role, if the store started so, as an empty one does.
pub SessionReach-IsOrderly :
    {st st' : SessionStore} → IsOrderly st.messages → SessionReach st st' → IsOrderly st'.messages
SessionReach-IsOrderly o here = o
SessionReach-IsOrderly o (next r step) = SessionStep-IsOrderly step (SessionReach-IsOrderly o r)

pub empty-IsOrderly : IsOrderly []
empty-IsOrderly = record { numbered = λ id. tt; once = tt }
