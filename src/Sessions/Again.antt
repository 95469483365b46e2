-- ===== src/Sessions/Again.antt =====
-- A message that is sent again.
use fast_page.Prelude.{
  ℕ, ◌≡◌, refl, ap, ◌∙◌, Bool, true, false, Option, none, some, List, [], ◌∷◌, ◌++◌, arith, ◌==◌,
  keep, if◌then◌else◌, eq_refl,
}
use fast_page.Http.{Result, ok, err}
use fast_page.Chars.{Text}
use fast_page.Workspace.Queries.{first}
use fast_page.Sessions.Models.{ChatSession, ChatMessage, SessionStore}
use fast_page.Sessions.Messages.{
  NewMessage, get_session, in_tenant, session_of, is_turn, message_of_run, existing_message,
  new_message, touch, store_message, append_in, append_message,
}
use fast_page.Sessions.Orderly.{keep-append, first-none}

-- The change of a session's time keeps it in its tenant.
abbrev touched : ℕ → ℕ → ChatSession → ChatSession
touched id now s = if s.id == id then record s { updated_at = now } else s

abbrev tenant_found : Option ChatSession → ℕ → Bool
tenant_found none tenant_id = false
tenant_found (some s) tenant_id = s.tenant_id == tenant_id

abbrev at_id : ℕ → List ChatSession → Option ChatSession
at_id i ss = first (keep (λ (s : ChatSession). s.id == i) ss)

tenant_found-touch :
    (id i now tenant_id : ℕ) (ss : List ChatSession)
    → tenant_found (at_id i (touch id now ss)) tenant_id ≡ tenant_found (at_id i ss) tenant_id
unfolding touch
tenant_found-touch id i now tenant_id [] = refl
tenant_found-touch id i now tenant_id (x ∷ xs) =
    ground (arith, tenant_found-touch id i now tenant_id xs)

in_tenant-found :
    (o : Option ChatSession) (tenant_id : ℕ) {s : ChatSession}
    → in_tenant o tenant_id ≡ ok s
    → tenant_found o tenant_id ≡ true
in_tenant-found none tenant_id h = cc
in_tenant-found (some s) tenant_id h = ground arith

found-in_tenant :
    (o : Option ChatSession) (tenant_id : ℕ)
    → tenant_found o tenant_id ≡ true
    → (s : ChatSession) × (in_tenant o tenant_id ≡ ok s)
found-in_tenant none tenant_id h = cc
found-in_tenant (some s) tenant_id h = (s, ground arith)

first-append :
    {A : Type 0} (p : A → Bool) (xs : List A) (y : A)
    → first (keep p xs) ≡ none
    → p y ≡ true
    → first (keep p (xs ++ (y ∷ []))) ≡ some y
first-append p xs y e h = rw (keep-append p xs (y ∷ []), first-none (keep p xs) e, h) refl

-- A call for a message of a run, at the tables with the session that it is for
module _ (st : SessionStore) (s : ChatSession) (n : NewMessage) (run id now updated_at : ℕ)
    (of_run : n.run_id ≡ some run) where
  abbrev stored : Option ChatMessage → Result ChatMessage × SessionStore
  stored found = store_message st found (new_message st s n id now) updated_at

  -- There is a message of that run and role then, and the call answers with it.
  stored-found :
      (found : Option ChatMessage)
      → existing_message st n ≡ found
      → (m : ChatMessage) × ((stored found).0 ≡ ok m)
        × (message_of_run (stored found).1.messages n.session_id (some run) n.role ≡ some m)
  unfolding existing_message new_message
  stored-found (some m) e = (m, refl, rw of_run at e)
  stored-found none e =
      let m : ChatMessage = new_message st s n id now in
      let here : is_turn n.session_id run n.role m ≡ true =
        rw of_run (ground (arith, eq_refl n.role)) in
      (m, refl, first-append (is_turn n.session_id run n.role) st.messages m (rw of_run at e) here)

  stored-in_tenant :
      (found : Option ChatMessage)
      → session_of st n ≡ ok s
      → (t : ChatSession) × (in_tenant (at_id n.session_id (stored found).1.sessions) n.tenant_id
          ≡ ok t)
  unfolding session_of get_session new_message
  stored-in_tenant (some m) e = (s, e)
  stored-in_tenant none e =
      found-in_tenant (at_id n.session_id (touch n.session_id updated_at st.sessions)) n.tenant_id (
        tenant_found-touch n.session_id n.session_id updated_at n.tenant_id st.sessions
        ∙ in_tenant-found (at_id n.session_id st.sessions) n.tenant_id e)

-- A call at tables with the session and a message of the run changes nothing.
found_again :
    (st : SessionStore) (n : NewMessage) (run id now updated_at : ℕ) (s : ChatSession)
    (m : ChatMessage)
    → n.run_id ≡ some run
    → session_of st n ≡ ok s
    → message_of_run st.messages n.session_id (some run) n.role ≡ some m
    → append_message st n id now updated_at ≡ (ok m, st)
unfolding append_message existing_message
found_again st n run id now updated_at s m of_run e f = rw (e, of_run, f) refl

again_in :
    (st : SessionStore) (n : NewMessage) (run id now updated_at user_id id' now' updated_at' : ℕ)
    (content : Text) (r : Result ChatSession) (m : ChatMessage)
    → n.run_id ≡ some run
    → session_of st n ≡ r
    → (append_in st r n id now updated_at).0 ≡ ok m
    → append_message
        (append_in st r n id now updated_at).1
        (record n { user_id = user_id; content = content })
        id'
        now'
        updated_at'
      ≡ (ok m, (append_in st r n id now updated_at).1)
unfolding session_of get_session
again_in st n run id now updated_at user_id id' now' updated_at' content (err x) m of_run e h = cc
again_in st n run id now updated_at user_id id' now' updated_at' content (ok s) m of_run e h =
    let found : Option ChatMessage = existing_message st n in
    let (k, answer, there) = stored-found st s n run id now updated_at of_run found refl in
    let (t, inside) = stored-in_tenant st s n run id now updated_at of_run found e in
    let same : k ≡ m = cc in
    found_again (stored st s n run id now updated_at of_run found).1
      (record n { user_id = user_id; content = content }) run id' now' updated_at' t m of_run inside
      (there ∙ ap (λ (x : ChatMessage). some x) same)

-- A retry is harmless: where a message of a run has been appended, a second call for that run, role
-- and session, by whatever user and with whatever content, answers with the first message as it is and
-- changes no table.
pub append_message-again :
    (st : SessionStore) (n : NewMessage) (run id now updated_at user_id id' now' updated_at' : ℕ)
    (content : Text) (m : ChatMessage)
    → n.run_id ≡ some run
    → (append_message st n id now updated_at).0 ≡ ok m
    → append_message
        (append_message st n id now updated_at).1
        (record n { user_id = user_id; content = content })
        id'
        now'
        updated_at'
      ≡ (ok m, (append_message st n id now updated_at).1)
unfolding append_message
append_message-again st n run id now updated_at user_id id' now' updated_at' content m of_run h =
    again_in st n run id now updated_at user_id id' now' updated_at' content (session_of st n) m
      of_run refl h
