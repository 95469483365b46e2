-- ===== src/Sessions/Scope.antt =====
-- Which sessions a principal sees, and a new session. `get_skill_or_404` is that of
-- app/services/skill_service.py for a principal, whose workspace is never `None`.
use fast_page.Prelude.{
  ℕ, Bool, false, not, ◌&&◌, ◌||◌, Option, none, some, List, [], ◌∷◌, ◌++◌, ◌==◌, leb, keep, any,
  if◌then◌else◌,
}
use fast_page.Http.{Result, ok, err, raise_if, ◌>>=◌, ◌>>◌}
use fast_page.Chars.{Text, codes, is_empty, strip}
use fast_page.Access.Principal.{Principal, user_id, require_capability}
use fast_page.Access.Resources.{ChatSkill, workspace_matches, assert_can_read_skill}
use fast_page.Workspace.Queries.{first, is_none}
use fast_page.Workspace.Guards.{or_404}
use fast_page.Sessions.Models.{ChatSession, SessionStore}

-- A column that may be `NULL` equals a value.
abbrev pub is_id : Option ℕ → ℕ → Bool
is_id none id = false
is_id (some i) id = i == id

-- A stable sort, as an `ORDER BY` with one key
module _ {A : Type 0} (le : A → A → Bool) where
  unfoldable pub insert_sorted : A → List A → List A
  insert_sorted x [] = x ∷ []
  insert_sorted x (y ∷ ys) =
      let rest = insert_sorted x ys in if le x y then x ∷ y ∷ ys else y ∷ rest

  unfoldable pub sort : List A → List A
  unfolding insert_sorted
  sort [] = []
  sort (x ∷ xs) = insert_sorted x (sort xs)

unfoldable pub is_default_workspace : SessionStore → Principal → Bool
is_default_workspace st p =
    any (λ w. w.tenant_id == p.tenant_id && w.id == p.workspace_id && w.is_default) st.workspaces

-- `_session_workspace_filter` and `_message_workspace_filter` at a row's `workspace_id`
unfoldable pub workspace_filter : SessionStore → Principal → Option ℕ → Bool
unfolding is_default_workspace
workspace_filter st p workspace_id =
    if is_default_workspace st p
    then is_id workspace_id p.workspace_id || is_none workspace_id
    else is_id workspace_id p.workspace_id

-- What `get_skill_or_404` asks of the skill that it has found
unfoldable pub readable_skill : Principal → ChatSkill → Result ChatSkill
readable_skill p skill = do
  raise_if (not (skill.tenant_id == p.tenant_id)) 404 "Skill not found"
  raise_if (not (workspace_matches p skill.workspace_id)) 404 "Skill not found"
  assert_can_read_skill p skill >> ok skill

unfoldable pub get_skill_or_404 : SessionStore → Principal → ℕ → Result ChatSkill
unfolding readable_skill
get_skill_or_404 st p skill_id =
    or_404 (first (keep (λ k. k.id == skill_id) st.skills)) "Skill not found" >>= readable_skill p

unfoldable pub validate_skill_scope : SessionStore → Principal → Option ℕ → Result (Unit {0})
unfolding get_skill_or_404
validate_skill_scope st p none = ok tt
validate_skill_scope st p (some id) = get_skill_or_404 st p id >>= λ skill. ok tt

abbrev pub default_title : Text
default_title = codes "New Chat Session"

abbrev pub text_or : Text → Text → Text
text_or t other = if is_empty t then other else t

abbrev pub given_title : Option Text → Text
given_title none = default_title
given_title (some t) = text_or t default_title

unfoldable pub session_title : Option Text → Text
session_title title = text_or (strip (given_title title)) default_title

unfoldable pub new_session : Principal → Option Text → Option ℕ → (id now : ℕ) → ChatSession
unfolding session_title
new_session p title skill_id id now = record {
  id = id;
  tenant_id = p.tenant_id;
  workspace_id = some p.workspace_id;
  user_id = user_id p;
  skill_id = skill_id;
  active_run_id = none;
  title = session_title title;
  created_at = now;
  updated_at = now;
}

unfoldable pub check_new_session : SessionStore → Principal → Option ℕ → Result (Unit {0})
check_new_session st p none = ok tt
check_new_session st p (some skill) = do
  require_capability p "can_run_skills" (some "Missing workspace capability: can_run_skills")
  validate_skill_scope st p (some skill)

abbrev pub store_session :
    SessionStore → Result (Unit {0}) → ChatSession → Result ChatSession × SessionStore
store_session st (err e) s = (err e, st)
store_session st (ok done) s = (ok s, record st { sessions = st.sessions ++ (s ∷ []) })

unfoldable pub create_session :
    SessionStore
    → Principal
    → Option Text
    → Option ℕ
    → (id now : ℕ) → Result ChatSession × SessionStore
unfolding check_new_session new_session
create_session st p title skill_id id now =
    store_session st (check_new_session st p skill_id) (new_session p title skill_id id now)

-- The `where` of `get_session_or_404`
abbrev pub is_session : SessionStore → Principal → ℕ → ChatSession → Bool
is_session st p session_id s =
    s.id == session_id && s.tenant_id == p.tenant_id && workspace_filter st p s.workspace_id

unfoldable pub usable_session : SessionStore → Principal → ChatSession → Result ChatSession
unfolding validate_skill_scope
usable_session st p s = validate_skill_scope st p s.skill_id >> ok s

unfoldable pub get_session_or_404 : SessionStore → Principal → ℕ → Result ChatSession
unfolding usable_session workspace_filter
get_session_or_404 st p session_id =
    or_404 (first (keep (is_session st p session_id) st.sessions)) "Session not found"
    >>= usable_session st p

abbrev pub check_skill : ℕ → ChatSession → Result ChatSession
check_skill skill_id s =
    raise_if (not (is_id s.skill_id skill_id)) 404 "Skill session not found" >> ok s

unfoldable pub get_skill_session_or_404 :
    SessionStore → Principal → (skill_id session_id : ℕ) → Result ChatSession
unfolding validate_skill_scope get_session_or_404
get_skill_session_or_404 st p skill_id session_id =
    validate_skill_scope st p (some skill_id)
    >> (get_session_or_404 st p session_id >>= check_skill skill_id)

-- `skill_id` of a listed session: none, or the one that is asked for
abbrev pub of_skill : Option ℕ → Option ℕ → Bool
of_skill none skill_id = is_none skill_id
of_skill (some id) skill_id = is_id skill_id id

-- The `where` of `list_sessions`
abbrev pub is_listed : SessionStore → Principal → Option ℕ → ChatSession → Bool
is_listed st p skill_id s =
    s.tenant_id == p.tenant_id
    && workspace_filter st p s.workspace_id
    && of_skill skill_id s.skill_id

abbrev pub is_newer : ChatSession → ChatSession → Bool
is_newer s t = leb t.updated_at s.updated_at

-- Sessions that were updated at one time stand in the order of the table.
unfoldable pub list_sessions : SessionStore → Principal → Option ℕ → Result (List ChatSession)
unfolding validate_skill_scope workspace_filter sort
list_sessions st p skill_id =
    validate_skill_scope st p skill_id
    >> ok (sort is_newer (keep (is_listed st p skill_id) st.sessions))
