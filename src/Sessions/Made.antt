-- ===== src/Sessions/Made.antt =====
-- Who finds a new session.
use fast_page.Prelude.{
  Has, ℕ, ◌≡◌, ◌≢◌, refl, sym, subst, ap, ◌∙◌, ◌⊎◌, inl, inr, true, false, Option, none, some, List,
  [], ◌∷◌, ◌++◌, arith, keep, All, if◌then◌else◌,
}
use fast_page.Http.{Result, ok, err, raise, ◌>>◌, >>=-eq-ok}
use fast_page.Chars.{Text}
use fast_page.Access.Principal.{Principal, require_capability}
use fast_page.Workspace.Queries.{first}
use fast_page.Sessions.Models.{ChatSession, SessionStore}
use fast_page.Sessions.Scope.{
  is_id, of_skill, is_listed, list_sessions, workspace_filter, validate_skill_scope, new_session,
  check_new_session, store_session, create_session, is_session, usable_session, get_session_or_404,
  get_skill_session_or_404,
}
use fast_page.Sessions.Entries.{with_one, validate-with_one, list_sessions-new, list_sessions-other}

-- No session has this id.
abbrev pub IsFreshSession : ℕ → List ChatSession → Type 0
IsFreshSession id = All (λ (s : ChatSession). s.id ≢ id)

module _ (st : SessionStore) (p : Principal) (id : ℕ) where
  fresh-not_found :
      (ss : List ChatSession) (s : ChatSession)
      → IsFreshSession id ss
      → first (keep (is_session st p id) (ss ++ (s ∷ [])))
        ≡ (if is_session st p id s then some s else none)
  fresh-not_found [] s h = ground arith
  fresh-not_found (x ∷ xs) s h =
      let other : is_session st p id x ≡ false = ground arith in rw other (fresh-not_found xs s h.1)

own_workspace :
    (st : SessionStore) (p : Principal) → workspace_filter st p (some p.workspace_id) ≡ true
unfolding workspace_filter
own_workspace st p = ground arith

other_workspace :
    (st : SessionStore) (p : Principal) (id : ℕ)
    → p.workspace_id ≢ id
    → workspace_filter st p (some id) ≡ false
unfolding workspace_filter
other_workspace st p id h = ground arith

of_own_skill : (o : Option ℕ) → of_skill o o ≡ true
of_own_skill none = refl
of_own_skill (some k) = ground arith

module _ (st : SessionStore) (p : Principal) (title : Option Text) (skill_id : Option ℕ)
    (id now : ℕ) where
  abbrev made : ChatSession
  made = new_session p title skill_id id now

  abbrev with_session : SessionStore
  with_session = with_one st made

  own-session : is_session with_session p id made ≡ true
  unfolding new_session
  own-session = ground (arith, own_workspace with_session p)

  other-session :
      (q : Principal)
      → (q.tenant_id ≢ p.tenant_id) ⊎ (q.workspace_id ≢ p.workspace_id)
      → is_session with_session q id made ≡ false
  unfolding new_session
  other-session q (inl h) = ground arith
  other-session q (inr h) = ground (arith, other_workspace with_session q p.workspace_id)

  found-own :
      IsFreshSession id st.sessions
      → validate_skill_scope st p skill_id ≡ ok tt
      → get_session_or_404 with_session p id ≡ ok made
  unfolding get_session_or_404 usable_session new_session
  found-own fresh valid =
      rw (fresh-not_found with_session p id st.sessions made fresh, own-session)
        (ap (λ (r : Result (Unit {0})). r >> ok made)
          (validate-with_one st made p skill_id ∙ valid))

  found-skill :
      (skill : ℕ)
      → IsFreshSession id st.sessions
      → validate_skill_scope st p skill_id ≡ ok tt
      → skill_id ≡ some skill
      → get_skill_session_or_404 with_session p skill id ≡ ok made
  unfolding get_skill_session_or_404 new_session
  found-skill skill fresh valid e =
      let here : is_id made.skill_id skill ≡ true = rw e (ground arith) in
      rw
        (
          ap (λ o. validate_skill_scope with_session p o) (sym e)
              ∙ validate-with_one st made p skill_id
              ∙ valid,
          found-own fresh valid,
        )
        (rw here refl)

  found-other :
      (q : Principal)
      → IsFreshSession id st.sessions
      → (q.tenant_id ≢ p.tenant_id) ⊎ (q.workspace_id ≢ p.workspace_id)
      → get_session_or_404 with_session q id ≡ raise 404 "Session not found"
  unfolding get_session_or_404
  found-other q fresh away =
      rw (fresh-not_found with_session q id st.sessions made fresh, other-session q away) refl

  own-listed : is_listed st p skill_id made ≡ true
  unfolding new_session
  own-listed = ground (arith, own_workspace st p, of_own_skill skill_id)

  other-listed :
      (q : Principal) (k : Option ℕ)
      → (q.tenant_id ≢ p.tenant_id) ⊎ (q.workspace_id ≢ p.workspace_id)
      → is_listed st q k made ≡ false
  unfolding new_session
  other-listed q k (inl h) = ground arith
  other-listed q k (inr h) = ground (arith, other_workspace st q p.workspace_id)

check_new_session-valid :
    (st : SessionStore) (p : Principal) (o : Option ℕ) {t : Unit {0}}
    → check_new_session st p o ≡ ok t
    → validate_skill_scope st p o ≡ ok tt
unfolding check_new_session validate_skill_scope
check_new_session-valid st p none h = refl
check_new_session-valid st p (some k) h =
    let (u, may_run, valid) =
      >>=-eq-ok
        (require_capability p "can_run_skills"
          (some "Missing workspace capability: can_run_skills"))
        (λ _. validate_skill_scope st p (some k)) h in
    valid

-- What `create_session` promises, by the tables before and after it
pub record Made (old st : SessionStore) (p : Principal) (skill_id : Option ℕ) (s : ChatSession)
    : Type 0 where
  -- Its maker finds it, by itself and under its skill.
  pub own : get_session_or_404 st p s.id ≡ ok s
  pub under_skill : (k : ℕ) → skill_id ≡ some k → get_skill_session_or_404 st p k s.id ≡ ok s
  -- It is in the maker's list of the sessions of that skill, or of none.
  pub listed : (ss : List ChatSession) × (list_sessions st p skill_id ≡ ok ss) × Has s ss
  -- Nobody in another tenant or workspace finds it, and no list of theirs has changed.
  pub hidden :
      (q : Principal) (k : Option ℕ)
      → (q.tenant_id ≢ p.tenant_id) ⊎ (q.workspace_id ≢ p.workspace_id)
      → (get_session_or_404 st q s.id ≡ raise 404 "Session not found")
        × (list_sessions st q k ≡ list_sessions old q k)

store_session-Made :
    (st : SessionStore) (p : Principal) (title : Option Text) (skill_id : Option ℕ) (id now : ℕ)
    (check : Result (Unit {0})) (s : ChatSession)
    → IsFreshSession id st.sessions
    → check_new_session st p skill_id ≡ check
    → (store_session st check (new_session p title skill_id id now)).0 ≡ ok s
    → Made st (store_session st check (new_session p title skill_id id now)).1 p skill_id s
store_session-Made st p title skill_id id now (err e) s fresh c h = cc
store_session-Made st p title skill_id id now (ok t) s fresh c h =
    subst (Made st (with_session st p title skill_id id now) p skill_id) (cc) (
      let valid : validate_skill_scope st p skill_id ≡ ok tt =
        check_new_session-valid st p skill_id c in
      let m : Made st (with_session st p title skill_id id now) p skill_id
          (made st p title skill_id id now) =
        unfold new_session in
        record {
          own = found-own st p title skill_id id now fresh valid;
          under_skill = λ k e. found-skill st p title skill_id id now k fresh valid e;
          listed =
              list_sessions-new st (made st p title skill_id id now) p skill_id
                (own-listed st p title skill_id id now) valid;
          hidden = λ q k away. (
            found-other st p title skill_id id now q fresh away,
            list_sessions-other st (made st p title skill_id id now) q k
                (other-listed st p title skill_id id now q k away),
          );
        } in
      m)

-- A session that is created under an id of its own is found by the principal who made it, and under its
-- skill if it is of one, exactly as it was answered, and stands in the maker's list of the sessions of
-- that skill, or of no skill; for a principal of another tenant, or whose workspace is another one, even
-- the tenant's default, there is no such session, and no list of theirs has changed.
pub create_session-Made :
    (st : SessionStore) (p : Principal) (title : Option Text) (skill_id : Option ℕ) (id now : ℕ)
    (s : ChatSession)
    → IsFreshSession id st.sessions
    → (create_session st p title skill_id id now).0 ≡ ok s
    → Made st (create_session st p title skill_id id now).1 p skill_id s
unfolding create_session
create_session-Made st p title skill_id id now s fresh h =
    store_session-Made st p title skill_id id now (check_new_session st p skill_id) s fresh refl h
