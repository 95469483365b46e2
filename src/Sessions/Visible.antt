-- ===== src/Sessions/Visible.antt =====
-- What a session that is found, made or listed has to do with the principal.
use fast_page.Prelude.{
  Has, String, ℕ, ◌≡◌, refl, sym, subst, ap, ◌∙◌, ◌⊎◌, inl, inr, Bool, true, ◌&&◌, Option, none,
  some, List, [], ◌∷◌, arith, ◌==◌, keep, any, Bool-cases,
}
use fast_page.Http.{Result, ok, ◌>>=◌, >>=-eq-ok}
use fast_page.Access.Principal.{Principal}
use fast_page.Access.Resources.{ChatSkill, workspace_matches, can_read_skill, assert_can_read_skill}
use fast_page.Workspace.Models.{Workspace}
use fast_page.Workspace.Queries.{first}
use fast_page.Workspace.Guards.{or_404}
use fast_page.Workspace.Count.{Has-keep, first-Has}
use fast_page.Sessions.Models.{ChatSession, SessionStore}
use fast_page.Sessions.Scope.{
  is_id, is_default_workspace, workspace_filter, readable_skill, get_skill_or_404, usable_session,
  check_skill, validate_skill_scope, is_session, get_session_or_404, get_skill_session_or_404,
}

-- The skill is there, in the principal's tenant and workspace, and the principal may read it.
abbrev pub IsReadable : SessionStore → Principal → ℕ → Type 0
IsReadable st p skill_id =
    (k : ChatSkill) × Has k st.skills
    × (k.id ≡ skill_id)
    × (k.tenant_id ≡ p.tenant_id)
    × (k.workspace_id ≡ some p.workspace_id)
    × (can_read_skill p k ≡ true)

-- The principal's workspace is the tenant's default one.
abbrev pub InDefault : SessionStore → Principal → Type 0
InDefault st p =
    (w : Workspace) × Has w st.workspaces
    × (w.id ≡ p.workspace_id)
    × (w.tenant_id ≡ p.tenant_id)
    × (w.is_default ≡ true)

-- The session is in the principal's tenant and workspace, or in none at all and is seen from the
-- default workspace; if it is of a skill, the principal may read that.
pub record IsVisible (st : SessionStore) (p : Principal) (s : ChatSession) : Type 0 where
  pub stored : Has s st.sessions
  pub tenant : s.tenant_id ≡ p.tenant_id
  pub workspace :
      (s.workspace_id ≡ some p.workspace_id) ⊎ ((s.workspace_id ≡ none) × InDefault st p)
  pub skill : (id : ℕ) → s.skill_id ≡ some id → IsReadable st p id

or_404-eq-ok :
    {A : Type 0} (o : Option A) (detail : String) {a : A} → or_404 o detail ≡ ok a → o ≡ some a
or_404-eq-ok none detail h = cc
or_404-eq-ok (some a) detail h = cc

first-keep :
    {A : Type 0} (q : A → Bool) (xs : List A) (x : A)
    → first (keep q xs) ≡ some x
    → Has x xs × (q x ≡ true)
first-keep q xs x h = Has-keep q x xs (first-Has x (keep q xs) h)

any-Has :
    {A : Type 0} (q : A → Bool) (xs : List A) → any q xs ≡ true → (x : A) × Has x xs × (q x ≡ true)
any-Has q [] h = cc
any-Has q (x ∷ xs) h = elim (Bool-cases (q x)) [
  | inl yes_q ↦ (x, inl refl, yes_q)
  | inr no_q ↦ let (y, there, e) = any-Has q xs (rw no_q at h) in (y, inr there, e)
]

workspace_matches-eq :
    (p : Principal) (o : Option ℕ) → workspace_matches p o ≡ true → o ≡ some p.workspace_id
unfolding workspace_matches
workspace_matches-eq p none h = cc
workspace_matches-eq p (some id) h = ground arith

is_id-eq : (o : Option ℕ) (id : ℕ) → is_id o id ≡ true → o ≡ some id
is_id-eq none id h = cc
is_id-eq (some i) id h = ground arith

readable_skill-eq-ok :
    (p : Principal) (k : ChatSkill) {k' : ChatSkill}
    → readable_skill p k ≡ ok k'
    → (k.tenant_id ≡ p.tenant_id)
      × (workspace_matches p k.workspace_id ≡ true)
      × (can_read_skill p k ≡ true)
unfolding readable_skill assert_can_read_skill
readable_skill-eq-ok p k h = ground arith

get_skill-IsReadable :
    (st : SessionStore) (p : Principal) (skill_id : ℕ) (k : ChatSkill)
    → get_skill_or_404 st p skill_id ≡ ok k
    → IsReadable st p skill_id
unfolding get_skill_or_404
get_skill-IsReadable st p skill_id k h =
    let found : Option ChatSkill = first (keep (λ k. k.id == skill_id) st.skills) in
    let (x, e, r) = >>=-eq-ok (or_404 found "Skill not found") (readable_skill p) h in
    let (there, is) =
      first-keep (λ (k : ChatSkill). k.id == skill_id) st.skills x
        (or_404-eq-ok found "Skill not found" e) in
    let (tenant, matches, can_read) = readable_skill-eq-ok p x r in
    (x, there, ground arith, tenant, workspace_matches-eq p x.workspace_id matches, can_read)

validate-IsReadable :
    (st : SessionStore) (p : Principal) (id : ℕ) {t : Unit {0}}
    → validate_skill_scope st p (some id) ≡ ok t
    → IsReadable st p id
unfolding validate_skill_scope
validate-IsReadable st p id h =
    let (k, e, done) = >>=-eq-ok (get_skill_or_404 st p id) (λ skill. ok tt) h in
    get_skill-IsReadable st p id k e

in_workspace :
    (st : SessionStore) (p : Principal) (o : Option ℕ)
    → workspace_filter st p o ≡ true
    → (o ≡ some p.workspace_id) ⊎ ((o ≡ none) × InDefault st p)
unfolding workspace_filter is_default_workspace
in_workspace st p (some id) h = inl (ground arith)
in_workspace st p none h =
    let (w, there, e) =
      any-Has
        (λ (w : Workspace). w.tenant_id == p.tenant_id && w.id == p.workspace_id && w.is_default)
        st.workspaces (ground arith) in
    inr (refl, (w, there, ground arith, ground arith, ground arith))

session_skill :
    (st : SessionStore) (p : Principal) (o : Option ℕ) (id : ℕ) {t : Unit {0}}
    → validate_skill_scope st p o ≡ ok t
    → o ≡ some id
    → IsReadable st p id
session_skill st p none id h e = cc
session_skill st p (some i) id h e = validate-IsReadable st p id (cc)

get_session-IsVisible :
    (st : SessionStore) (p : Principal) (session_id : ℕ) (s : ChatSession)
    → get_session_or_404 st p session_id ≡ ok s
    → IsVisible st p s × (s.id ≡ session_id)
unfolding get_session_or_404 usable_session
get_session-IsVisible st p session_id s h =
    let found : Option ChatSession = first (keep (is_session st p session_id) st.sessions) in
    let (x, e, r) = >>=-eq-ok (or_404 found "Session not found") (usable_session st p) h in
    let (t, valid, done) = >>=-eq-ok (validate_skill_scope st p x.skill_id) (λ _. ok x) r in
    let (there, is) =
      first-keep (is_session st p session_id) st.sessions x
        (or_404-eq-ok found "Session not found" e) in
    let same : x ≡ s = cc in
    subst (λ (y : ChatSession). IsVisible st p y × (y.id ≡ session_id)) same
      (
        record {
          stored = there;
          tenant = ground arith;
          workspace = in_workspace st p x.workspace_id (ground arith);
          skill = λ id e. session_skill st p x.skill_id id valid e;
        },
        ground arith,
      )

check_skill-eq-ok :
    (skill_id : ℕ) (x : ChatSession) {s : ChatSession}
    → check_skill skill_id x ≡ ok s
    → (is_id x.skill_id skill_id ≡ true) × (x ≡ s)
check_skill-eq-ok skill_id x h = elim (Bool-cases (is_id x.skill_id skill_id)) [
  | inl e ↦ (e, cc (rw e at h))
  | inr e ↦ absurd (cc (rw e at h))
]

-- A session that is answered for a skill is that session, in the principal's tenant, and in the
-- principal's workspace, unless it is in none and the workspace is the tenant's default one; it is of
-- that skill; and the skill is one of the workspace that the principal may read.
pub get_skill_session_or_404-IsVisible :
    (st : SessionStore) (p : Principal) (skill_id session_id : ℕ) (s : ChatSession)
    → get_skill_session_or_404 st p skill_id session_id ≡ ok s
    → IsVisible st p s
      × (s.id ≡ session_id)
      × (s.skill_id ≡ some skill_id)
      × IsReadable st p skill_id
unfolding get_skill_session_or_404
get_skill_session_or_404-IsVisible st p skill_id session_id s h =
    let rest : Result ChatSession = get_session_or_404 st p session_id >>= check_skill skill_id in
    let (t, valid, r) = >>=-eq-ok (validate_skill_scope st p (some skill_id)) (λ _. rest) h in
    let (x, found, checked) =
      >>=-eq-ok (get_session_or_404 st p session_id) (check_skill skill_id) r in
    let (is, same) = check_skill-eq-ok skill_id x checked in
    let (visible, named) = get_session-IsVisible st p session_id s (found ∙ ap (λ y. ok y) same) in
    (
      visible,
      named,
      sym (ap (λ (y : ChatSession). y.skill_id) same) ∙ is_id-eq x.skill_id skill_id is,
      validate-IsReadable st p skill_id valid,
    )
