-- ===== src/Access/Visibility.antt =====
-- What the access rules of knowledge bases and skills amount to.
use fast_page.Prelude.{
  String, ◌≡◌, ◌≢◌, refl, Bool, true, false, Option, none, some, arith, str_eq, eq_iff, ◌∷◌, [],
  Bool-cases, inl, inr,
}
use fast_page.Http.{Result, ok, raise}
use fast_page.Access.Roles.{is_in, visibility_values}
use fast_page.Access.Principal.{Principal, user_id}
use fast_page.Access.Resources.{
  KnowledgeBase, ChatSkill, is_resource_admin, effective_visibility, can_read_knowledge_base,
  can_edit_knowledge_base, can_read_skill, can_edit_skill, assert_can_read_knowledge_base,
  assert_can_edit_knowledge_base, assert_can_read_skill, assert_can_edit_skill,
}

-- The answers of `assert_can_edit_…`, by what the principal may do.
abbrev pub EditAnswers :
    (readable editable : Bool) → Result (Unit {0}) → (hidden locked : Result (Unit {0})) → Type 0
EditAnswers readable editable answer hidden locked =
    (editable ≡ true → (readable ≡ true) × (answer ≡ ok tt))
    × (readable ≡ false → answer ≡ hidden)
    × (readable ≡ true → editable ≡ false → answer ≡ locked)

-- What is shared for editing is shared for reading.
edit_is_read :
    (v : String)
    → str_eq v "workspace_edit" ≡ true
    → is_in v ("workspace_read" ∷ "workspace_edit" ∷ []) ≡ true
edit_is_read v h = ground (arith, eq_iff v "workspace_edit", eq_iff "workspace_edit" v)

shared : Option String → Bool
shared visibility =
    is_in (effective_visibility visibility) ("workspace_read" ∷ "workspace_edit" ∷ [])

not_shared_text :
    (v : String)
    → some v ≢ some "workspace_read"
    → some v ≢ some "workspace_edit"
    → is_in v ("workspace_read" ∷ "workspace_edit" ∷ []) ≡ false
not_shared_text v r e = ground (arith, eq_iff "workspace_read" v, eq_iff "workspace_edit" v)

not_shared :
    (visibility : Option String)
    → visibility ≢ some "workspace_read"
    → visibility ≢ some "workspace_edit"
    → shared visibility ≡ false
unfolding shared effective_visibility
not_shared none r e = refl
not_shared (some v) r e = elim (Bool-cases (is_in v visibility_values)) [
  | inl k ↦ rw k (not_shared_text v r e)
  | inr k ↦ rw k refl
]

-- Who may edit a knowledge base may read it and passes the check; one that is not readable
-- answers 404, whatever else holds, and one that is readable and not editable answers 403.
edit-knowledge_base :
    (p : Principal) (kb : KnowledgeBase)
    → EditAnswers
        (can_read_knowledge_base p kb)
        (can_edit_knowledge_base p kb)
        (assert_can_edit_knowledge_base p kb)
        (raise 404 "Knowledge base not found")
        (raise 403 "Knowledge base is not editable")
unfolding can_read_knowledge_base can_edit_knowledge_base assert_can_edit_knowledge_base
edit-knowledge_base p kb = ground (arith, edit_is_read (effective_visibility kb.visibility))

-- The same for skills.
edit-skill :
    (p : Principal) (s : ChatSkill)
    → EditAnswers
        (can_read_skill p s)
        (can_edit_skill p s)
        (assert_can_edit_skill p s)
        (raise 404 "Skill not found")
        (raise 403 "Skill is not editable")
unfolding can_read_skill can_edit_skill assert_can_edit_skill
edit-skill p s = ground (arith, edit_is_read (effective_visibility s.visibility))

-- From another workspace a knowledge base and a skill are both unknown, to read and to edit,
-- whatever the role and the ownership.
pub other_workspace_hidden :
    (p : Principal) (kb : KnowledgeBase) (s : ChatSkill)
    → p.workspace_id ≢ kb.workspace_id
    → s.workspace_id ≢ some p.workspace_id
    → (assert_can_read_knowledge_base p kb ≡ raise 404 "Knowledge base not found")
      × (assert_can_edit_knowledge_base p kb ≡ raise 404 "Knowledge base not found")
      × (assert_can_read_skill p s ≡ raise 404 "Skill not found")
      × (assert_can_edit_skill p s ≡ raise 404 "Skill not found")
unfolding can_read_knowledge_base can_edit_knowledge_base can_read_skill can_edit_skill
    assert_can_read_knowledge_base assert_can_edit_knowledge_base assert_can_read_skill
    assert_can_edit_skill
other_workspace_hidden p kb s other foreign = ground arith

-- Inside its workspace, a knowledge base that is neither the principal's own nor shared is read
-- by founders and admins alone; a visibility that is unknown counts as private.
private-knowledge_base :
    (p : Principal) (kb : KnowledgeBase)
    → p.workspace_id ≡ kb.workspace_id
    → user_id p ≢ kb.created_by
    → kb.visibility ≢ some "workspace_read"
    → kb.visibility ≢ some "workspace_edit"
    → can_read_knowledge_base p kb ≡ is_resource_admin p
unfolding can_read_knowledge_base shared
private-knowledge_base p kb here other r e = ground (arith, not_shared kb.visibility r e)
