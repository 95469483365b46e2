-- ===== src/Access/Resources.antt =====
-- Who may read or edit a knowledge base or a skill (app/services/workspace_access_service.py).
use fast_page.Prelude.{
  ℕ, String, Bool, true, false, not, ◌||◌, Option, none, some, ◌∷◌, [], str_eq, ◌==◌, if◌then◌else◌,
}
use fast_page.Http.{Result, ok, raise}
use fast_page.Access.Roles.{is_in, visibility_values}
use fast_page.Access.Principal.{Principal, user_id, has_capability}

pub record KnowledgeBase : Type 0 where
  pub workspace_id : ℕ
  pub created_by : ℕ
  pub visibility : Option String

pub record ChatSkill : Type 0 where
  pub id : ℕ
  pub tenant_id : ℕ
  pub workspace_id : Option ℕ
  pub owner_user_id : ℕ
  pub visibility : Option String

unfoldable pub is_resource_admin : Principal → Bool
is_resource_admin p = is_in p.workspace_membership_role ("founder" ∷ "admin" ∷ [])

unfoldable pub workspace_matches : Principal → Option ℕ → Bool
workspace_matches p none = false
workspace_matches p (some id) = p.workspace_id == id

unfoldable pub effective_visibility : Option String → String
effective_visibility none = "private"
effective_visibility (some raw) = if is_in raw visibility_values then raw else "private"

unfoldable pub can_read_knowledge_base : Principal → KnowledgeBase → Bool
unfolding is_resource_admin workspace_matches effective_visibility
can_read_knowledge_base p kb =
    if not (workspace_matches p (some kb.workspace_id))
    then false
    else if is_resource_admin p || user_id p == kb.created_by
    then true
    else is_in (effective_visibility kb.visibility) ("workspace_read" ∷ "workspace_edit" ∷ [])

unfoldable pub can_edit_knowledge_base : Principal → KnowledgeBase → Bool
unfolding is_resource_admin workspace_matches effective_visibility
can_edit_knowledge_base p kb =
    if not (workspace_matches p (some kb.workspace_id))
    then false
    else if is_resource_admin p || user_id p == kb.created_by
    then true
    else if not (has_capability p "can_manage_knowledge_bases")
    then false
    else str_eq (effective_visibility kb.visibility) "workspace_edit"

unfoldable pub can_read_skill : Principal → ChatSkill → Bool
unfolding is_resource_admin workspace_matches effective_visibility
can_read_skill p s =
    if not (workspace_matches p s.workspace_id)
    then false
    else if is_resource_admin p || user_id p == s.owner_user_id
    then true
    else is_in (effective_visibility s.visibility) ("workspace_read" ∷ "workspace_edit" ∷ [])

unfoldable pub can_edit_skill : Principal → ChatSkill → Bool
unfolding is_resource_admin workspace_matches effective_visibility
can_edit_skill p s =
    if not (workspace_matches p s.workspace_id)
    then false
    else if is_resource_admin p || user_id p == s.owner_user_id
    then true
    else if not (has_capability p "can_manage_skills")
    then false
    else str_eq (effective_visibility s.visibility) "workspace_edit"

unfoldable pub assert_can_read_knowledge_base : Principal → KnowledgeBase → Result (Unit {0})
assert_can_read_knowledge_base p kb =
    if can_read_knowledge_base p kb then ok tt else raise 404 "Knowledge base not found"

unfoldable pub assert_can_edit_knowledge_base : Principal → KnowledgeBase → Result (Unit {0})
assert_can_edit_knowledge_base p kb =
    if can_edit_knowledge_base p kb
    then ok tt
    else if not (can_read_knowledge_base p kb)
    then raise 404 "Knowledge base not found"
    else raise 403 "Knowledge base is not editable"

unfoldable pub assert_can_read_skill : Principal → ChatSkill → Result (Unit {0})
assert_can_read_skill p s = if can_read_skill p s then ok tt else raise 404 "Skill not found"

unfoldable pub assert_can_edit_skill : Principal → ChatSkill → Result (Unit {0})
assert_can_edit_skill p s =
    if can_edit_skill p s
    then ok tt
    else if not (can_read_skill p s)
    then raise 404 "Skill not found"
    else raise 403 "Skill is not editable"
