-- ===== src/Access/Roles.antt =====
-- The capability keys and the role matrix of app/services/workspace_access_service.py.
use fast_page.Prelude.{String, Bool, true, false, none, some, List, [], ◌∷◌, map, any, str_eq}
use fast_page.Prelude.Dict.{Dict, lookup}

abbrev pub capability_keys : List String
capability_keys =
    "can_view_workspace" ∷ "can_edit_workspace_metadata" ∷ "can_manage_members"
    ∷ "can_manage_invites" ∷ "can_transfer_founder" ∷ "can_archive_workspace"
    ∷ "can_manage_api_keys" ∷ "can_manage_providers" ∷ "can_manage_knowledge_bases"
    ∷ "can_manage_skills" ∷ "can_run_skills" ∷ "can_view_runs" ∷ []

-- `x in values`, for a tuple or a set of texts
abbrev pub is_in : String → List String → Bool
is_in x = any (λ y. str_eq y x)

abbrev pub visibility_values : List String
visibility_values = "private" ∷ "workspace_read" ∷ "workspace_edit" ∷ []

abbrev pub founder_only_keys : List String
founder_only_keys = "can_transfer_founder" ∷ "can_archive_workspace" ∷ []

-- A row of the matrix, its values in the order of the keys.
row :
    (view edit members invites transfer archive api providers bases skills run runs : Bool)
    → Dict Bool
row view edit members invites transfer archive api providers bases skills run runs =
    ("can_view_workspace", view)
    ∷ ("can_edit_workspace_metadata", edit)
    ∷ ("can_manage_members", members)
    ∷ ("can_manage_invites", invites)
    ∷ ("can_transfer_founder", transfer)
    ∷ ("can_archive_workspace", archive)
    ∷ ("can_manage_api_keys", api)
    ∷ ("can_manage_providers", providers)
    ∷ ("can_manage_knowledge_bases", bases)
    ∷ ("can_manage_skills", skills)
    ∷ ("can_run_skills", run)
    ∷ ("can_view_runs", runs)
    ∷ []

unfoldable pub role_matrix : Dict (Dict Bool)
unfolding row
role_matrix =
    ("founder", row true true true true true true true true true true true true)
    ∷ ("admin", row true true true true false false true true true true true true)
    ∷ ("member", row true false false false false false true false true true true true)
    ∷ ("guest", row true false false false false false false false false false true true)
    ∷ []

-- No role: every key is there, and false.
abbrev no_capabilities : List String → Dict Bool
no_capabilities = map (λ k. (k, false))

unfoldable pub role_capabilities : String → Dict Bool
unfolding lookup role_matrix
role_capabilities role = elim (lookup role role_matrix) [
  | none ↦ no_capabilities capability_keys
  | some row ↦ row
]
