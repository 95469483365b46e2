-- ===== src/Workspace/Untouched.antt =====
-- The operations on members leave the table of workspaces alone.
use fast_page.Prelude.{
  ℕ, ◌≡◌, inl, inr, refl, Bool, Option, String, Bool-cases, Option-cases, arith,
}
use fast_page.Prelude.Dict.{Dict}
use fast_page.Json.{Json}
use fast_page.Access.Principal.{Principal}
use fast_page.Workspace.Models.{Db}
use fast_page.Workspace.Queries.{get_membership_by_user, list_active_founders}
use fast_page.Workspace.Members.{
  MemberCreate, MemberUpdate, create_member, update_member, remove_member, check_create,
  check_update, check_remove, is_empty_update,
}
use fast_page.Workspace.Founder.{
  transfer_founder, check_transfer, founders_unique, swapped, is_only,
}
use fast_page.Workspace.MemberFounders.{guarded-Keeps}

abbrev SameWorkspaces : Db → Db → Type 0
SameWorkspaces db db' = db'.workspaces ≡ db.workspaces

module _ (loads : String → Option Json) (dumps : Dict Bool → String) (db : Db) (p : Principal)
    (w : ℕ) where
  pub workspaces-create_member :
      (payload : MemberCreate) (now new_id : ℕ)
      → SameWorkspaces db (create_member loads dumps db p w payload now new_id).1
  unfolding create_member
  workspaces-create_member payload now new_id =
      guarded-Keeps (SameWorkspaces db) db (check_create dumps db p w payload) _ refl
        λ (ws, u, json) _. elim (Option-cases (get_membership_by_user db ws.id u.id)) [
          | inl new ↦ rw new refl
          | inr (m, former) ↦ rw former (guarded-Keeps (SameWorkspaces db) db _ _ refl λ _ _. refl)
        ]

  pub workspaces-update_member :
      (i : ℕ) (payload : MemberUpdate) (now : ℕ)
      → SameWorkspaces db (update_member loads dumps db p w i payload now).1
  unfolding update_member
  workspaces-update_member i payload now =
      guarded-Keeps (SameWorkspaces db) db (check_update db p w i payload) _ refl
        λ (m, role, status) _. elim (Bool-cases (is_empty_update payload)) [
          | inl none_set ↦ rw none_set refl
          | inr some_set ↦ rw some_set (guarded-Keeps (SameWorkspaces db) db _ _ refl λ _ _. refl)
        ]

  pub workspaces-remove_member : (i now : ℕ) → SameWorkspaces db (remove_member db p w i now).1
  unfolding remove_member
  workspaces-remove_member i now =
      guarded-Keeps (SameWorkspaces db) db (check_remove db p w i) _ refl λ m _. ground arith

  pub workspaces-transfer_founder :
      (u now : ℕ) → SameWorkspaces db (transfer_founder loads db p w u now).1
  unfolding transfer_founder
  workspaces-transfer_founder u now =
      guarded-Keeps (SameWorkspaces db) db (check_transfer db p w u) _ refl λ (ws, f, t) _.
        elim (Bool-cases (founders_unique (swapped f t now db).memberships)) [
          | inl kept ↦
              rw kept
                (elim (Bool-cases (is_only (list_active_founders (swapped f t now db) ws.id) t)) [
                  | inl only ↦ rw only refl
                  | inr not_only ↦ rw not_only refl
                ])
          | inr broken ↦ rw broken refl
        ]
