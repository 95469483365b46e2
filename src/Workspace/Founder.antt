-- ===== src/Workspace/Founder.antt =====
-- `transfer_workspace_founder`.
use fast_page.Prelude.{
  ℕ, String, Bool, true, false, not, ◌&&◌, ◌||◌, Option, List, [], ◌∷◌, ◌==◌, if◌then◌else◌,
}
use fast_page.Json.{Json}
use fast_page.Http.{Result, ok, raise, raise_if, ◌>>=◌, ◌>>◌}
use fast_page.Access.Principal.{Principal}
use fast_page.Workspace.Models.{Workspace, WorkspaceMembership, Db}
use fast_page.Workspace.Queries.{get_active_membership, list_active_founders, is_active_founder}
use fast_page.Workspace.Guards.{
  Request, guarded, get_workspace_for_admin, require_founder_transfer, or_404, get_membership_user,
}
use fast_page.Workspace.Members.{MemberOut, serialize_member, update_membership}

pub record TransferOut : Type 0 where
  pub workspace_id : ℕ
  pub founder_membership : MemberOut
  pub previous_founder_membership : MemberOut

abbrev founder_broken {ℓ} : {A : Type ℓ} → Result A
founder_broken = raise 409 "Workspace founder invariant is broken"

-- `if len(founders) != 1: raise …`
abbrev pub only_one : List WorkspaceMembership → Result WorkspaceMembership
only_one (m ∷ []) = ok m
only_one _ = founder_broken

unfoldable pub check_transfer :
    Db → Principal → ℕ → ℕ → Result (Workspace × WorkspaceMembership × WorkspaceMembership)
unfolding get_workspace_for_admin require_founder_transfer list_active_founders
    get_active_membership
check_transfer db p workspace_id target_user_id = do
  w ← get_workspace_for_admin db p workspace_id
  require_founder_transfer p
  founder ← only_one (list_active_founders db w.id)
  target ←
      or_404 (get_active_membership db target_user_id w.id) "Target workspace membership not found"
  raise_if (target.id == founder.id) 409 "Target user is already the workspace founder"
  ok (w, founder, target)

abbrev pub with_role : String → ℕ → WorkspaceMembership → WorkspaceMembership
with_role role now m = record m { role = role; updated_at = now }

-- The unique index on `active_founder_workspace_id`, which a flush is held to
unfoldable pub has_founder : ℕ → List WorkspaceMembership → Bool
has_founder workspace_id [] = false
has_founder workspace_id (m ∷ ms) =
    m.workspace_id == workspace_id && is_active_founder m || has_founder workspace_id ms

unfoldable pub founders_unique : List WorkspaceMembership → Bool
unfolding has_founder
founders_unique [] = true
founders_unique (m ∷ ms) =
    not (is_active_founder m && has_founder m.workspace_id ms) && founders_unique ms

abbrev pub is_only : List WorkspaceMembership → WorkspaceMembership → Bool
is_only (m ∷ []) target = m.id == target.id
is_only _ target = false

-- The tables after both flushes, before the commit
abbrev pub swapped : WorkspaceMembership → WorkspaceMembership → ℕ → Db → Db
swapped founder target now db =
    update_membership target.id (with_role "founder" now)
      (update_membership founder.id (with_role "admin" now) db)

module _ (loads : String → Option Json) where
  transfer_answer : Db → ℕ → WorkspaceMembership → WorkspaceMembership → Result TransferOut
  unfolding get_membership_user
  transfer_answer db workspace_id target previous = do
    u ← get_membership_user db target
    v ← get_membership_user db previous
    ok (record {
      workspace_id = workspace_id;
      founder_membership = serialize_member loads target u;
      previous_founder_membership = serialize_member loads previous v;
    })

  unfoldable pub transfer_founder : Db → Principal → ℕ → ℕ → (now : ℕ) → Request TransferOut
  unfolding check_transfer transfer_answer
  transfer_founder db p workspace_id target_user_id now =
      guarded db (check_transfer db p workspace_id target_user_id) λ (w, founder, target).
        let db' = swapped founder target now db in
        if not (founders_unique db'.memberships)
        then (founder_broken, db)
        else if not (is_only (list_active_founders db' w.id) target)
        then (founder_broken, db)
        else (
          transfer_answer db' w.id (with_role "founder" now target) (with_role "admin" now founder),
          db',
        )
