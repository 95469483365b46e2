-- ===== src/Workspace/Queries.antt =====
-- The queries of app/services/workspace_membership_service.py. A `select` keeps the rows of a
-- table that its `where` admits, in the order of its `order_by`; `scalar` takes the first.
use fast_page.Prelude.{
  ℕ, Bool, true, false, ◌&&◌, ◌||◌, Option, none, some, List, [], ◌∷◌, ltb, ◌==◌, keep, str_eq,
  if◌then◌else◌,
}
use fast_page.Http.{Result, ok, raise}
use fast_page.Workspace.Models.{Workspace, WorkspaceMembership, TenantMembership, Db}

-- `ORDER BY created_at, id`, by the pair of a row
abbrev pub before : ℕ × ℕ → ℕ × ℕ → Bool
before (at, id) (at', id') = ltb at at' || at == at' && ltb id id'

module _ {A : Type 0} (key : A → ℕ × ℕ) where
  unfoldable pub insert_ordered : A → List A → List A
  insert_ordered x [] = x ∷ []
  insert_ordered x (y ∷ ys) =
      let rest = insert_ordered x ys in if before (key y) (key x) then y ∷ rest else x ∷ y ∷ ys

  unfoldable pub order_by : List A → List A
  order_by [] = []
  order_by (x ∷ xs) = insert_ordered x (order_by xs)

abbrev pub first {ℓ} : {A : Type ℓ} → List A → Option A
first [] = none
first (x ∷ xs) = some x

abbrev pub membership_key : WorkspaceMembership → ℕ × ℕ
membership_key m = (m.created_at, m.id)

abbrev pub workspace_key : Workspace → ℕ × ℕ
workspace_key w = (w.created_at, w.id)

abbrev pub tenant_membership_key : TenantMembership → ℕ × ℕ
tenant_membership_key m = (m.created_at, m.id)

abbrev pub is_none {ℓ} : {A : Type ℓ} → Option A → Bool
is_none none = true
is_none (some a) = false

unfoldable pub is_workspace_archived : Workspace → Bool
is_workspace_archived w =
    str_eq w.status "archived" || (if is_none w.archived_at then false else true)

-- `db.get(Workspace, id)`
unfoldable pub get_workspace : Db → ℕ → Option Workspace
get_workspace db id = first (keep (λ w. w.id == id) db.workspaces)

unfoldable pub get_workspace_or_404 : Db → ℕ → Result Workspace
unfolding get_workspace
get_workspace_or_404 db id = elim (get_workspace db id) [
  | none ↦ raise 404 "Workspace not found"
  | some w ↦ ok w
]

unfoldable pub get_membership : Db → ℕ → ℕ → Option WorkspaceMembership
get_membership db workspace_id membership_id =
    first (keep (λ m. m.id == membership_id && m.workspace_id == workspace_id) db.memberships)

unfoldable pub get_membership_by_user : Db → ℕ → ℕ → Option WorkspaceMembership
unfolding order_by insert_ordered
get_membership_by_user db workspace_id user_id = first (
    order_by membership_key
      (keep (λ m. m.workspace_id == workspace_id && m.user_id == user_id) db.memberships))

-- The generated column `active_founder_workspace_id` is set.
abbrev pub is_active_founder : WorkspaceMembership → Bool
is_active_founder m = str_eq m.role "founder" && str_eq m.status "active"

unfoldable pub list_active_founders : Db → ℕ → List WorkspaceMembership
unfolding order_by insert_ordered
list_active_founders db workspace_id =
    order_by membership_key
      (keep (λ m. m.workspace_id == workspace_id && is_active_founder m) db.memberships)

unfoldable pub get_active_membership : Db → ℕ → ℕ → Option WorkspaceMembership
unfolding order_by insert_ordered
get_active_membership db user_id workspace_id = first (
    order_by membership_key (
      keep (λ m. m.user_id == user_id && m.workspace_id == workspace_id && str_eq m.status "active")
        db.memberships))

abbrev is_tenant : Option ℕ → ℕ → Bool
is_tenant none tenant_id = true
is_tenant (some t) tenant_id = tenant_id == t

unfoldable pub get_active_tenant_membership : Db → ℕ → Option ℕ → Option TenantMembership
unfolding order_by insert_ordered
get_active_tenant_membership db user_id tenant_id = first (
    order_by tenant_membership_key (
      keep
        (λ m. m.user_id == user_id && str_eq m.status "active" && is_tenant tenant_id m.tenant_id)
        db.tenant_memberships))

unfoldable pub get_default_workspace : Db → ℕ → Option Workspace
unfolding order_by insert_ordered
get_default_workspace db tenant_id = first (
    order_by workspace_key (
      keep
        (λ w.
          w.tenant_id == tenant_id
          && w.is_default
          && str_eq w.status "active"
          && is_none w.archived_at)
        db.workspaces))
