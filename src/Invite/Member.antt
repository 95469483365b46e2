-- ===== src/Invite/Member.antt =====
-- The rows that stand in the tables after an invite has given its memberships.
use fast_page.Prelude.{
  Has, List-cases, ℕ, ◌≡◌, refl, sym, ◌∙◌, inl, inr, Bool, true, false, Option, none, some, List,
  [], ◌∷◌, ◌++◌, arith, ◌==◌, keep, All, Bool-cases, str_eq,
}
use fast_page.Workspace.Models.{WorkspaceMembership, TenantMembership, Db}
use fast_page.Workspace.Queries.{first, order_by}
use fast_page.Workspace.Members.{update_rows}
use fast_page.Workspace.Count.{Has-keep, Has-order_by, first-Has}
use fast_page.Workspace.Present.{keep-Has, order_by-Has}
use fast_page.Invite.Models.{WorkspaceInvite, write}
use fast_page.Invite.Join.{
  ensure_found, ensure_tenant_membership, find_tenant_membership, tenant_membership_id, restored,
  new_tenant_membership,
}

-- A sorted query finds a row wherever one is admitted.
pub found_first :
    {A : Type 0} (key : A → ℕ × ℕ) (p : A → Bool) (xs : List A) (x : A)
    → Has x xs
    → p x ≡ true
    → (y : A) × (first (order_by key (keep p xs)) ≡ some y) × Has y xs × (p y ≡ true)
found_first key p xs x h e =
    let here = order_by-Has key x (keep p xs) (keep-Has p x xs h e) in
    elim (List-cases (order_by key (keep p xs))) [
      | inl nothing ↦ absurd (rw nothing at here)
      | inr (y, ys, more) ↦
          let (there, admitted) =
            Has-keep p y xs (Has-order_by key y (keep p xs) (rw more (inl refl))) in
          (y, rw more refl, there, admitted)
    ]

pub append-Has_end : {A : Type 0} (xs : List A) (x : A) → Has x (xs ++ (x ∷ []))
append-Has_end [] x = inl refl
append-Has_end (y ∷ ys) x = inr (append-Has_end ys x)

write-Has :
    {A : Type 0} (key : A → ℕ) (id : ℕ) (f : A → A) (x : A) (xs : List A)
    → Has x xs
    → key x ≡ id
    → Has (f x) (write key id f xs)
write-Has key id f x [] h e = h
write-Has key id f x (y ∷ ys) (inl same) e = inl (rw same (ground arith))
write-Has key id f x (y ∷ ys) (inr h) e = inr (write-Has key id f x ys h e)

-- An active row of the user in the tenant
abbrev IsInTenant : ℕ → ℕ → TenantMembership → Type 0
IsInTenant tenant_id user_id m =
    (m.tenant_id ≡ tenant_id) × (m.user_id ≡ user_id) × (str_eq m.status "active" ≡ true)

ensure_found-Has :
    (db : Db) (tenant_id user_id now new_id : ℕ) (o : Option TenantMembership)
    → find_tenant_membership db tenant_id user_id ≡ o
    → (m : TenantMembership) × Has m
        (ensure_found db o tenant_id user_id now new_id).tenant_memberships
      × IsInTenant tenant_id user_id m
unfolding ensure_found
ensure_found-Has db tenant_id user_id now new_id none e = (
  new_tenant_membership new_id tenant_id user_id now,
  append-Has_end db.tenant_memberships (new_tenant_membership new_id tenant_id user_id now),
  (refl, refl, refl),
)
ensure_found-Has db tenant_id user_id now new_id (some m) e =
    let (there, is_it) = Has-keep _ m db.tenant_memberships (first-Has m _ e) in
    elim (Bool-cases (str_eq m.status "active")) [
      | inl active ↦ (m, rw active there, (ground arith, ground arith, active))
      | inr inactive ↦ (
        restored now m,
        rw inactive
            (write-Has tenant_membership_id m.id (restored now) m db.tenant_memberships there refl),
        (ground arith, ground arith, refl),
      )
    ]

-- After an invite the user has an active membership of the tenant.
pub ensure-found :
    (db : Db) (tenant_id user_id now new_id : ℕ)
    → (m : TenantMembership) × Has m
        (ensure_tenant_membership db tenant_id user_id now new_id).tenant_memberships
      × IsInTenant tenant_id user_id m
unfolding ensure_tenant_membership
ensure-found db tenant_id user_id now new_id =
    ensure_found-Has db tenant_id user_id now new_id (find_tenant_membership db tenant_id user_id)
      refl

-- The row is no active membership of the user in the workspace.
abbrev pub IsInactive : ℕ → ℕ → WorkspaceMembership → Type 0
IsInactive w u m = m.workspace_id ≡ w → m.user_id ≡ u → str_eq m.status "active" ≡ false

-- The row, if it is an active membership of the user in the workspace, has the role and override.
abbrev pub HasRole : ℕ → ℕ → WorkspaceInvite → WorkspaceMembership → Type 0
HasRole w u i m =
    m.workspace_id ≡ w
    → m.user_id ≡ u
    → str_eq m.status "active" ≡ true
    → (m.role ≡ i.role) × (m.permissions_override_json ≡ i.permissions_override_json)

abbrev pub IsActiveIn : ℕ → ℕ → WorkspaceMembership → Type 0
IsActiveIn w u m = (m.workspace_id ≡ w) × (m.user_id ≡ u) × (str_eq m.status "active" ≡ true)

true_ne_false : true ≡ false → ⊥
true_ne_false h = cc

module _ (w u : ℕ) (i : WorkspaceInvite) where
  inactive-HasRole : (m : WorkspaceMembership) → IsInactive w u m → HasRole w u i m
  inactive-HasRole m h of_w of_u active = absurd (true_ne_false (sym active ∙ h of_w of_u))

  pub HasRole-append :
      (ms : List WorkspaceMembership) (m : WorkspaceMembership)
      → All (IsInactive w u) ms
      → HasRole w u i m
      → All (HasRole w u i) (ms ++ (m ∷ []))
  HasRole-append [] m h r = (r, tt)
  HasRole-append (x ∷ xs) m h r = (inactive-HasRole x h.0, HasRole-append xs m h.1 r)

  pub HasRole-update :
      (id : ℕ) (f : WorkspaceMembership → WorkspaceMembership) (ms : List WorkspaceMembership)
      → All (IsInactive w u) ms
      → ((m : WorkspaceMembership) → HasRole w u i (f m))
      → All (HasRole w u i) (update_rows id f ms)
  HasRole-update id f [] h r = tt
  HasRole-update id f (x ∷ xs) h r = (
    elim (Bool-cases (x.id == id)) [ inl e ↦ rw e (r x) | inr e ↦ rw e (inactive-HasRole x h.0) ],
    HasRole-update id f xs h.1 r,
  )

-- What the table of memberships holds after the invite
abbrev pub Joined : ℕ → ℕ → WorkspaceInvite → Db → Type 0
Joined w u i db =
    ((m : WorkspaceMembership) × Has m db.memberships × IsActiveIn w u m)
    × All (HasRole w u i) db.memberships
