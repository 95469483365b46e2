-- ===== src/Workspace/MemberFounders.antt =====
-- No operation on members touches a founder.
use fast_page.Prelude.{
  Has, ℕ, ◌≡◌, refl, sym, ap, ◌∙◌, ◌⊎◌, inl, inr, Bool, false, Option, none, some, [], String, ◌∷◌,
  ◌++◌, arith, Bool-cases, Option-cases, str_eq,
}
use fast_page.Prelude.Dict.{Dict}
use fast_page.Json.{Json}
use fast_page.Http.{HttpException, Result, ok, err, raise_if, >>=-eq-ok}
use fast_page.Access.Principal.{Principal, User}
use fast_page.Workspace.Models.{Workspace, WorkspaceMembership, Db}
use fast_page.Workspace.Queries.{membership_key, get_membership, get_membership_by_user}
use fast_page.Workspace.Guards.{
  Request, guarded, assert_manageable_target, assert_assignable_role, or_404,
  get_workspace_for_admin, validate_membership_role,
}
use fast_page.Workspace.Members.{
  update_membership, MemberCreate, MemberUpdate, check_create, create_member, check_update,
  update_member, check_remove, remove_member, is_empty_update, next_override, edited, removed,
  reactivated, new_membership,
}
use fast_page.Workspace.Count.{
  founds, as_number, founder_count, IsKeyed, Has-keep, first-Has, Has-order_by,
  founder_count-update_rows, founder_count-append, IsKeyed-append, IsKeyed-update_rows, IsFresh,
}

-- Two tables have the same number of active founders in every workspace.
abbrev pub SameFounders : Db → Db → Type 0
SameFounders db db' = (w : ℕ) → founder_count w db'.memberships ≡ founder_count w db.memberships

pub Result-cases :
    {A : Type 0} (r : Result A) → ((a : A) × (r ≡ ok a)) ⊎ ((e : HttpException) × (r ≡ err e))
Result-cases (ok a) = inl (a, refl)
Result-cases (err e) = inr (e, refl)

pub guarded-Keeps :
    {A B : Type 0} (P : Db → Type 0) (db : Db) (r : Result B) (f : B → Request A)
    → P db
    → ((b : B) → r ≡ ok b → P (f b).1)
    → P (guarded db r f).1
guarded-Keeps P db (ok b) f h k = k b refl
guarded-Keeps P db (err e) f h k = h

pub or_404-eq-ok :
    {A : Type 0} (o : Option A) (detail : String) {a : A} → or_404 o detail ≡ ok a → o ≡ some a
or_404-eq-ok none detail h = cc
or_404-eq-ok (some a) detail h = cc

pub get_membership-Has :
    (db : Db) (w i : ℕ) {m : WorkspaceMembership}
    → get_membership db w i ≡ some m
    → Has m db.memberships
unfolding get_membership
get_membership-Has db w i {m} h = (Has-keep _ m db.memberships (first-Has m _ h)).0

get_membership_by_user-Has :
    (db : Db) (w u : ℕ) {m : WorkspaceMembership}
    → get_membership_by_user db w u ≡ some m
    → Has m db.memberships
unfolding get_membership_by_user
get_membership_by_user-Has db w u {m} h =
    (Has-keep _ m db.memberships (Has-order_by membership_key m _ (first-Has m _ h))).0

-- The check on the target passes only where neither its role nor the new one is the founder's.
assert_manageable_target-roles :
    (p : Principal) (m : WorkspaceMembership) (role : String) {t : Unit {0}}
    → assert_manageable_target p m role ≡ ok t
    → (str_eq m.role "founder" ≡ false) × (str_eq role "founder" ≡ false)
unfolding assert_manageable_target
assert_manageable_target-roles p m role h = ground arith

check_update-roles :
    (db : Db) (p : Principal) (w i : ℕ) (payload : MemberUpdate) {m : WorkspaceMembership}
    {role status : String}
    → check_update db p w i payload ≡ ok (m, role, status)
    → Has m db.memberships × (str_eq m.role "founder" ≡ false) × (str_eq role "founder" ≡ false)
unfolding check_update
check_update-roles db p w i payload {m} {role} {status} h =
    elim (Result-cases (get_workspace_for_admin db p w)) [
      | inl (ws, e) ↦ ground (
        arith,
        get_membership-Has db ws.id i {m = m},
        assert_manageable_target-roles p m role {t = tt},
      )
      | inr (x, e) ↦ ground arith
    ]

check_remove-roles :
    (db : Db) (p : Principal) (w i : ℕ) {m : WorkspaceMembership}
    → check_remove db p w i ≡ ok m
    → Has m db.memberships × (str_eq m.role "founder" ≡ false)
unfolding check_remove
check_remove-roles db p w i {m} h = elim (Result-cases (get_workspace_for_admin db p w)) [
  | inl (ws, e) ↦ ground (
    arith,
    get_membership-Has db ws.id i {m = m},
    assert_manageable_target-roles p m m.role {t = tt},
  )
  | inr (x, e) ↦ ground arith
]

assert_assignable_role-role :
    (p : Principal) (role : String) {t : Unit {0}}
    → assert_assignable_role p role ≡ ok t
    → str_eq role "founder" ≡ false
unfolding assert_assignable_role
assert_assignable_role-role p role h = ground arith

validate_membership_role-same :
    (role : String) {r : String} → validate_membership_role (some role) ≡ ok r → r ≡ role
unfolding validate_membership_role
validate_membership_role-same role h = ground arith

check_create-role :
    (dumps : Dict Bool → String) (db : Db) (p : Principal) (w : ℕ) (payload : MemberCreate)
    {ws : Workspace} {u : User} {json : String}
    → check_create dumps db p w payload ≡ ok (ws, u, json)
    → str_eq payload.role "founder" ≡ false
unfolding check_create validate_membership_role
check_create-role dumps db p w payload h =
    ground (arith, assert_assignable_role-role p payload.role {t = tt})

-- The founders are the same in number, and `id` is still a primary key.
abbrev pub Kept : Db → Db → Type 0
Kept db db' = SameFounders db db' × IsKeyed db'.memberships

pub Kept-update_membership :
    (db : Db) (m : WorkspaceMembership) (f : WorkspaceMembership → WorkspaceMembership)
    → IsKeyed db.memberships
    → Has m db.memberships
    → ((r : WorkspaceMembership) → (f r).id ≡ r.id)
    → ((w : ℕ) → founds w (f m) ≡ founds w m)
    → Kept db (update_membership m.id f db)
Kept-update_membership db m f keyed has same_id same = (
  λ w. omega (
    arith,
    founder_count-update_rows w m.id f m db.memberships keyed has refl,
    ap as_number (same w),
  ),
  IsKeyed-update_rows m.id f db.memberships same_id keyed,
)

pub Kept-refl : (db : Db) → IsKeyed db.memberships → Kept db db
Kept-refl db keyed = (λ w. refl, keyed)

-- A row whose role is not the founder's counts for no workspace.
pub not_founding :
    (w : ℕ) (m : WorkspaceMembership) → str_eq m.role "founder" ≡ false → founds w m ≡ false
not_founding w m h = ground arith

pub create_row-Kept :
    (db : Db) (keyed : IsKeyed db.memberships) (m : WorkspaceMembership)
    → IsFresh m.id db.memberships
    → str_eq m.role "founder" ≡ false
    → Kept db (record db { memberships = db.memberships ++ (m ∷ []) })
create_row-Kept db keyed m fresh role = (
  λ v. omega (arith, founder_count-append v db.memberships m, ap as_number (not_founding v m role)),
  IsKeyed-append db.memberships m keyed fresh,
)

module _ (loads : String → Option Json) (dumps : Dict Bool → String) (db : Db) (p : Principal)
    (w : ℕ) (keyed : IsKeyed db.memberships) where
  -- Changing a member, whatever the request sets and however it ends, leaves the number of active
  -- founders of every workspace as it is.
  pub update_member-Kept :
      (i : ℕ) (payload : MemberUpdate) (now : ℕ)
      → Kept db (update_member loads dumps db p w i payload now).1
  unfolding update_member
  update_member-Kept i payload now =
      guarded-Keeps (Kept db) db (check_update db p w i payload) _ (Kept-refl db keyed)
        λ (m, role, status) e. elim (Bool-cases (is_empty_update payload)) [
          | inl none_set ↦ rw none_set (Kept-refl db keyed)
          | inr some_set ↦ rw some_set (
              guarded-Keeps (Kept db) db (next_override dumps payload.permissions_override role m) _
                (Kept-refl db keyed)
                λ override_json _.
                  let (has, old, new) = check_update-roles db p w i payload e in
                  Kept-update_membership db m (edited role status override_json now) keyed has
                    (λ r. refl)
                    (λ v.
                      not_founding v (edited role status override_json now m) new
                      ∙ sym (not_founding v m old)))
        ]

  -- Removing a member does so too.
  pub remove_member-Kept : (i now : ℕ) → Kept db (remove_member db p w i now).1
  unfolding remove_member
  remove_member-Kept i now =
      guarded-Keeps (Kept db) db (check_remove db p w i) _ (Kept-refl db keyed) λ m e.
        elim (Bool-cases (str_eq m.status "removed")) [
          | inl gone ↦ rw gone (Kept-refl db keyed)
          | inr there ↦
              let (has, old) = check_remove-roles db p w i e in
              rw there (
                Kept-update_membership db m (removed now) keyed has (λ r. refl)
                  (λ v. not_founding v (removed now m) old ∙ sym (not_founding v m old)))
        ]

  -- And so does adding a member, new or one who comes back, if the new row's id is new.
  pub create_member-Kept :
      (payload : MemberCreate) (now new_id : ℕ)
      → IsFresh new_id db.memberships
      → Kept db (create_member loads dumps db p w payload now new_id).1
  unfolding create_member
  create_member-Kept payload now new_id fresh =
      guarded-Keeps (Kept db) db (check_create dumps db p w payload) _ (Kept-refl db keyed)
        λ (ws, u, json) e.
          let role = check_create-role dumps db p w payload e in
          elim (Option-cases (get_membership_by_user db ws.id u.id)) [
            | inl new ↦ rw new (
                create_row-Kept db keyed (new_membership p new_id ws.id u.id payload.role json now)
                  fresh role)
            | inr (m, former) ↦ rw former (
                guarded-Keeps (Kept db) db _ _ (Kept-refl db keyed) λ t passed.
                  let (_, manageable, _) =
                    >>=-eq-ok (assert_manageable_target p m payload.role)
                      (λ _.
                        raise_if (str_eq m.status "active") 409
                          "Workspace membership already exists")
                      passed in
                  let (old, _) = assert_manageable_target-roles p m payload.role manageable in
                  let back = reactivated payload.role json now in
                  Kept-update_membership db m back keyed
                    (get_membership_by_user-Has db ws.id u.id former) (λ r. refl)
                    (λ v. not_founding v (back m) role ∙ sym (not_founding v m old)))
          ]
