-- ===== src/Invite/Creation.antt =====
-- What creating an invite does to the tables.
use fast_page.Prelude.{
  ℕ, ◌≡◌, refl, sym, subst, inl, inr, String, Bool, true, Option, arith, keep, Bool-cases,
  Option-cases, eq_iff,
}
use fast_page.Prelude.Dict.{Dict}
use fast_page.Json.{Json}
use fast_page.Http.{ok, >>=-eq-ok}
use fast_page.Chars.{Text}
use fast_page.Access.Roles.{is_in}
use fast_page.Access.Principal.{Principal}
use fast_page.Workspace.Models.{Workspace}
use fast_page.Workspace.Queries.{first}
use fast_page.Workspace.Count.{IsKeyed, Has-keep, first-Has}
use fast_page.Workspace.MemberFounders.{Result-cases}
use fast_page.Invite.Models.{Store, set_invite, expired, pending_unique, is_pending_for}
use fast_page.Invite.Guards.{
  invite_roles, assert_invite_role_allowed, get_workspace_for_invites, require_invite_management,
}
use fast_page.Invite.Manage.{
  InviteCreate, check_invite, clear_pending, new_invite, add_invite, create_invite,
  or_default_expiry,
}
use fast_page.Invite.Change.{IsProper, IsFreshInvite, unchanged, adds, and_then, write-IsFresh}
use fast_page.Invite.Requests.{Changes, checked-Keeps, expire-Changes, pending-IsOpen}
use fast_page.Invite.Joins.{Safe}
use fast_page.Invite.Effects.{After, After-refl, Safe-refl}

assert_invite_role_allowed-in :
    (p : Principal) (role : String) {t : Unit {0}}
    → assert_invite_role_allowed p role ≡ ok t
    → is_in role invite_roles ≡ true
unfolding assert_invite_role_allowed
assert_invite_role_allowed-in p role h = ground arith

check_invite-role :
    (lower : Text → Text) (dumps : Dict Bool → String) (s : Store) (p : Principal) (w : ℕ)
    (payload : InviteCreate) {c : Workspace × Text × String}
    → check_invite lower dumps s p w payload ≡ ok c
    → is_in payload.role invite_roles ≡ true
unfolding check_invite
check_invite-role lower dumps s p w payload h =
    elim (Result-cases (get_workspace_for_invites s.db p w)) [
      | inr (x, e) ↦ ground arith
      | inl (v, e) ↦ elim (Result-cases (require_invite_management p)) [
        | inr (x, e') ↦ ground arith
        | inl (t, e') ↦
            let (passed, allowed, rest) =
              >>=-eq-ok (assert_invite_role_allowed p payload.role) _ (rw e' at (rw e at h)) in
            assert_invite_role_allowed-in p payload.role allowed
      ]
    ]

-- The store after the look for a pending invite, and the ids that it leaves free
clear_pending-Changes :
    (s : Store) (w : ℕ) (email : Text) (checked_at id : ℕ) {s' : Store}
    → IsFreshInvite id s.invites
    → clear_pending (first (keep (is_pending_for w email) s.invites)) checked_at s ≡ ok s'
    → (s'.db ≡ s.db) × Changes s s' × IsFreshInvite id s'.invites
unfolding clear_pending
clear_pending-Changes s w email checked_at id {s'} fresh h =
    elim (Option-cases (first (keep (is_pending_for w email) s.invites))) [
      | inl none_there ↦
          let same : s ≡ s' = ground (arith, rw none_there at h) in
          subst (λ (r : Store). (r.db ≡ s.db) × Changes s r × IsFreshInvite id r.invites) same
            (refl, unchanged, fresh)
      | inr (i, found) ↦
          let (there, is_pending) =
            Has-keep (is_pending_for w email) i s.invites (first-Has i _ found) in
          let done : set_invite i.id (expired checked_at) s ≡ s' = ground (arith, rw found at h) in
          subst (λ (r : Store). (r.db ≡ s.db) × Changes s r × IsFreshInvite id r.invites) done
            (
              refl,
              expire-Changes s i checked_at there
                  (pending-IsOpen i ((eq_iff i.status "pending").0 (ground arith))),
              write-IsFresh i.id (expired checked_at) id s.invites (λ r. refl) fresh,
            )
    ]

new_invite-IsProper :
    (p : Principal) (id w : ℕ) (email : Text) (role json : String) (expires_at now : ℕ)
    → is_in role invite_roles ≡ true
    → IsProper (new_invite p id w email role json expires_at now)
new_invite-IsProper p id w email role json expires_at now h = record {
  accepted_by = refl;
  accepted_when = refl;
  revoked_when = refl;
  invites_role = h;
}

pub create-After :
    (s : Store) (loads : String → Option Json) (lower : Text → Text) (dumps : Dict Bool → String)
    (p : Principal) (w : ℕ) (payload : InviteCreate) (checked_at ttl_from now answered_at id : ℕ)
    → IsKeyed s.db.memberships
    → IsFreshInvite id s.invites
    → After s
        (create_invite loads lower dumps s p w payload checked_at ttl_from now answered_at id).1
unfolding create_invite
create-After s loads lower dumps p w payload checked_at ttl_from now answered_at id keyed fresh =
    let same = After-refl s keyed in
    checked-Keeps (After s) s (check_invite lower dumps s p w payload) _ same
      λ (v, email, json) passed.
        checked-Keeps (After s) s
          (clear_pending (first (keep (is_pending_for v.id email) s.invites)) checked_at s) _ same
          λ s' cleared.
            let (same_db, changes, fresh') =
              clear_pending-Changes s v.id email checked_at id fresh cleared in
            let i =
              new_invite p id v.id email payload.role json
                (or_default_expiry payload.expires_at ttl_from) now in
            elim (Bool-cases (pending_unique (add_invite i s').invites)) [
              | inr conflict ↦ rw conflict same
              | inl unique ↦ rw unique (
                subst (Safe s.db) (sym same_db) (Safe-refl s.db keyed),
                and_then changes (
                    adds i fresh'
                      (new_invite-IsProper p id v.id email payload.role json
                        (or_default_expiry payload.expires_at ttl_from) now
                        (check_invite-role lower dumps s p w payload passed))
                      unique),
              )
            ]
