-- ===== src/Invite/Effects.antt =====
-- What accepting, claiming and revoking an invite do to the tables.
use fast_page.Prelude.{
  Has, ℕ, ◌≡◌, refl, sym, subst, ap, ◌∙◌, inl, inr, String, false, ◌&&◌, ◌==◌, Option, arith, keep,
  Bool-cases, str_eq, eq_iff, leb,
}
use fast_page.Json.{Json}
use fast_page.Http.{ok, >>=-eq-ok}
use fast_page.Chars.{Text}
use fast_page.Access.Principal.{Principal, User}
use fast_page.Auth.{Claims}
use fast_page.Workspace.Models.{Db}
use fast_page.Workspace.Queries.{first}
use fast_page.Workspace.Guards.{or_404}
use fast_page.Workspace.Count.{founder_count, IsFresh, IsKeyed, Has-keep, first-Has}
use fast_page.Workspace.MemberFounders.{Kept-refl, Result-cases, or_404-eq-ok}
use fast_page.Invite.Models.{WorkspaceInvite, Store, set_invite, effective_status, expired}
use fast_page.Invite.Guards.{get_workspace_for_invites, require_invite_management}
use fast_page.Invite.Manage.{find_revocable, revoked, revoke_invite}
use fast_page.Invite.Join.{accepted, joined, invite_workspace}
use fast_page.Invite.Accept.{accept_invite, check_accept, join_workspace}
use fast_page.Invite.Claim.{claim_invite, claim_user, find_by_email}
use fast_page.Invite.Change.{IsOpen, unchanged, settles}
use fast_page.Invite.Requests.{
  Changes, checked-Keeps, expire-Changes, with_pending-Keeps, expired-IsOpen, pending-IsOpen,
  accepted-IsSettling, revoked-IsSettling,
}
use fast_page.Invite.Joins.{Safe, join_workspace-Safe, claim_user-same}

-- What every request on invites does: founders and workspaces stay, and invites change as they may.
abbrev pub After : Store → Store → Type 0
After s s' = Safe s.db s'.db × Changes s s'

pub Safe-refl : (db : Db) → IsKeyed db.memberships → Safe db db
Safe-refl db keyed = (Kept-refl db keyed, refl)

-- A row of the founders' table that only the users' change went before
Safe-before :
    (db db' db'' : Db)
    → db'.memberships ≡ db.memberships
    → db'.workspaces ≡ db.workspaces
    → Safe db' db''
    → Safe db db''
Safe-before db db' db'' same same_ws ((counts, keyed), ws) =
    ((λ v. counts v ∙ ap (founder_count v) same, keyed), ws ∙ same_ws)

pub After-refl : (s : Store) → IsKeyed s.db.memberships → After s s
After-refl s keyed = (Safe-refl s.db keyed, unchanged)

-- The runtime status hides only what is pending.
revocable-IsOpen :
    (i : WorkspaceInvite) (now : ℕ)
    → str_eq (effective_status i now) "accepted" ≡ false
    → str_eq (effective_status i now) "revoked" ≡ false
    → IsOpen i
unfolding effective_status
revocable-IsOpen i now a r = elim (Bool-cases (str_eq i.status "pending" && leb i.expires_at now)) [
  | inl late ↦ pending-IsOpen i ((eq_iff i.status "pending").0 (ground arith))
  | inr kept ↦ (rw kept at a, rw kept at r)
]

module _ (s : Store) (keyed : IsKeyed s.db.memberships) where
  expire-After :
      (now : ℕ) (i : WorkspaceInvite)
      → Has i s.invites
      → IsOpen i
      → After s (set_invite i.id (expired now) s)
  expire-After now i there open_i = (Safe-refl s.db keyed, expire-Changes s i now there open_i)

  joined-After :
      (i : WorkspaceInvite) (user : User) (tenant_id now : ℕ) (db : Db)
      → Has i s.invites
      → IsOpen i
      → Safe s.db db
      → After s (joined s db i user tenant_id now)
  joined-After i user tenant_id now db there open_i safe = (
    safe,
    settles i (accepted user.id now) there open_i (accepted-IsSettling user.id now i open_i),
  )

  module _ (loads : String → Option Json) (encode : Claims → String) where
    pub accept-After :
        (lower : Text → Text) (user : User) (id : ℕ) (jti : String)
        (now token_at new_tenant_id new_id : ℕ)
        → IsFresh new_id s.db.memberships
        → After s
            (accept_invite loads encode lower s user id jti now token_at new_tenant_id new_id).1
    unfolding accept_invite
    accept-After lower user id jti now token_at new_tenant_id new_id fresh =
        with_pending-Keeps (After s) s id now _ (After-refl s keyed) (expire-After now)
          λ i there _ pending.
            checked-Keeps (After s) s (check_accept lower s.db user i) _ (After-refl s keyed) λ w _.
              checked-Keeps (After s) s (join_workspace s.db user w i now new_tenant_id new_id) _
                (After-refl s keyed)
                λ db e.
                  joined-After i user w.tenant_id now db there (pending-IsOpen i pending.0)
                    (join_workspace-Safe s.db user w i now new_tenant_id new_id keyed fresh e)

    pub claim-After :
        (hash_password : Text → Text) (id : ℕ) (password : Text) (username : Option Text)
        (suffix : Text) (jti : String) (now token_at new_user_id new_tenant_id new_id : ℕ)
        → IsFresh new_id s.db.memberships
        → After s
            (claim_invite loads encode hash_password s id password username suffix jti now token_at
              new_user_id new_tenant_id new_id).1
    unfolding claim_invite
    claim-After hash_password id password username suffix jti now token_at new_user_id new_tenant_id
          new_id fresh =
        let same = After-refl s keyed in
        with_pending-Keeps (After s) s id now _ same (expire-After now) λ i there _ pending.
          checked-Keeps (After s) s (invite_workspace s.db i "Workspace is archived") _ same λ w _.
            checked-Keeps (After s) s
              (claim_user hash_password s.db (find_by_email s.db i.email) i.email password username
                suffix w.tenant_id now new_user_id)
              _ same
              λ (user, db) claimed.
                let (ms, ws) =
                  claim_user-same hash_password s.db (find_by_email s.db i.email) i.email password
                    username suffix w.tenant_id now new_user_id {u = user} {db' = db} claimed in
                checked-Keeps (After s) s (join_workspace db user w i now new_tenant_id new_id) _
                  same
                  λ db' e.
                    joined-After i user w.tenant_id now db' there (pending-IsOpen i pending.0) (
                      Safe-before s.db db db' ms ws (
                        join_workspace-Safe db user w i now new_tenant_id new_id
                          (subst IsKeyed (sym ms) keyed) (subst (IsFresh new_id) (sym ms) fresh) e))

  find_revocable-Has :
      (p : Principal) (w id : ℕ) {i : WorkspaceInvite}
      → find_revocable s p w id ≡ ok i
      → Has i s.invites
  unfolding find_revocable
  find_revocable-Has p w id {i} h = elim (Result-cases (get_workspace_for_invites s.db p w)) [
    | inr (x, e) ↦ ground arith
    | inl (v, e) ↦ elim (Result-cases (require_invite_management p)) [
      | inr (x, e') ↦ ground arith
      | inl (t, e') ↦
          let (j, found, rest) =
            >>=-eq-ok
              (or_404 (first (keep (λ i. i.id == id && i.workspace_id == v.id) s.invites))
                "Invite not found")
              _ (rw e' at (rw e at h)) in
          let is_i : j ≡ i = ground arith in
          subst (λ r. Has r s.invites) is_i
            (Has-keep _ j s.invites (first-Has j _ (or_404-eq-ok _ "Invite not found" found))).0
    ]
  ]

  pub revoke-After :
      (loads : String → Option Json) (p : Principal) (w id now : ℕ)
      → After s (revoke_invite loads s p w id now).1
  unfolding revoke_invite
  revoke-After loads p w id now =
      let same = After-refl s keyed in
      checked-Keeps (After s) s (find_revocable s p w id) _ same λ i found.
        let there = find_revocable-Has p w id found in
        elim (Bool-cases (str_eq (effective_status i now) "accepted")) [
          | inl e ↦ rw e same
          | inr a ↦ elim (Bool-cases (str_eq (effective_status i now) "revoked")) [
            | inl e ↦ rw (a, e) same
            | inr r ↦ elim (Bool-cases (str_eq (effective_status i now) "expired")) [
              | inl e ↦ rw (a, r, e) (expire-After now i there (expired-IsOpen i now e))
              | inr x ↦ elim (Bool-cases (str_eq (effective_status i now) "pending")) [
                | inr e ↦ rw (a, r, x, e) same
                | inl e ↦
                    rw (a, r, x, e)
                      (
                        Safe-refl s.db keyed,
                        settles i (revoked now) there (revocable-IsOpen i now a r)
                            (revoked-IsSettling now i (revocable-IsOpen i now a r)),
                      )
              ]
            ]
          ]
        ]
