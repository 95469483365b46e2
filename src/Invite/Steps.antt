-- ===== src/Invite/Steps.antt =====
-- Requests on invites as steps on all tables, interleaved with those of the administration. A new
-- row has an id of its own.
use fast_page.Prelude.{Has, ℕ, String, Bool, Option}
use fast_page.Prelude.Dict.{Dict}
use fast_page.Json.{Json}
use fast_page.Chars.{Text}
use fast_page.Access.Principal.{Principal, User}
use fast_page.Auth.{Claims}
use fast_page.Workspace.Models.{Db}
use fast_page.Workspace.Count.{IsFresh}
use fast_page.Workspace.Steps.{IsSound}
use fast_page.Workspace.Steps
use fast_page.Workspace.Invariant.{Kept-IsSound, Step-IsSound}
use fast_page.Invite.Models.{WorkspaceInvite, Store}
use fast_page.Invite.Manage.{InviteCreate, create_invite, revoke_invite}
use fast_page.Invite.Accept.{accept_invite}
use fast_page.Invite.Claim.{claim_invite}
use fast_page.Invite.Change.{IsFreshInvite, IsSettled, Change, unchanged}
use fast_page.Invite.Orderly.{AreOrderly, Change-AreOrderly, Change-stays}
use fast_page.Invite.Effects.{After, accept-After, claim-After, revoke-After}
use fast_page.Invite.Creation.{create-After}

-- The tables are sound, and so are the invites.
abbrev pub IsStoreSound : Store → Type 0
IsStoreSound s = IsSound s.db × AreOrderly s.invites

After-IsStoreSound : (s s' : Store) → After s s' → IsStoreSound s → IsStoreSound s'
After-IsStoreSound s s' ((kept, ws), change) (sound, orderly) =
    (Kept-IsSound s.db s'.db ws kept sound, Change-AreOrderly change orderly)

module _ (loads : String → Option Json) (dumps : Dict Bool → String) (lower : Text → Text)
    (encode : Claims → String) (hash_password : Text → Text) where
  pub data InviteStep : Store → Store → Type 0 where
    administers :
        {s : Store} {db : Db}
        → Steps.Step loads dumps lower s.db db
        → InviteStep s (record s { db = db })
    creates_invite :
        {s : Store} (p : Principal) (w : ℕ) (payload : InviteCreate)
        (checked_at ttl_from now answered_at id : ℕ)
        → IsFreshInvite id s.invites
        → InviteStep s
            (create_invite loads lower dumps s p w payload checked_at ttl_from now answered_at id).1
    accepts_invite :
        {s : Store} (user : User) (id : ℕ) (jti : String) (now token_at new_tenant_id new_id : ℕ)
        → IsFresh new_id s.db.memberships
        → InviteStep s
            (accept_invite loads encode lower s user id jti now token_at new_tenant_id new_id).1
    claims_invite :
        {s : Store} (id : ℕ) (password : Text) (username : Option Text) (suffix : Text)
        (jti : String) (now token_at new_user_id new_tenant_id new_id : ℕ)
        → IsFresh new_id s.db.memberships
        → InviteStep s
            (claim_invite loads encode hash_password s id password username suffix jti now token_at
              new_user_id new_tenant_id new_id).1
    revokes_invite :
        {s : Store} (p : Principal) (w id now : ℕ)
        → InviteStep s (revoke_invite loads s p w id now).1

  -- What any run of requests leads to
  pub data InviteReach (s : Store) : Store → Type 0 where
    start : InviteReach s s
    then_request : {s' s'' : Store} → InviteReach s s' → InviteStep s' s'' → InviteReach s s''

  -- The invites change as they may, and the tables stay sound.
  Step_effect :
      {s s' : Store}
      → InviteStep s s'
      → IsStoreSound s
      → Change s.invites s'.invites × IsStoreSound s'
  Step_effect (administers step) (sound, orderly) =
      (unchanged, (Step-IsSound loads dumps lower step sound, orderly))
  Step_effect (creates_invite {s} p w payload checked_at ttl_from now answered_at id fresh) o =
      let after =
        create-After s loads lower dumps p w payload checked_at ttl_from now answered_at id o.0.0
          fresh in
      (
        after.1,
        After-IsStoreSound s
            (create_invite loads lower dumps s p w payload checked_at ttl_from now answered_at id).1
            after o,
      )
  Step_effect (accepts_invite {s} user id jti now token_at new_tenant_id new_id fresh) o =
      let after =
        accept-After s o.0.0 loads encode lower user id jti now token_at new_tenant_id new_id
          fresh in
      (
        after.1,
        After-IsStoreSound s
            (accept_invite loads encode lower s user id jti now token_at new_tenant_id new_id).1
            after o,
      )
  Step_effect
        (claims_invite {s} id password username suffix jti now token_at new_user_id new_tenant_id
          new_id fresh)
        o =
      let after =
        claim-After s o.0.0 loads encode hash_password id password username suffix jti now token_at
          new_user_id new_tenant_id new_id fresh in
      (
        after.1,
        After-IsStoreSound s
            (claim_invite loads encode hash_password s id password username suffix jti now token_at
              new_user_id new_tenant_id new_id).1
            after o,
      )
  Step_effect (revokes_invite {s} p w id now) o =
      let after = revoke-After s o.0.0 loads p w id now in
      (after.1, After-IsStoreSound s (revoke_invite loads s p w id now).1 after o)

  -- Whatever requests run, on invites (create, accept, claim, revoke) and of the administration of
  -- workspaces, in any order, from sound tables: membership ids stay distinct, every workspace keeps
  -- exactly one active founder, invite ids stay distinct, no email has two pending invites to one
  -- workspace, an invite names who accepted it and when exactly if it is accepted and when it was
  -- revoked exactly if it is revoked, and no invite is for a founder. New rows are given new ids.
  pub InviteReach-IsStoreSound :
      {s s' : Store} → InviteReach s s' → IsStoreSound s → IsStoreSound s'
  InviteReach-IsStoreSound start o = o
  InviteReach-IsStoreSound (then_request r step) o =
      (Step_effect step (InviteReach-IsStoreSound r o)).1

  -- An accepted or revoked invite is final: from sound tables, whatever requests follow, its row
  -- stays in the table with every field as it is, so it is never accepted again or withdrawn.
  pub InviteReach-settled :
      {s s' : Store} (i : WorkspaceInvite)
      → InviteReach s s'
      → IsStoreSound s
      → IsSettled i
      → Has i s.invites
      → Has i s'.invites
  InviteReach-settled i start o settled h = h
  InviteReach-settled i (then_request {s' = mid} r step) o settled h =
      let before = InviteReach-IsStoreSound r o in
      Change-stays i (Step_effect step before).0 before.1 settled
        (InviteReach-settled i r o settled h)
