-- ===== src/Workspace/Invariant.antt =====
-- One active founder for each workspace, whatever requests run.
use fast_page.Prelude.{
  ℕ, ◌≤◌, ◌≡◌, ◌≢◌, refl, sym, subst, ap, ◌∙◌, inl, inr, Bool, true, ◌&&◌, Option, List, [], String,
  ◌∷◌, ◌++◌, arith, ◌==◌, All, Bool-cases,
}
use fast_page.Prelude.Dict.{Dict}
use fast_page.Json.{Json}
use fast_page.Chars.{Text}
use fast_page.Access.Principal.{Principal, user_id}
use fast_page.Workspace.Models.{Workspace, WorkspaceMembership, Db}
use fast_page.Workspace.Queries.{is_none}
use fast_page.Workspace.Members.{new_membership, create_member, update_member, remove_member}
use fast_page.Workspace.Founder.{transfer_founder}
use fast_page.Workspace.Lifecycle.{
  WorkspaceUpdate, create_workspace, update_metadata, archive_workspace, update_workspaces,
  check_create_workspace, check_update_actor, check_archive, with_metadata, archived, new_workspace,
}
use fast_page.Workspace.Count.{founds, founder_count, IsFresh, founder_count-append, IsKeyed-append}
use fast_page.Workspace.MemberFounders.{
  Kept, guarded-Keeps, create_member-Kept, update_member-Kept, remove_member-Kept,
}
use fast_page.Workspace.Present.{founders_unique-count, count-founders_unique}
use fast_page.Workspace.FounderTransfer.{transfer_founder-Kept}
use fast_page.Workspace.Steps.{
  IsUnused, Step, Reach, IsSound, creates_member, updates_member, removes_member, transfers_founder,
  creates_workspace, updates_metadata, archives, here, then_step,
}
use fast_page.Workspace.Untouched.{
  workspaces-create_member, workspaces-update_member, workspaces-remove_member,
  workspaces-transfer_founder,
}

abbrev HasOne : List WorkspaceMembership → List Workspace → Type 0
HasOne ms = All (λ (w : Workspace). founder_count w.id ms ≡ 1)

HasOne-same :
    (ms ms' : List WorkspaceMembership) (ws : List Workspace)
    → ((v : ℕ) → founder_count v ms' ≡ founder_count v ms)
    → HasOne ms ws
    → HasOne ms' ws
HasOne-same ms ms' [] same h = tt
HasOne-same ms ms' (w ∷ ws) same h = (same w.id ∙ h.0, HasOne-same ms ms' ws same h.1)

pub Kept-IsSound :
    (db db' : Db) → db'.workspaces ≡ db.workspaces → Kept db db' → IsSound db → IsSound db'
Kept-IsSound db db' same_ws (same, keyed) (_, unique, one) = (
  keyed,
  count-founders_unique db'.memberships
      (λ v. omega (arith, same v, founders_unique-count db.memberships unique v)),
  subst (HasOne db'.memberships) (sym same_ws)
      (HasOne-same db.memberships db'.memberships db.workspaces same one),
)

HasOne-update :
    (ms : List WorkspaceMembership) (i : ℕ) (f : Workspace → Workspace) (ws : List Workspace)
    → ((w : Workspace) → (f w).id ≡ w.id)
    → HasOne ms ws
    → HasOne ms (update_workspaces i f ws)
HasOne-update ms i f [] same h = tt
HasOne-update ms i f (w ∷ ws) same h = (
  elim (Bool-cases (w.id == i)) [
    | inl e ↦ rw e (ap (λ id. founder_count id ms) (same w) ∙ h.0)
    | inr e ↦ rw e h.0
  ],
  HasOne-update ms i f ws same h.1,
)

-- A membership of a workspace that has none yet
unused_count :
    (id : ℕ) (ms : List WorkspaceMembership)
    → All (λ (m : WorkspaceMembership). m.workspace_id ≢ id) ms
    → founder_count id ms ≡ 0
unfolding founder_count
unused_count id [] h = refl
unused_count id (m ∷ ms) h = ground (arith, unused_count id ms h.1)

HasOne-append :
    (ms : List WorkspaceMembership) (m : WorkspaceMembership) (w : Workspace) (ws : List Workspace)
    → All (λ (v : Workspace). v.id ≢ w.id) ws
    → m.workspace_id ≡ w.id
    → founder_count w.id (ms ++ (m ∷ [])) ≡ 1
    → HasOne ms ws
    → HasOne (ms ++ (m ∷ [])) (ws ++ (w ∷ []))
HasOne-append ms m w [] fresh of_w one h = (one, tt)
HasOne-append ms m w (v ∷ ws) fresh of_w one h = (
  ground (arith, founder_count-append v.id ms m, h.0, fresh.0),
  HasOne-append ms m w ws fresh.1 of_w one h.1,
)

module _ (db : Db) (sound : IsSound db) (w : Workspace) (m : WorkspaceMembership)
    (unused : IsUnused w.id db) (fresh : IsFresh m.id db.memberships) (of_w : m.workspace_id ≡ w.id)
    (founder : founds w.id m ≡ true) where
  new_count : (v : ℕ) → founder_count v (db.memberships ++ (m ∷ [])) ≤ 1
  new_count v = ground (
    arith,
    founder_count-append v db.memberships m,
    founders_unique-count db.memberships sound.1 v,
    unused_count w.id db.memberships unused.1,
  )

  created-IsSound : IsSound (record db {
    workspaces = db.workspaces ++ (w ∷ []);
    memberships = db.memberships ++ (m ∷ []);
  })
  created-IsSound = (
    IsKeyed-append db.memberships m sound.0 fresh,
    count-founders_unique (db.memberships ++ (m ∷ [])) new_count,
    HasOne-append db.memberships m w db.workspaces unused.0 of_w
        (ground (
          arith,
          founder_count-append w.id db.memberships m,
          unused_count w.id db.memberships unused.1,
        ))
        sound.2,
  )

create_workspace-IsSound :
    (lower : Text → Text) (db : Db) (p : Principal) (name slug : Option Text)
    (now id membership_id : ℕ)
    → IsUnused id db
    → IsFresh membership_id db.memberships
    → IsSound db
    → IsSound (create_workspace lower db p name slug now id membership_id).1
unfolding create_workspace
create_workspace-IsSound lower db p name slug now id membership_id unused fresh sound =
    guarded-Keeps IsSound db (check_create_workspace lower db p name slug) _ sound λ (n, s) e.
      created-IsSound db sound (new_workspace p id n s now)
        (new_membership p membership_id id (user_id p) "founder" "{}" now) unused fresh refl
        (ground arith)

update_workspaces-IsSound :
    (db : Db) (i : ℕ) (f : Workspace → Workspace)
    → ((w : Workspace) → (f w).id ≡ w.id)
    → IsSound db
    → IsSound (record db { workspaces = update_workspaces i f db.workspaces })
update_workspaces-IsSound db i f same (keyed, unique, one) =
    (keyed, unique, HasOne-update db.memberships i f db.workspaces same one)

update_metadata-IsSound :
    (lower : Text → Text) (db : Db) (p : Principal) (w : ℕ) (updates : WorkspaceUpdate) (now : ℕ)
    → IsSound db
    → IsSound (update_metadata lower db p w updates now).1
unfolding update_metadata
update_metadata-IsSound lower db p w updates now sound =
    guarded-Keeps IsSound db (check_update_actor db p w) _ sound λ v e.
      elim (Bool-cases (is_none updates.name && is_none updates.slug)) [
        | inl none_set ↦ rw none_set sound
        | inr some_set ↦ rw some_set (
            guarded-Keeps IsSound db _ _ sound λ (n, s) _.
              update_workspaces-IsSound db v.id (with_metadata n s now) (λ r. refl) sound)
      ]

archive_workspace-IsSound :
    (db : Db) (p : Principal) (w now : ℕ) → IsSound db → IsSound (archive_workspace db p w now).1
unfolding archive_workspace
archive_workspace-IsSound db p w now sound =
    guarded-Keeps IsSound db (check_archive db p w) _ sound
      λ v e. update_workspaces-IsSound db v.id (archived (user_id p) now) (λ r. refl) sound

module _ (loads : String → Option Json) (dumps : Dict Bool → String) (lower : Text → Text) where
  pub Step-IsSound : {db db' : Db} → Step loads dumps lower db db' → IsSound db → IsSound db'
  Step-IsSound (creates_member {db} p w payload now id fresh) sound =
      Kept-IsSound db (create_member loads dumps db p w payload now id).1
        (workspaces-create_member loads dumps db p w payload now id)
        (create_member-Kept loads dumps db p w sound.0 payload now id fresh) sound
  Step-IsSound (updates_member {db} p w i payload now) sound =
      Kept-IsSound db (update_member loads dumps db p w i payload now).1
        (workspaces-update_member loads dumps db p w i payload now)
        (update_member-Kept loads dumps db p w sound.0 i payload now) sound
  Step-IsSound (removes_member {db} p w i now) sound =
      Kept-IsSound db (remove_member db p w i now).1
        (workspaces-remove_member loads dumps db p w i now)
        (remove_member-Kept loads dumps db p w sound.0 i now) sound
  Step-IsSound (transfers_founder {db} p w u now) sound =
      Kept-IsSound db (transfer_founder loads db p w u now).1
        (workspaces-transfer_founder loads dumps db p w u now)
        (transfer_founder-Kept loads db p w u now sound.0 sound.1) sound
  Step-IsSound (creates_workspace {db} p name slug now id membership_id unused fresh) sound =
      create_workspace-IsSound lower db p name slug now id membership_id unused fresh sound
  Step-IsSound (updates_metadata {db} p w updates now) sound =
      update_metadata-IsSound lower db p w updates now sound
  Step-IsSound (archives {db} p w now) sound = archive_workspace-IsSound db p w now sound

  -- Whatever requests run, one after the other, create, change, remove, transfer, rename or
  -- archive, from tables whose membership ids are distinct and whose every workspace has exactly
  -- one active founder: afterwards the ids are distinct, no workspace id has two active founders,
  -- and every workspace in the table has exactly one. New rows are given ids that no row has.
  pub Reach-IsSound : {db db' : Db} → Reach loads dumps lower db db' → IsSound db → IsSound db'
  Reach-IsSound here sound = sound
  Reach-IsSound (then_step r s) sound = Step-IsSound s (Reach-IsSound r sound)
