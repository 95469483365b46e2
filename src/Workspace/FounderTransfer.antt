-- ===== src/Workspace/FounderTransfer.antt =====
-- A transfer of the founder's role passes both checks of its end and leaves one founder.
use fast_page.Prelude.{
  Has, ℕ, ◌≡◌, refl, sym, subst, ap, ◌∙◌, inl, inr, true, false, ◌&&◌, Option, some, List, [],
  String, ◌∷◌, arith, ◌==◌, keep, if◌then◌else◌, Bool-cases, str_eq,
}
use fast_page.Json.{Json}
use fast_page.Http.{ok}
use fast_page.Access.Principal.{Principal}
use fast_page.Workspace.Models.{Workspace, WorkspaceMembership, Db}
use fast_page.Workspace.Queries.{membership_key, get_active_membership, list_active_founders}
use fast_page.Workspace.Guards.{get_workspace_for_admin}
use fast_page.Workspace.Members.{update_rows}
use fast_page.Workspace.Founder.{
  only_one, check_transfer, with_role, founders_unique, swapped, transfer_founder,
}
use fast_page.Workspace.Count.{
  founds, as_number, founder_count, IsKeyed, Has-keep, first-Has, Has-order_by,
  founder_count-update_rows, IsKeyed-update_rows,
}
use fast_page.Workspace.MemberFounders.{Result-cases, Kept, Kept-refl}
use fast_page.Workspace.Present.{
  keep-Has, order_by-Has, update_rows-Has, length-keep-founds, Has-only, founder_count-Has,
  founders_unique-count, count-founders_unique,
}

-- What the checks find: the only active founder of the workspace and another active member of it.
record Found (db : Db) (w : ℕ) (f t : WorkspaceMembership) : Type 0 where
  pub only : list_active_founders db w ≡ f ∷ []
  pub there : Has t db.memberships
  pub same_workspace : (t.workspace_id == w) ≡ true
  pub active : str_eq t.status "active" ≡ true
  pub other : (t.id == f.id) ≡ false

only_one-eq-ok :
    (ms : List WorkspaceMembership) {m : WorkspaceMembership} → only_one ms ≡ ok m → ms ≡ m ∷ []
only_one-eq-ok [] h = cc
only_one-eq-ok (m ∷ []) h = cc
only_one-eq-ok (m ∷ n ∷ ms) h = cc

pub get_active_membership-row :
    (db : Db) (u w : ℕ) {m : WorkspaceMembership}
    → get_active_membership db u w ≡ some m
    → Has m db.memberships
      × ((m.user_id == u && m.workspace_id == w && str_eq m.status "active") ≡ true)
unfolding get_active_membership
get_active_membership-row db u w {m} h =
    Has-keep
      (λ (r : WorkspaceMembership).
        r.user_id == u && r.workspace_id == w && str_eq r.status "active")
      m db.memberships (Has-order_by membership_key m _ (first-Has m _ h))

check_transfer-Found :
    (db : Db) (p : Principal) (w u : ℕ) {ws : Workspace} {f t : WorkspaceMembership}
    → check_transfer db p w u ≡ ok (ws, f, t)
    → (list_active_founders db ws.id ≡ f ∷ [])
      × (get_active_membership db u ws.id ≡ some t)
      × ((t.id == f.id) ≡ false)
unfolding check_transfer
check_transfer-Found db p w u {ws} {f} {t} h =
    elim (Result-cases (get_workspace_for_admin db p w)) [
      | inl (v, e) ↦ ground (arith, only_one-eq-ok (list_active_founders db v.id) {m = f})
      | inr (x, e) ↦ ground arith
    ]

found :
    (db : Db) (p : Principal) (w u : ℕ) {ws : Workspace} {f t : WorkspaceMembership}
    → check_transfer db p w u ≡ ok (ws, f, t)
    → Found db ws.id f t
found db p w u {ws} {f} {t} h =
    let (only, got, other) = check_transfer-Found db p w u {ws = ws} h in
    let (there, passes) = get_active_membership-row db u ws.id {m = t} got in
    record {
      only = only;
      there = there;
      same_workspace = ground (arith, passes);
      active = ground (arith, passes);
      other = other;
    }

module _ (db : Db) (w now : ℕ) (f t : WorkspaceMembership) (r : Found db w f t)
    (keyed : IsKeyed db.memberships) where
  founder_row : Has f db.memberships × (founds w f ≡ true)
  unfolding list_active_founders
  founder_row =
      Has-keep (founds w) f db.memberships
        (Has-order_by membership_key f _ (subst (Has f) (sym r.only) (inl refl)))

  -- The target is no founder yet: it would be the only one.
  target_row : founds w t ≡ false
  unfolding list_active_founders
  target_row = elim (Bool-cases (founds w t)) [
    | inl e ↦
        let listed : Has t (f ∷ []) =
          subst (Has t) r.only
            (order_by-Has membership_key t _ (keep-Has (founds w) t db.memberships r.there e)) in
        elim listed [
          | inl same ↦ ground (arith, r.other, ap (λ (m : WorkspaceMembership). m.id) same)
          | inr none_left ↦ absurd none_left
        ]
    | inr e ↦ e
  ]

  -- The rows after the first flush and after the second
  demoted : List WorkspaceMembership
  demoted = update_rows f.id (with_role "admin" now) db.memberships

  swapped_rows : List WorkspaceMembership
  unfolding demoted
  swapped_rows = update_rows t.id (with_role "founder" now) demoted

  target_demoted : Has t demoted
  unfolding demoted
  target_demoted =
      subst
        (λ b.
          Has (if b then with_role "admin" now t else t)
            (update_rows f.id (with_role "admin" now) db.memberships))
        r.other (update_rows-Has f.id (with_role "admin" now) t db.memberships r.there)

  demoted-IsKeyed : IsKeyed demoted
  unfolding demoted
  demoted-IsKeyed =
      IsKeyed-update_rows f.id (with_role "admin" now) db.memberships (λ m. refl) keyed

  swapped-IsKeyed : IsKeyed swapped_rows
  unfolding swapped_rows
  swapped-IsKeyed =
      IsKeyed-update_rows t.id (with_role "founder" now) demoted (λ m. refl) demoted-IsKeyed

  same_weight :
      (v : ℕ)
      → (founds v t ≡ false)
        × (founds v (with_role "founder" now t) ≡ founds v f)
        × (founds v (with_role "admin" now f) ≡ false)
  same_weight v = ground (arith, r.same_workspace, r.active, target_row, founder_row.1)

  swapped-count : (v : ℕ) → founder_count v swapped_rows ≡ founder_count v db.memberships
  unfolding swapped_rows demoted
  swapped-count v =
      let first_write =
        founder_count-update_rows v f.id (with_role "admin" now) f db.memberships keyed
          founder_row.0 refl in
      let second_write =
        founder_count-update_rows v t.id (with_role "founder" now) t demoted demoted-IsKeyed
          target_demoted refl in
      let (old, new, no_more) = same_weight v in
      omega
        (arith, first_write, second_write, ap as_number old, ap as_number new, ap as_number no_more)

  swapped_unique : founders_unique db.memberships ≡ true → founders_unique swapped_rows ≡ true
  swapped_unique h =
      count-founders_unique swapped_rows
        (λ v. omega (arith, swapped-count v, founders_unique-count db.memberships h v))

  new_founder : WorkspaceMembership
  new_founder = with_role "founder" now t

  new_founder-Has : Has new_founder swapped_rows
  unfolding swapped_rows new_founder
  new_founder-Has =
      let here : (t.id == t.id) ≡ true = ground arith in
      subst (λ b. Has (if b then with_role "founder" now t else t) swapped_rows) here
        (update_rows-Has t.id (with_role "founder" now) t demoted target_demoted)

  -- The list of active founders after both flushes
  swapped-only :
      founders_unique db.memberships ≡ true
      → list_active_founders (swapped f t now db) w ≡ new_founder ∷ []
  unfolding list_active_founders swapped_rows demoted new_founder
  swapped-only h =
      let (there, counts) = founder_row in
      let one : founder_count w swapped_rows ≡ 1 = omega (
        arith,
        swapped-count w,
        founders_unique-count db.memberships h w,
        founder_count-Has w f db.memberships there counts,
      ) in
      let kept =
        Has-only new_founder (keep (founds w) swapped_rows)
          (length-keep-founds w swapped_rows ∙ one)
          (keep-Has (founds w) new_founder swapped_rows new_founder-Has
            (let (_, new, _) = same_weight w in new ∙ counts)) in
      rw kept refl

module _ (loads : String → Option Json) (db : Db) (p : Principal) (w u now : ℕ)
    (keyed : IsKeyed db.memberships) (unique : founders_unique db.memberships ≡ true) where
  -- Where membership ids are distinct and no workspace has two active founders, a transfer that
  -- passes its checks commits exactly the two role changes: neither check of the founder invariant
  -- at its end fails, the target is then the only active founder of the workspace, and no workspace
  -- has two.
  pub transfer_founder-swapped :
      {ws : Workspace} {f t : WorkspaceMembership}
      → check_transfer db p w u ≡ ok (ws, f, t)
      → ((transfer_founder loads db p w u now).1 ≡ swapped f t now db)
        × (list_active_founders (swapped f t now db) ws.id ≡ with_role "founder" now t ∷ [])
        × (founders_unique (swapped f t now db).memberships ≡ true)
  unfolding transfer_founder swapped_rows demoted new_founder
  transfer_founder-swapped {ws} {f} {t} h =
      let r = found db p w u h in
      let one_left = swapped-only db ws.id now f t r keyed unique in
      let still_unique = swapped_unique db ws.id now f t r keyed unique in
      let same_id : (t.id == t.id) ≡ true = ground arith in
      (rw h (rw still_unique (rw one_left (rw same_id refl))), one_left, still_unique)

  pub transfer_founder-Kept : Kept db (transfer_founder loads db p w u now).1
  unfolding transfer_founder swapped_rows demoted
  transfer_founder-Kept = elim (Result-cases (check_transfer db p w u)) [
    | inl ((ws, f, t), h) ↦
        let r = found db p w u h in
        subst (Kept db) (sym (transfer_founder-swapped h).0)
          (λ v. swapped-count db ws.id now f t r keyed v, swapped-IsKeyed db ws.id now f t r keyed)
    | inr (x, h) ↦ rw h (Kept-refl db keyed)
  ]
