-- ===== src/Workspace/ContextFound.antt =====
-- A user with a membership to work in gets a context.
use fast_page.Prelude.{
  Has, ℕ, ◌≡◌, ◌⊎◌, inl, inr, refl, sym, subst, ap, true, Option, none, some, List, [], ◌∷◌,
  Bool-cases, ◌==◌, if◌then◌else◌, arith,
}
use fast_page.Http.{ok}
use fast_page.Workspace.Models.{Workspace, WorkspaceMembership, Db}
use fast_page.Workspace.Queries.{is_workspace_archived, get_default_workspace}
use fast_page.Workspace.Resolution.{
  MembershipContext, or_else, Row, join_one, join_rows, append_rows, first_row, earlier_row,
  row_before, fallback_row, context_of, default_row, resolve_membership_context,
}
use fast_page.Workspace.Present.{keep-Has}
use fast_page.Workspace.Context.{IsMember, admits}

append_rows-Has : (r : Row) (rs ss : List Row) → Has r rs ⊎ Has r ss → Has r (append_rows rs ss)
unfolding append_rows
append_rows-Has r [] ss (inl h) = absurd h
append_rows-Has r [] ss (inr h) = h
append_rows-Has r (q ∷ rs) ss (inl (inl e)) = inl e
append_rows-Has r (q ∷ rs) ss (inl (inr h)) = inr (append_rows-Has r rs ss (inl h))
append_rows-Has r (q ∷ rs) ss (inr h) = inr (append_rows-Has r rs ss (inr h))

join_one-Has :
    (m : WorkspaceMembership) (w : Workspace) (ws : List Workspace)
    → Has w ws
    → (m.workspace_id == w.id) ≡ true
    → Has (m, w) (join_one m ws)
unfolding join_one
join_one-Has m w [] h e = h
join_one-Has m w (v ∷ ws) (inl same) e =
    rw (subst (λ (x : Workspace). (m.workspace_id == x.id) ≡ true) (sym same) e)
      (inl (ap (λ (x : Workspace). (m, x)) same))
join_one-Has m w (v ∷ ws) (inr h) e = elim (Bool-cases (m.workspace_id == v.id)) [
  | inl yes_v ↦ rw yes_v (inr (join_one-Has m w ws h e))
  | inr no_v ↦ rw no_v (join_one-Has m w ws h e)
]

join_rows-Has :
    (m : WorkspaceMembership) (w : Workspace) (ms : List WorkspaceMembership) (ws : List Workspace)
    → Has m ms
    → Has w ws
    → (m.workspace_id == w.id) ≡ true
    → Has (m, w) (join_rows ms ws)
unfolding join_rows
join_rows-Has m w [] ws h there e = absurd h
join_rows-Has m w (n ∷ ms) ws (inl same) there e =
    append_rows-Has (m, w) (join_one n ws) (join_rows ms ws)
      (inl (subst (λ x. Has (m, w) (join_one x ws)) (sym same) (join_one-Has m w ws there e)))
join_rows-Has m w (n ∷ ms) ws (inr h) there e =
    append_rows-Has (m, w) (join_one n ws) (join_rows ms ws)
      (inr (join_rows-Has m w ms ws h there e))

earlier_row-some : (q : Row) (o : Option Row) → (q' : Row) × (earlier_row q o ≡ some q')
earlier_row-some q none = (q, refl)
earlier_row-some q (some q') = (if row_before q' q then q' else q, refl)

first_row-some : (r : Row) (rs : List Row) → Has r rs → (q : Row) × (first_row rs ≡ some q)
unfolding first_row
first_row-some r [] h = absurd h
first_row-some r (q ∷ rs) h = earlier_row-some q (first_row rs)

or_else-some :
    {A : Type 0} (o o' : Option A) {a : A} → o' ≡ some a → (b : A) × (or_else o o' ≡ some b)
or_else-some none o' {a} h = (a, h)
or_else-some (some b) o' h = (b, refl)

module _ (db : Db) (user tenant : ℕ) (c : MembershipContext) (h : IsMember db user tenant c) where
  member_admitted : admits user tenant (c.membership, c.workspace) ≡ true
  unfolding is_workspace_archived
  member_admitted =
      ground (arith, h.of_user, h.of_tenant, h.active, h.workspace_active, h.unarchived)

  member_row : (q : Row) × (fallback_row db user tenant ≡ some q)
  unfolding fallback_row
  member_row =
      first_row-some (c.membership, c.workspace) _
        (keep-Has (admits user tenant) (c.membership, c.workspace)
          (join_rows db.memberships db.workspaces)
          (join_rows-Has c.membership c.workspace db.memberships db.workspaces h.membership_there
            h.workspace_there (ground (arith, h.of_workspace)))
          member_admitted)

  -- A user who has an active membership in an active, unarchived workspace of the tenant gets a
  -- context when no workspace is named.
  pub resolve_membership_context-found :
      (c' : MembershipContext) × (resolve_membership_context db user tenant none ≡ ok c')
  unfolding resolve_membership_context
  resolve_membership_context-found =
      let (q, found) = member_row in
      let (r, chosen) =
        or_else-some (default_row db user (get_default_workspace db tenant))
          (fallback_row db user tenant) found in
      (context_of r, rw chosen refl)
