-- ===== src/Workspace/Joined.antt =====
-- The rows of the join of memberships and workspaces.
use fast_page.Prelude.{
  Has, ◌≡◌, ◌⊎◌, inl, inr, sym, subst, ap, true, some, List, [], ◌∷◌, Bool-cases, Option-cases,
  ◌==◌, arith,
}
use fast_page.Workspace.Models.{Workspace, WorkspaceMembership}
use fast_page.Workspace.Resolution.{Row, join_one, join_rows, append_rows, first_row, row_before}

Has-append_rows : (r : Row) (rs ss : List Row) → Has r (append_rows rs ss) → Has r rs ⊎ Has r ss
unfolding append_rows
Has-append_rows r [] ss h = inr h
Has-append_rows r (q ∷ rs) ss (inl e) = inl (inl e)
Has-append_rows r (q ∷ rs) ss (inr h) = elim (Has-append_rows r rs ss h) [
  | inl in_rs ↦ inl (inr in_rs)
  | inr in_ss ↦ inr in_ss
]

Has-join_one :
    (r : Row) (m : WorkspaceMembership) (ws : List Workspace)
    → Has r (join_one m ws)
    → (r.0 ≡ m) × Has r.1 ws × ((r.0.workspace_id == r.1.id) ≡ true)
unfolding join_one
Has-join_one r m [] h = absurd h
Has-join_one r m (w ∷ ws) h = elim (Bool-cases (m.workspace_id == w.id)) [
  | inl e ↦ elim (rw e at h) [
    | inl same ↦ (
      sym (ap (λ (q : Row). q.0) same),
      inl (ap (λ (q : Row). q.1) same),
      subst (λ (q : Row). (q.0.workspace_id == q.1.id) ≡ true) same e,
    )
    | inr later ↦ let (is_m, there, joins) = Has-join_one r m ws later in (is_m, inr there, joins)
  ]
  | inr e ↦ let (is_m, there, joins) = Has-join_one r m ws (rw e at h) in (is_m, inr there, joins)
]

pub Has-join_rows :
    (r : Row) (ms : List WorkspaceMembership) (ws : List Workspace)
    → Has r (join_rows ms ws)
    → Has r.0 ms × Has r.1 ws × ((r.0.workspace_id == r.1.id) ≡ true)
unfolding join_rows
Has-join_rows r [] ws h = absurd h
Has-join_rows r (m ∷ ms) ws h = elim (Has-append_rows r (join_one m ws) (join_rows ms ws) h) [
  | inl first_rows ↦
      let (is_m, there, joins) = Has-join_one r m ws first_rows in (inl (sym is_m), there, joins)
  | inr later ↦ let (in_ms, there, joins) = Has-join_rows r ms ws later in (inr in_ms, there, joins)
]

pub first_row-Has : (r : Row) (rs : List Row) → first_row rs ≡ some r → Has r rs
unfolding first_row
first_row-Has r [] h = cc
first_row-Has r (q ∷ rs) h = elim (Option-cases (first_row rs)) [
  | inl last ↦ inl (ground (arith, last))
  | inr (q', more) ↦ elim (Bool-cases (row_before q' q)) [
    | inl earlier ↦ inr (first_row-Has r rs (ground (arith, more, earlier)))
    | inr later ↦ inl (ground (arith, more, later))
  ]
]
