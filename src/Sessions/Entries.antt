-- ===== src/Sessions/Entries.antt =====
-- The list of sessions at tables with one session more.
use fast_page.Prelude.{
  Has, ℕ, ◌≡◌, refl, sym, subst, ap, ◌∙◌, inl, inr, Bool, true, false, Option, none, some, List, [],
  ◌∷◌, ◌++◌, keep, Bool-cases,
}
use fast_page.Http.{Result, ok, ◌>>◌}
use fast_page.Access.Principal.{Principal}
use fast_page.Sessions.Models.{ChatSession, SessionStore}
use fast_page.Sessions.Scope.{
  insert_sorted, sort, workspace_filter, is_default_workspace, get_skill_or_404,
  validate_skill_scope, is_listed, is_newer, list_sessions,
}
use fast_page.Sessions.Orderly.{keep-append_kept, keep-append_left_out}

module _ {A : Type 0} (le : A → A → Bool) where
  insert_sorted-head : (x : A) (xs : List A) → Has x (insert_sorted le x xs)
  unfolding insert_sorted
  insert_sorted-head x [] = inl refl
  insert_sorted-head x (y ∷ ys) = elim (Bool-cases (le x y)) [
    | inl e ↦ rw e (inl refl)
    | inr e ↦ rw e (inr (insert_sorted-head x ys))
  ]

  Has-insert_sorted : (x z : A) (xs : List A) → Has z xs → Has z (insert_sorted le x xs)
  unfolding insert_sorted
  Has-insert_sorted x z [] h = inr h
  Has-insert_sorted x z (y ∷ ys) h = elim (Bool-cases (le x y)) [
    | inl e ↦ rw e (inr h)
    | inr e ↦
        rw e (elim h [ inl here ↦ inl here | inr there ↦ inr (Has-insert_sorted x z ys there) ])
  ]

  Has-sort : (z : A) (xs : List A) → Has z xs → Has z (sort le xs)
  unfolding sort
  Has-sort z [] h = h
  Has-sort z (x ∷ xs) (inl e) =
      subst (λ y. Has y (insert_sorted le x (sort le xs))) e (insert_sorted-head x (sort le xs))
  Has-sort z (x ∷ xs) (inr h) = Has-insert_sorted x z (sort le xs) (Has-sort z xs h)

Has-append_one : {A : Type 0} (xs : List A) (y : A) → Has y (xs ++ (y ∷ []))
Has-append_one [] y = inl refl
Has-append_one (x ∷ xs) y = inr (Has-append_one xs y)

abbrev pub with_one : SessionStore → ChatSession → SessionStore
with_one st s = record st { sessions = st.sessions ++ (s ∷ []) }

module _ (st : SessionStore) (s : ChatSession) (p : Principal) where
  pub validate-with_one :
      (o : Option ℕ) → validate_skill_scope (with_one st s) p o ≡ validate_skill_scope st p o
  unfolding validate_skill_scope get_skill_or_404
  validate-with_one none = refl
  validate-with_one (some k) = refl

module _ (st : SessionStore) (s : ChatSession) (p : Principal) (skill_id : Option ℕ) where
  -- It lists the session where that is admitted,
  pub list_sessions-new :
      is_listed st p skill_id s ≡ true
      → validate_skill_scope st p skill_id ≡ ok tt
      → (ss : List ChatSession) × (list_sessions (with_one st s) p skill_id ≡ ok ss) × Has s ss
  unfolding list_sessions workspace_filter is_default_workspace
  list_sessions-new admitted valid =
      let ss : List ChatSession =
        sort is_newer (keep (is_listed st p skill_id) (with_one st s).sessions) in
      (
        ss,
        ap (λ (r : Result (Unit {0})). r >> ok ss) (validate-with_one st s p skill_id ∙ valid),
        Has-sort is_newer s (keep (is_listed st p skill_id) (with_one st s).sessions) (
            subst (λ (l : List ChatSession). Has s l)
              (sym (keep-append_kept (is_listed st p skill_id) st.sessions s admitted))
              (Has-append_one (keep (is_listed st p skill_id) st.sessions) s)),
      )

  -- and is what it was where not.
  pub list_sessions-other :
      is_listed st p skill_id s ≡ false
      → list_sessions (with_one st s) p skill_id ≡ list_sessions st p skill_id
  unfolding list_sessions workspace_filter is_default_workspace
  list_sessions-other away =
      ap
        (λ (r : Result (Unit {0})).
          r >> ok (sort is_newer (keep (is_listed st p skill_id) (with_one st s).sessions)))
        (validate-with_one st s p skill_id)
      ∙ ap (λ (l : List ChatSession). validate_skill_scope st p skill_id >> ok (sort is_newer l))
          (keep-append_left_out (is_listed st p skill_id) st.sessions s away)
