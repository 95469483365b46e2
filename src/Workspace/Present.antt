-- ===== src/Workspace/Present.antt =====
-- Which rows a query finds, and what a count of one says of them.
use fast_page.Prelude.{
  Has, ℕ, ◌≤◌, ◌≡◌, refl, sym, subst, ap, ◌⊎◌, inl, inr, Bool, true, false, List, [], ◌∷◌, arith,
  ◌==◌, keep, length, if◌then◌else◌, Bool-cases,
}
use fast_page.Workspace.Models.{WorkspaceMembership}
use fast_page.Workspace.Queries.{before, insert_ordered, order_by}
use fast_page.Workspace.Members.{update_rows}
use fast_page.Workspace.Founder.{has_founder, founders_unique}
use fast_page.Workspace.Count.{founds, founder_count}

pub keep-Has :
    {A : Type 0} (p : A → Bool) (x : A) (xs : List A) → Has x xs → p x ≡ true → Has x (keep p xs)
keep-Has p x [] h e = h
keep-Has p x (y ∷ ys) (inl same) e = rw (subst (λ z. p z ≡ true) (sym same) e) (inl same)
keep-Has p x (y ∷ ys) (inr h) e = elim (Bool-cases (p y)) [
  | inl yes_p ↦ rw yes_p (inr (keep-Has p x ys h e))
  | inr no_p ↦ rw no_p (keep-Has p x ys h e)
]

module _ {A : Type 0} (key : A → ℕ × ℕ) where
  insert_ordered-Has :
      (x y : A) (ys : List A) → (y ≡ x) ⊎ Has x ys → Has x (insert_ordered key y ys)
  unfolding insert_ordered
  insert_ordered-Has x y [] h = h
  insert_ordered-Has x y (z ∷ zs) h = elim (Bool-cases (before (key z) (key y))) [
    | inl e ↦ rw e (elim h [
      | inl y_is ↦ inr (insert_ordered-Has x y zs (inl y_is))
      | inr (inl z_is) ↦ inl z_is
      | inr (inr later) ↦ inr (insert_ordered-Has x y zs (inr later))
    ])
    | inr e ↦ rw e h
  ]

  pub order_by-Has : (x : A) (xs : List A) → Has x xs → Has x (order_by key xs)
  unfolding order_by
  order_by-Has x [] h = h
  order_by-Has x (y ∷ ys) (inl e) = insert_ordered-Has x y (order_by key ys) (inl e)
  order_by-Has x (y ∷ ys) (inr h) =
      insert_ordered-Has x y (order_by key ys) (inr (order_by-Has x ys h))

-- A row with another key is still there after a write, and the row written is there anew.
pub update_rows-Has :
    (i : ℕ) (f : WorkspaceMembership → WorkspaceMembership) (m : WorkspaceMembership)
    (ms : List WorkspaceMembership)
    → Has m ms
    → Has (if m.id == i then f m else m) (update_rows i f ms)
update_rows-Has i f m [] h = h
update_rows-Has i f m (x ∷ xs) (inl e) =
    inl (ap (λ (r : WorkspaceMembership). if r.id == i then f r else r) e)
update_rows-Has i f m (x ∷ xs) (inr h) = inr (update_rows-Has i f m xs h)

pub length-keep-founds :
    (w : ℕ) (ms : List WorkspaceMembership) → length (keep (founds w) ms) ≡ founder_count w ms
unfolding founder_count
length-keep-founds w [] = refl
length-keep-founds w (m ∷ ms) = ground (arith, length-keep-founds w ms)

pub Has-only : {A : Type 0} (x : A) (xs : List A) → length xs ≡ 1 → Has x xs → xs ≡ x ∷ []
Has-only x [] one h = absurd h
Has-only x (y ∷ []) one (inl e) = ap (λ z. z ∷ []) e
Has-only x (y ∷ []) one (inr h) = absurd h
Has-only x (y ∷ z ∷ zs) one h = absurd (omega arith)

has_founder-count :
    (w : ℕ) (ms : List WorkspaceMembership) → has_founder w ms ≡ false → founder_count w ms ≡ 0
unfolding has_founder founder_count
has_founder-count w [] h = refl
has_founder-count w (m ∷ ms) h = ground (arith, has_founder-count w ms)

count-has_founder :
    (w : ℕ) (ms : List WorkspaceMembership) → founder_count w ms ≡ 0 → has_founder w ms ≡ false
unfolding has_founder founder_count
count-has_founder w [] h = refl
count-has_founder w (m ∷ ms) h = ground (arith, count-has_founder w ms)

-- The unique index holds exactly when no workspace has two active founders.
pub founders_unique-count :
    (ms : List WorkspaceMembership) → founders_unique ms ≡ true → (w : ℕ) → founder_count w ms ≤ 1
unfolding founders_unique founder_count
founders_unique-count [] h w = omega arith
founders_unique-count (m ∷ ms) h w =
    ground (arith, founders_unique-count ms (ground arith) w, has_founder-count w ms)

pub count-founders_unique :
    (ms : List WorkspaceMembership) → ((w : ℕ) → founder_count w ms ≤ 1) → founders_unique ms ≡ true
unfolding founders_unique founder_count
count-founders_unique [] h = refl
count-founders_unique (m ∷ ms) h = ground (
  arith,
  h m.workspace_id,
  count-has_founder m.workspace_id ms,
  count-founders_unique ms (λ w. omega (arith, h w)),
)

pub founder_count-Has :
    (w : ℕ) (m : WorkspaceMembership) (ms : List WorkspaceMembership)
    → Has m ms
    → founds w m ≡ true
    → 1 ≤ founder_count w ms
unfolding founder_count
founder_count-Has w m [] h e = absurd h
founder_count-Has w m (x ∷ xs) (inl same) e =
    ground (arith, subst (λ r. founds w r ≡ true) (sym same) e)
founder_count-Has w m (x ∷ xs) (inr h) e = omega (arith, founder_count-Has w m xs h e)
