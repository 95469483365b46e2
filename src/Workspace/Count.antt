-- ===== src/Workspace/Count.antt =====
-- Counting the active founders of a workspace, and how a write changes the count.
use fast_page.Prelude.{
  Has, ℕ, ◌+◌, ◌≡◌, ◌≢◌, refl, sym, subst, ap, ◌∙◌, ◌⊎◌, inl, inr, Bool, true, false, ◌&&◌, some,
  List, [], ◌∷◌, ◌++◌, arith, ◌==◌, keep, All, if◌then◌else◌, Bool-cases,
}
use fast_page.Workspace.Models.{WorkspaceMembership}
use fast_page.Workspace.Queries.{first, is_active_founder, order_by, insert_ordered, before}
use fast_page.Workspace.Members.{update_rows}

-- The row counts as an active founder of the workspace.
abbrev pub founds : ℕ → WorkspaceMembership → Bool
founds workspace_id m = m.workspace_id == workspace_id && is_active_founder m

abbrev pub as_number : Bool → ℕ
as_number true = 1
as_number false = 0

unfoldable pub founder_count : ℕ → List WorkspaceMembership → ℕ
founder_count workspace_id [] = 0
founder_count workspace_id (m ∷ ms) =
    as_number (founds workspace_id m) + founder_count workspace_id ms

-- `id` is a primary key.
abbrev pub IsKeyed : List WorkspaceMembership → Type 0
IsKeyed [] = Unit
IsKeyed (m ∷ ms) = All (λ (r : WorkspaceMembership). r.id ≢ m.id) ms × IsKeyed ms

All-Has {κ} : {A : Type 0} (P : A → Type κ) (x : A) (xs : List A) → All P xs → Has x xs → P x
All-Has P x [] all h = absurd h
All-Has P x (y ∷ ys) all (inl e) = subst P e all.0
All-Has P x (y ∷ ys) all (inr h) = All-Has P x ys all.1 h

pub Has-keep :
    {A : Type 0} (p : A → Bool) (x : A) (xs : List A) → Has x (keep p xs) → Has x xs × (p x ≡ true)
Has-keep p x [] h = absurd h
Has-keep p x (y ∷ ys) h = elim (Bool-cases (p y)) [
  | inl yes_p ↦ elim (rw yes_p at h) [
    | inl e ↦ (inl e, subst (λ z. p z ≡ true) e yes_p)
    | inr r ↦ let (there, px) = Has-keep p x ys r in (inr there, px)
  ]
  | inr no_p ↦ let (there, px) = Has-keep p x ys (rw no_p at h) in (inr there, px)
]

pub first-Has : {A : Type 0} (x : A) (xs : List A) → first xs ≡ some x → Has x xs
first-Has x [] h = cc
first-Has x (y ∷ ys) h = inl (cc)

module _ {A : Type 0} (key : A → ℕ × ℕ) where
  Has-insert_ordered :
      (x y : A) (ys : List A) → Has x (insert_ordered key y ys) → (y ≡ x) ⊎ Has x ys
  unfolding insert_ordered
  Has-insert_ordered x y [] h = h
  Has-insert_ordered x y (z ∷ zs) h = elim (Bool-cases (before (key z) (key y))) [
    | inl e ↦ elim (rw e at h) [
      | inl z_is ↦ inr (inl z_is)
      | inr r ↦ elim (Has-insert_ordered x y zs r) [
        | inl y_is ↦ inl y_is
        | inr later ↦ inr (inr later)
      ]
    ]
    | inr e ↦ rw e at h
  ]

  pub Has-order_by : (x : A) (xs : List A) → Has x (order_by key xs) → Has x xs
  unfolding order_by
  Has-order_by x [] h = h
  Has-order_by x (y ∷ ys) h = elim (Has-insert_ordered x y (order_by key ys) h) [
    | inl e ↦ inl e
    | inr r ↦ inr (Has-order_by x ys r)
  ]

update_rows-other :
    (i : ℕ) (f : WorkspaceMembership → WorkspaceMembership) (ms : List WorkspaceMembership)
    → All (λ (r : WorkspaceMembership). r.id ≢ i) ms
    → update_rows i f ms ≡ ms
update_rows-other i f [] h = refl
update_rows-other i f (m ∷ ms) h = ground (arith, update_rows-other i f ms h.1)

-- Writing one row anew moves each count by what that row counts for.
pub founder_count-update_rows :
    (w i : ℕ) (f : WorkspaceMembership → WorkspaceMembership) (m : WorkspaceMembership)
    (ms : List WorkspaceMembership)
    → IsKeyed ms
    → Has m ms
    → m.id ≡ i
    → founder_count w (update_rows i f ms) + as_number (founds w m)
      ≡ founder_count w ms + as_number (founds w (f m))
unfolding founder_count
founder_count-update_rows w i f m [] keyed h e = absurd h
founder_count-update_rows w i f m (x ∷ xs) keyed (inl same) e =
    let others : All (λ (r : WorkspaceMembership). r.id ≢ i) xs =
      subst (λ k. All (λ (r : WorkspaceMembership). r.id ≢ k) xs)
        (ap (λ (r : WorkspaceMembership). r.id) same ∙ e) keyed.0 in
    rw (← same) (
      rw (update_rows-other i f xs others)
        (ground (arith, ap (λ (r : WorkspaceMembership). r.id) same)))
founder_count-update_rows w i f m (x ∷ xs) keyed (inr h) e =
    let differs : m.id ≢ x.id = All-Has (λ (r : WorkspaceMembership). r.id ≢ x.id) m xs keyed.0 h in
    ground (arith, founder_count-update_rows w i f m xs keyed.1 h e)

pub founder_count-append :
    (w : ℕ) (ms : List WorkspaceMembership) (n : WorkspaceMembership)
    → founder_count w (ms ++ (n ∷ [])) ≡ founder_count w ms + as_number (founds w n)
unfolding founder_count
founder_count-append w [] n = omega arith
founder_count-append w (m ∷ ms) n = omega (arith, founder_count-append w ms n)

-- No row has this id.
abbrev pub IsFresh : ℕ → List WorkspaceMembership → Type 0
IsFresh id = All (λ (r : WorkspaceMembership). r.id ≢ id)

IsFresh-append :
    (ms : List WorkspaceMembership) (n : WorkspaceMembership) (id : ℕ)
    → IsFresh id ms
    → n.id ≢ id
    → IsFresh id (ms ++ (n ∷ []))
IsFresh-append [] n id fresh other = (other, tt)
IsFresh-append (m ∷ ms) n id fresh other = (fresh.0, IsFresh-append ms n id fresh.1 other)

pub IsKeyed-append :
    (ms : List WorkspaceMembership) (n : WorkspaceMembership)
    → IsKeyed ms
    → IsFresh n.id ms
    → IsKeyed (ms ++ (n ∷ []))
IsKeyed-append [] n keyed fresh = (tt, tt)
IsKeyed-append (m ∷ ms) n keyed fresh =
    (IsFresh-append ms n m.id keyed.0 (λ e. fresh.0 (sym e)), IsKeyed-append ms n keyed.1 fresh.1)

IsFresh-update_rows :
    (i id : ℕ) (f : WorkspaceMembership → WorkspaceMembership) (ms : List WorkspaceMembership)
    → ((m : WorkspaceMembership) → (f m).id ≡ m.id)
    → IsFresh id ms
    → IsFresh id (update_rows i f ms)
IsFresh-update_rows i id f [] same fresh = tt
IsFresh-update_rows i id f (m ∷ ms) same fresh =
    (ground (arith, same m), IsFresh-update_rows i id f ms same fresh.1)

head_id :
    (i : ℕ) (f : WorkspaceMembership → WorkspaceMembership) (m : WorkspaceMembership)
    → (f m).id ≡ m.id
    → m.id ≡ (if m.id == i then f m else m).id
head_id i f m same = ground arith

pub IsKeyed-update_rows :
    (i : ℕ) (f : WorkspaceMembership → WorkspaceMembership) (ms : List WorkspaceMembership)
    → ((m : WorkspaceMembership) → (f m).id ≡ m.id)
    → IsKeyed ms
    → IsKeyed (update_rows i f ms)
IsKeyed-update_rows i f [] same keyed = tt
IsKeyed-update_rows i f (m ∷ ms) same keyed = (
  subst (λ id. IsFresh id (update_rows i f ms)) (head_id i f m (same m))
      (IsFresh-update_rows i m.id f ms same keyed.0),
  IsKeyed-update_rows i f ms same keyed.1,
)
