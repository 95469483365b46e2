-- ===== src/Invite/Change.antt =====
-- How the table of invites may change: a row is added, or a row that is neither accepted nor revoked
-- is written to another status.
use fast_page.Prelude.{
  Has, ℕ, ◌≡◌, ◌≢◌, refl, sym, subst, ap, ◌∙◌, ◌⊎◌, inl, inr, true, false, not, List, [], ◌∷◌, ◌++◌,
  arith, ◌==◌, any, All, str_eq, if◌then◌else◌,
}
use fast_page.Access.Roles.{is_in}
use fast_page.Workspace.Queries.{is_none}
use fast_page.Chars.{Text}
use fast_page.Invite.Models.{WorkspaceInvite, write_invite, pending_unique, is_pending_for}
use fast_page.Invite.Guards.{invite_roles}

-- The row is not accepted and not revoked.
abbrev pub IsOpen : WorkspaceInvite → Type 0
IsOpen i = (str_eq i.status "accepted" ≡ false) × (str_eq i.status "revoked" ≡ false)

abbrev pub IsSettled : WorkspaceInvite → Type 0
IsSettled i = (str_eq i.status "accepted" ≡ true) ⊎ (str_eq i.status "revoked" ≡ true)

-- An accepted invite, and no other, names its user and time; a revoked one, and no other, its time;
-- no invite makes a founder.
pub record IsProper (i : WorkspaceInvite) : Type 0 where
  pub accepted_by : str_eq i.status "accepted" ≡ not (is_none i.accepted_user_id)
  pub accepted_when : str_eq i.status "accepted" ≡ not (is_none i.accepted_at)
  pub revoked_when : str_eq i.status "revoked" ≡ not (is_none i.revoked_at)
  pub invites_role : is_in i.role invite_roles ≡ true

abbrev pub IsFreshInvite : ℕ → List WorkspaceInvite → Type 0
IsFreshInvite id = All (λ (r : WorkspaceInvite). r.id ≢ id)

abbrev pub AreKeyed : List WorkspaceInvite → Type 0
AreKeyed [] = Unit
AreKeyed (i ∷ is) = IsFreshInvite i.id is × AreKeyed is

abbrev Update : Type 0
Update = WorkspaceInvite → WorkspaceInvite

pub record IsSettling (f : WorkspaceInvite → WorkspaceInvite) (j : WorkspaceInvite) : Type 0 where
  pub same_id : (r : WorkspaceInvite) → (f r).id ≡ r.id
  pub not_pending : (r : WorkspaceInvite) → str_eq (f r).status "pending" ≡ false
  pub proper : IsProper j → IsProper (f j)

pub data Change : List WorkspaceInvite → List WorkspaceInvite → Type 0 where
  unchanged : {is : List WorkspaceInvite} → Change is is
  adds :
      {is : List WorkspaceInvite} (i : WorkspaceInvite)
      → IsFreshInvite i.id is
      → IsProper i
      → pending_unique (is ++ (i ∷ [])) ≡ true
      → Change is (is ++ (i ∷ []))
  settles :
      {is : List WorkspaceInvite} (j : WorkspaceInvite) (f : WorkspaceInvite → WorkspaceInvite)
      → Has j is
      → IsOpen j
      → IsSettling f j
      → Change is (write_invite j.id f is)
  and_then : {is js ks : List WorkspaceInvite} → Change is js → Change js ks → Change is ks

pub Has-IsFresh :
    (i : WorkspaceInvite) (id : ℕ) (is : List WorkspaceInvite)
    → IsFreshInvite id is
    → Has i is
    → i.id ≢ id
Has-IsFresh i id [] fresh h = absurd h
Has-IsFresh i id (x ∷ xs) fresh (inl e) = subst (λ (r : WorkspaceInvite). r.id ≢ id) e fresh.0
Has-IsFresh i id (x ∷ xs) fresh (inr h) = Has-IsFresh i id xs fresh.1 h

-- A primary key names one row.
pub same_key :
    (i j : WorkspaceInvite) (is : List WorkspaceInvite)
    → AreKeyed is
    → Has i is
    → Has j is
    → i.id ≡ j.id
    → i ≡ j
same_key i j [] keyed h k e = absurd h
same_key i j (x ∷ xs) keyed (inl p) (inl q) e = sym p ∙ q
same_key i j (x ∷ xs) keyed (inl p) (inr k) e =
    absurd (Has-IsFresh j x.id xs keyed.0 k (sym e ∙ sym (ap (λ (r : WorkspaceInvite). r.id) p)))
same_key i j (x ∷ xs) keyed (inr h) (inl q) e =
    absurd (Has-IsFresh i x.id xs keyed.0 h (e ∙ sym (ap (λ (r : WorkspaceInvite). r.id) q)))
same_key i j (x ∷ xs) keyed (inr h) (inr k) e = same_key i j xs keyed.1 h k e

module _ (id : ℕ) (f : WorkspaceInvite → WorkspaceInvite) where
  pub write-Has_other :
      (i : WorkspaceInvite) (is : List WorkspaceInvite)
      → Has i is
      → i.id ≢ id
      → Has i (write_invite id f is)
  write-Has_other i [] h other = h
  write-Has_other i (x ∷ xs) (inl e) other =
      inl (ground (arith, ap (λ (r : WorkspaceInvite). r.id) e))
  write-Has_other i (x ∷ xs) (inr h) other = inr (write-Has_other i xs h other)

  pub write-IsFresh :
      (k : ℕ) (is : List WorkspaceInvite)
      → ((r : WorkspaceInvite) → (f r).id ≡ r.id)
      → IsFreshInvite k is
      → IsFreshInvite k (write_invite id f is)
  write-IsFresh k [] same fresh = tt
  write-IsFresh k (x ∷ xs) same fresh = (ground (arith, same x), write-IsFresh k xs same fresh.1)

  write_id : (i : WorkspaceInvite) → (f i).id ≡ i.id → i.id ≡ (if i.id == id then f i else i).id
  write_id i same = ground arith

  pub write-AreKeyed :
      (is : List WorkspaceInvite)
      → ((r : WorkspaceInvite) → (f r).id ≡ r.id)
      → AreKeyed is
      → AreKeyed (write_invite id f is)
  write-AreKeyed [] same keyed = tt
  write-AreKeyed (x ∷ xs) same keyed = (
    subst (λ k. IsFreshInvite k (write_invite id f xs)) (write_id x (same x))
        (write-IsFresh x.id xs same keyed.0),
    write-AreKeyed xs same keyed.1,
  )

  write-any_pending :
      (w : ℕ) (email : Text) (is : List WorkspaceInvite)
      → ((r : WorkspaceInvite) → str_eq (f r).status "pending" ≡ false)
      → any (is_pending_for w email) is ≡ false
      → any (is_pending_for w email) (write_invite id f is) ≡ false
  write-any_pending w email [] settled h = refl
  write-any_pending w email (x ∷ xs) settled h =
      ground (arith, settled x, write-any_pending w email xs settled)

  pub write-pending_unique :
      (is : List WorkspaceInvite)
      → ((r : WorkspaceInvite) → str_eq (f r).status "pending" ≡ false)
      → pending_unique is ≡ true
      → pending_unique (write_invite id f is) ≡ true
  unfolding pending_unique
  write-pending_unique [] settled h = refl
  write-pending_unique (x ∷ xs) settled h = ground (
    arith,
    settled x,
    write-any_pending x.workspace_id x.email xs settled,
    write-pending_unique xs settled,
  )
