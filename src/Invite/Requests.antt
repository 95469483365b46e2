-- ===== src/Invite/Requests.antt =====
-- Every request on invites changes their table in the ways of Change.
use fast_page.Prelude.{
  Has, ℕ, ◌≡◌, refl, inl, inr, String, true, false, ◌&&◌, some, arith, Bool-cases, str_eq, eq_iff,
  leb,
}
use fast_page.Http.{HttpException, Result, ok, err}
use fast_page.Workspace.Guards.{or_404}
use fast_page.Workspace.Count.{Has-keep, first-Has}
use fast_page.Workspace.MemberFounders.{or_404-eq-ok}
use fast_page.Invite.Models.{
  WorkspaceInvite, Store, StoreRequest, checked, set_invite, get_invite, effective_status, expired,
}
use fast_page.Invite.Guards.{check_pending}
use fast_page.Invite.Manage.{revoked}
use fast_page.Invite.Join.{accepted, with_pending}
use fast_page.Invite.Change.{IsOpen, IsSettling, Change, settles}

pub checked-Keeps :
    {A B : Type 0} (P : Store → Type 0) (s : Store) (r : Result B) (f : B → StoreRequest A)
    → P s
    → ((b : B) → r ≡ ok b → P (f b).1)
    → P (checked s r f).1
checked-Keeps P s (ok b) f h k = k b refl
checked-Keeps P s (err e) f h k = h

pub get_invite-Has :
    (s : Store) (id : ℕ) {i : WorkspaceInvite}
    → get_invite s id ≡ some i
    → Has i s.invites × (i.id ≡ id)
unfolding get_invite
get_invite-Has s id {i} h =
    let (there, same) = Has-keep _ i s.invites (first-Has i _ h) in (there, ground arith)

pub pending-IsOpen : (i : WorkspaceInvite) → i.status ≡ "pending" → IsOpen i
pending-IsOpen i h = rw h (refl, refl)

pub expired-IsOpen :
    (i : WorkspaceInvite) (now : ℕ) → str_eq (effective_status i now) "expired" ≡ true → IsOpen i
unfolding effective_status
expired-IsOpen i now h = elim (Bool-cases (str_eq i.status "pending" && leb i.expires_at now)) [
  | inl late ↦ pending-IsOpen i ((eq_iff i.status "pending").0 (ground arith))
  | inr kept ↦
      let is_expired : i.status ≡ "expired" = (eq_iff i.status "expired").0 (rw kept at h) in
      rw is_expired (refl, refl)
]

check_pending-eq :
    (status : String) {t : Unit {0}} → check_pending status ≡ ok t → str_eq status "pending" ≡ true
unfolding check_pending
check_pending-eq status h = ground arith

ok_ne_err : {A : Type 0} {a : A} {e : HttpException} → err e ≡ ok a → ⊥
ok_ne_err h = cc

-- What a pending invite is: so written, and not past its time
abbrev pub IsPendingAt : WorkspaceInvite → ℕ → Type 0
IsPendingAt i now = (i.status ≡ "pending") × (leb i.expires_at now ≡ false)

pub check_pending-IsPendingAt :
    (i : WorkspaceInvite) (now : ℕ) {t : Unit {0}}
    → check_pending (effective_status i now) ≡ ok t
    → IsPendingAt i now
unfolding effective_status check_pending
check_pending-IsPendingAt i now h =
    elim (Bool-cases (str_eq i.status "pending" && leb i.expires_at now)) [
      | inl late ↦ absurd (ok_ne_err (rw late at h))
      | inr kept ↦
          let passed : check_pending i.status ≡ ok _ = (rw kept at h) in
          let is_pending = check_pending-eq i.status passed in
          ((eq_iff i.status "pending").0 is_pending, ground arith)
    ]

expired-IsSettling : (now : ℕ) (j : WorkspaceInvite) → IsOpen j → IsSettling (expired now) j
expired-IsSettling now j o = record {
  same_id = λ r. refl;
  not_pending = λ r. refl;
  proper = λ p. ground arith;
}

pub accepted-IsSettling :
    (u now : ℕ) (j : WorkspaceInvite) → IsOpen j → IsSettling (accepted u now) j
accepted-IsSettling u now j o = record {
  same_id = λ r. refl;
  not_pending = λ r. refl;
  proper = λ p. ground arith;
}

pub revoked-IsSettling : (now : ℕ) (j : WorkspaceInvite) → IsOpen j → IsSettling (revoked now) j
revoked-IsSettling now j o = record {
  same_id = λ r. refl;
  not_pending = λ r. refl;
  proper = λ p. ground arith;
}

-- The invites are changed, and nothing else is said.
abbrev pub Changes : Store → Store → Type 0
Changes s s' = Change s.invites s'.invites

pub expire-Changes :
    (s : Store) (i : WorkspaceInvite) (now : ℕ)
    → Has i s.invites
    → IsOpen i
    → Changes s (set_invite i.id (expired now) s)
expire-Changes s i now there open_i =
    settles i (expired now) there open_i (expired-IsSettling now i open_i)

module _ {A : Type 0} (P : Store → Type 0) (s : Store) (id now : ℕ)
    (next : WorkspaceInvite → StoreRequest A) where
  -- A request on a pending invite ends with the tables as they were, with the invite expired, or
  -- as its handler leaves them.
  pub with_pending-Keeps :
      P s
      → ((i : WorkspaceInvite) → Has i s.invites → IsOpen i → P (set_invite i.id (expired now) s))
      → ((i : WorkspaceInvite) → Has i s.invites → i.id ≡ id → IsPendingAt i now → P (next i).1)
      → P (with_pending s id now next).1
  unfolding with_pending
  with_pending-Keeps same gone go =
      checked-Keeps P s (or_404 (get_invite s id) "Invite not found") _ same λ i found.
        let (there, is_id) =
          get_invite-Has s id (or_404-eq-ok (get_invite s id) "Invite not found" found) in
        elim (Bool-cases (str_eq (effective_status i now) "expired")) [
          | inl e ↦ rw e (gone i there (expired-IsOpen i now e))
          | inr e ↦ rw e (
              checked-Keeps P s (check_pending (effective_status i now)) _ same
                λ t passed. go i there is_id (check_pending-IsPendingAt i now passed))
        ]
