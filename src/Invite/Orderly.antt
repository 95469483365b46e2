-- ===== src/Invite/Orderly.antt =====
-- What a change of the table of invites keeps.
use fast_page.Prelude.{
  Has, ℕ, ◌≡◌, ◌≢◌, refl, sym, subst, inl, inr, true, List, [], ◌∷◌, ◌++◌, arith, ◌==◌, All,
  Bool-cases,
}
use fast_page.Invite.Models.{WorkspaceInvite, write_invite, pending_unique}
use fast_page.Invite.Change.{
  IsOpen, IsSettled, IsProper, IsFreshInvite, AreKeyed, IsSettling, Change, unchanged, adds,
  settles, and_then, same_key, write-Has_other, write-AreKeyed, write-pending_unique,
}

-- The ids are distinct, no email has two pending invites to one workspace, and every row is proper.
pub record AreOrderly (is : List WorkspaceInvite) : Type 0 where
  pub keyed : AreKeyed is
  pub unique : pending_unique is ≡ true
  pub proper : All (λ (i : WorkspaceInvite). IsProper i) is

append-IsFresh :
    (is : List WorkspaceInvite) (i : WorkspaceInvite) (k : ℕ)
    → IsFreshInvite k is
    → i.id ≢ k
    → IsFreshInvite k (is ++ (i ∷ []))
append-IsFresh [] i k fresh other = (other, tt)
append-IsFresh (x ∷ xs) i k fresh other = (fresh.0, append-IsFresh xs i k fresh.1 other)

append-AreKeyed :
    (is : List WorkspaceInvite) (i : WorkspaceInvite)
    → AreKeyed is
    → IsFreshInvite i.id is
    → AreKeyed (is ++ (i ∷ []))
append-AreKeyed [] i keyed fresh = (tt, tt)
append-AreKeyed (x ∷ xs) i keyed fresh =
    (append-IsFresh xs i x.id keyed.0 (λ e. fresh.0 (sym e)), append-AreKeyed xs i keyed.1 fresh.1)

module _ {A : Type 0} (P : A → Type 0) where
  append-All : (xs : List A) (x : A) → All P xs → P x → All P (xs ++ (x ∷ []))
  append-All [] x h p = (p, tt)
  append-All (y ∷ ys) x h p = (h.0, append-All ys x h.1 p)

  pub All-Has : (xs : List A) (x : A) → All P xs → Has x xs → P x
  All-Has [] x all h = absurd h
  All-Has (y ∷ ys) x all (inl e) = subst P e all.0
  All-Has (y ∷ ys) x all (inr h) = All-Has ys x all.1 h

append-Has : (is : List WorkspaceInvite) (i j : WorkspaceInvite) → Has j is → Has j (is ++ (i ∷ []))
append-Has [] i j h = absurd h
append-Has (x ∷ xs) i j (inl e) = inl e
append-Has (x ∷ xs) i j (inr h) = inr (append-Has xs i j h)

module _ (id : ℕ) (f : WorkspaceInvite → WorkspaceInvite) where
  -- Rows with another id stay; the rows with this one are known to be written properly.
  write-All :
      (is : List WorkspaceInvite)
      → ((r : WorkspaceInvite) → Has r is → r.id ≡ id → IsProper (f r))
      → All (λ (i : WorkspaceInvite). IsProper i) is
      → All (λ (i : WorkspaceInvite). IsProper i) (write_invite id f is)
  write-All [] k h = tt
  write-All (x ∷ xs) k h = (
    elim (Bool-cases (x.id == id)) [
      | inl e ↦ rw e (k x (inl refl) (ground arith))
      | inr e ↦ rw e h.0
    ],
    write-All xs (λ r there. k r (inr there)) h.1,
  )

settles-AreOrderly :
    (is : List WorkspaceInvite) (j : WorkspaceInvite) (f : WorkspaceInvite → WorkspaceInvite)
    → Has j is
    → IsSettling f j
    → AreOrderly is
    → AreOrderly (write_invite j.id f is)
settles-AreOrderly is j f there settling o = record {
  keyed = write-AreKeyed j.id f is settling.same_id o.keyed;
  unique = write-pending_unique j.id f is settling.not_pending o.unique;
  proper =
      write-All j.id f is
        (λ r h e.
          let r_is : r ≡ j = same_key r j is o.keyed h there e in
          subst (λ (i : WorkspaceInvite). IsProper (f i)) (sym r_is)
            (settling.proper (All-Has (λ (i : WorkspaceInvite). IsProper i) is j o.proper there)))
        o.proper;
}

pub Change-AreOrderly :
    {is js : List WorkspaceInvite} → Change is js → AreOrderly is → AreOrderly js
Change-AreOrderly unchanged o = o
Change-AreOrderly (adds {is} i fresh proper unique) o = record {
  keyed = append-AreKeyed is i o.keyed fresh;
  unique = unique;
  proper = append-All (λ (r : WorkspaceInvite). IsProper r) is i o.proper proper;
}
Change-AreOrderly (settles {is} j f there open_j settling) o =
    settles-AreOrderly is j f there settling o
Change-AreOrderly (and_then c d) o = Change-AreOrderly d (Change-AreOrderly c o)

not_both : (i : WorkspaceInvite) → IsSettled i → IsOpen i → ⊥
not_both i s o = ground arith

pub Change-stays :
    {is js : List WorkspaceInvite} (i : WorkspaceInvite)
    → Change is js
    → AreOrderly is
    → IsSettled i
    → Has i is
    → Has i js
Change-stays i unchanged o s h = h
Change-stays i (adds {is} n fresh proper unique) o s h = append-Has is n i h
Change-stays i (settles {is} j f there open_j settling) o s h =
    write-Has_other j.id f i is h
      (λ e. not_both i s (subst IsOpen (sym (same_key i j is o.keyed h there e)) open_j))
Change-stays i (and_then c d) o s h =
    Change-stays i d (Change-AreOrderly c o) s (Change-stays i c o s h)
