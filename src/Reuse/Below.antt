-- ===== src/Reuse/Below.antt =====
-- Lists of futures and dicts of their numbers.
use fast_page.Prelude.{
  All, ℕ, zero, suc, ◌<◌, ◌≡◌, ◌≢◌, ◌⊎◌, inl, inr, refl, ap, subst, String, Bool, true, false,
  Option, none, some, List, [], ◌∷◌, ◌++◌, length, get_elem?, modify_at, str_eq, if◌then◌else◌,
  Bool-cases, arith, ◌==◌,
}
use fast_page.Prelude.Dict.{Dict, lookup, insert}
use fast_page.Reuse.Cache.{Future, pending, result, exception, pop}

pub some-eq : (f g : ℕ) → ◌≡◌ {A = Option ℕ} (some f) (some g) → f ≡ g
some-eq f g h = cc

pub get_elem?-modify_at :
    {A : Type 0} (i j : ℕ) (y : A) (xs : List A) {x : A}
    → get_elem? xs j ≡ some x
    → get_elem? (modify_at i (λ _. y) xs) j ≡ some (if i == j then y else x)
get_elem?-modify_at i j y [] h = cc
get_elem?-modify_at zero zero y (x ∷ xs) h = refl
get_elem?-modify_at zero (suc j) y (x ∷ xs) h = ground (arith, h)
get_elem?-modify_at (suc i) zero y (x ∷ xs) h = ground (arith, h)
get_elem?-modify_at (suc i) (suc j) y (x ∷ xs) {x = z} h =
    let same : (suc i == suc j) ≡ (i == j) = ground arith in
    rw same (get_elem?-modify_at i j y xs h)

pub get_elem?-some :
    {A : Type 0} (i : ℕ) (xs : List A) → i < length xs → (x : A) × (get_elem? xs i ≡ some x)
get_elem?-some i [] h = absurd (omega arith)
get_elem?-some zero (x ∷ xs) h = (x, refl)
get_elem?-some (suc i) (x ∷ xs) h = get_elem?-some i xs (omega arith)

abbrev pub is_done : {V : Type 0} → Option (Future V) → Bool
is_done none = false
is_done (some pending) = false
is_done (some (result v)) = true
is_done (some exception) = true

-- Every value is below the bound.
abbrev pub AreBelow : ℕ → Dict ℕ → Type 0
AreBelow bound = All (λ (e : String × ℕ). e.1 < bound)

pub AreBelow-pop :
    (bound : ℕ) (key : String) (d : Dict ℕ) → AreBelow bound d → AreBelow bound (pop key d)
unfolding pop
AreBelow-pop bound key [] h = tt
AreBelow-pop bound key ((k, v) ∷ d) h = elim (Bool-cases (str_eq k key)) [
  | inl same ↦ rw same h.1
  | inr other ↦ rw other (h.0, AreBelow-pop bound key d h.1)
]

pub AreBelow-suc : (bound : ℕ) (d : Dict ℕ) → AreBelow bound d → AreBelow (suc bound) d
AreBelow-suc bound [] h = tt
AreBelow-suc bound (e ∷ d) h = (omega (arith, h.0), AreBelow-suc bound d h.1)

pub AreBelow-insert :
    (bound : ℕ) (key : String) (d : Dict ℕ)
    → AreBelow bound d
    → AreBelow (suc bound) (insert key bound d)
unfolding insert
AreBelow-insert bound key [] h = (omega arith, tt)
AreBelow-insert bound key ((k, v) ∷ d) h = elim (Bool-cases (str_eq k key)) [
  | inl same ↦ rw same (omega arith, AreBelow-suc bound d h.1)
  | inr other ↦ rw other (omega (arith, h.0), AreBelow-insert bound key d h.1)
]

pub AreBelow-lookup :
    (bound : ℕ) (key : String) (d : Dict ℕ) {f : ℕ}
    → AreBelow bound d
    → lookup key d ≡ some f
    → f < bound
unfolding lookup
AreBelow-lookup bound key [] h found = cc
AreBelow-lookup bound key ((k, v) ∷ d) {f} h found = elim (Bool-cases (str_eq k key)) [
  | inl same ↦ subst (λ n. n < bound) (some-eq v f (rw same at found)) h.0
  | inr other ↦ AreBelow-lookup bound key d h.1 (rw other at found)
]

pub get_elem?-lt :
    {A : Type 0} (i : ℕ) (xs : List A) {x : A} → get_elem? xs i ≡ some x → i < length xs
get_elem?-lt i [] h = cc
get_elem?-lt zero (x ∷ xs) h = omega arith
get_elem?-lt (suc i) (x ∷ xs) h = omega (arith, get_elem?-lt i xs h)

-- An element after a change is the new one or an old one.
pub get_elem?-changed :
    {A : Type 0} (i j : ℕ) (y : A) (xs : List A) {z : A}
    → get_elem? (modify_at i (λ _. y) xs) j ≡ some z
    → (y ≡ z) ⊎ (get_elem? xs j ≡ some z)
get_elem?-changed i j y [] h = cc
get_elem?-changed zero zero y (x ∷ xs) h = inl (cc)
get_elem?-changed zero (suc j) y (x ∷ xs) h = inr h
get_elem?-changed (suc i) zero y (x ∷ xs) h = inr h
get_elem?-changed (suc i) (suc j) y (x ∷ xs) h = get_elem?-changed i j y xs h

pub get_elem?-snoc :
    {A : Type 0} (j : ℕ) (y : A) (xs : List A) {z : A}
    → get_elem? (xs ++ (y ∷ [])) j ≡ some z
    → (y ≡ z) ⊎ (get_elem? xs j ≡ some z)
get_elem?-snoc zero y [] h = inl (cc)
get_elem?-snoc (suc j) y [] h = cc
get_elem?-snoc zero y (x ∷ xs) h = inr h
get_elem?-snoc (suc j) y (x ∷ xs) h = get_elem?-snoc j y xs h

-- The same, with the position told apart
pub get_elem?-changed_at :
    {A : Type 0} (i j : ℕ) (y : A) (xs : List A) {z : A}
    → get_elem? (modify_at i (λ _. y) xs) j ≡ some z
    → ((j ≡ i) × (y ≡ z)) ⊎ ((j ≢ i) × (get_elem? xs j ≡ some z))
get_elem?-changed_at i j y [] h = cc
get_elem?-changed_at zero zero y (x ∷ xs) h = inl (refl, cc)
get_elem?-changed_at zero (suc j) y (x ∷ xs) h = inr (λ e. omega (arith, e), h)
get_elem?-changed_at (suc i) zero y (x ∷ xs) h = inr (λ e. omega (arith, e), h)
get_elem?-changed_at (suc i) (suc j) y (x ∷ xs) h = elim (get_elem?-changed_at i j y xs h) [
  | inl (same, is) ↦ inl (ap suc same, is)
  | inr (other, old) ↦ inr (λ e. other (omega (arith, e)), old)
]
