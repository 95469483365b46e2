-- ===== src/Tree/Codes.antt =====
-- Structure codes like "1.2.3", and `get_parent_structure`.
use fast_page.Prelude.{
  inl, inr, Option-cases, ℕ, ◌<◌, ◌≡◌, refl, Bool, true, false, Option, none, some, [], ◌∷◌, arith,
  ◌==◌, length, if◌then◌else◌,
}
use fast_page.Chars.{Text, text_eq}

abbrev pub dot : ℕ
dot = b'.'

abbrev pub extend : ℕ → Option Text → Option Text
extend c none = if c == dot then some [] else none
extend c (some t) = some (c ∷ t)

-- `'.'.join(parts[:-1])`, where there are at least two parts
unfoldable pub before_last_dot : Text → Option Text
before_last_dot [] = none
before_last_dot (c ∷ cs) = extend c (before_last_dot cs)

-- An empty code counts as none, as a code and as a parent's code.
abbrev pub if_nonempty : Option Text → Option Text
if_nonempty none = none
if_nonempty (some []) = none
if_nonempty (some (c ∷ cs)) = some (c ∷ cs)

abbrev pub parent_structure : Option Text → Option Text
parent_structure none = none
parent_structure (some code) = if_nonempty (before_last_dot code)

abbrev pub code_eq : Option Text → Text → Bool
code_eq none t = false
code_eq (some s) t = text_eq s t

before_last_dot-lt : (t : Text) {p : Text} → before_last_dot t ≡ some p → length p < length t
unfolding before_last_dot
before_last_dot-lt [] h = cc
before_last_dot-lt (c ∷ cs) h = elim (Option-cases (before_last_dot cs)) [
  | inl missing ↦ ground (arith, missing)
  | inr (t, found) ↦ ground (arith, found, before_last_dot-lt cs {p = t} found)
]

text_eq-length : (s t : Text) → text_eq s t ≡ true → length s ≡ length t
unfolding text_eq
text_eq-length [] [] h = refl
text_eq-length [] (d ∷ t) h = ground arith
text_eq-length (c ∷ s) [] h = ground arith
text_eq-length (c ∷ s) (d ∷ t) h = ground (arith, text_eq-length s t)

-- No code is its own parent's.
pub code_eq-parent_structure :
    (code : Option Text) {p : Text} → parent_structure code ≡ some p → code_eq code p ≡ false
code_eq-parent_structure none h = cc
code_eq-parent_structure (some code) {p} h =
    ground (arith, before_last_dot-lt code {p = p}, text_eq-length code p)
