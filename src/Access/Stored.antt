-- ===== src/Access/Stored.antt =====
-- An override that is checked, stored as text and read back: what it does to the capabilities.
use fast_page.Prelude.{
  String, ◌≡◌, ◌≢◌, refl, ◌∙◌, Bool, true, false, not, Option, none, some, List, [], ◌∷◌, arith,
  eq_iff, keep,
}
use fast_page.Prelude.Dict.{Dict, lookup, insert, get_or, lookup-insert}
use fast_page.Json.{Json, Fields, end, field, get_field}
use fast_page.Http.{ok, >>=-eq-ok}
use fast_page.Access.Roles.{founder_only_keys, capability_keys, is_in}
use fast_page.Access.Override.{
  validate_items, validate_override, unknown_keys, field_keys, insert_sorted, sorted, raise_unknown,
}
use fast_page.Access.Merge.{bool_value, or_else}

-- A mapping has every key once.
abbrev pub IsMapping : Fields → Type 0
IsMapping end = Unit
IsMapping (field k v fs) = (get_field k fs ≡ none) × IsMapping fs

-- What an accepted override asks for at a key, over the role's value.
abbrev pub requested : Option Json → Bool → Bool
requested (some (Json.bool v)) base = v
requested _ base = base

pub or_else-none : (o : Option Bool) → or_else o none ≡ o
or_else-none none = refl
or_else-none (some v) = refl

lookup-validate_items :
    (role : String) (fs : Fields) (parsed : Dict Bool) {d : Dict Bool} (key : String)
    → IsMapping fs
    → validate_items role fs parsed ≡ ok d
    → lookup key d ≡ or_else (bool_value (get_field key fs)) (lookup key parsed)
unfolding validate_items get_field
lookup-validate_items role end parsed key m h = ground arith
lookup-validate_items role (field k (Json.bool v) fs) parsed {d} key m h = ground (
  arith,
  eq_iff k key,
  lookup-insert k key v parsed,
  lookup-validate_items role fs (insert k v parsed) {d = d} key m.1,
)
lookup-validate_items role (field k v fs) parsed key m h = cc

founder_only-validate_items :
    (role : String) (fs : Fields) (parsed : Dict Bool) {d : Dict Bool} (key : String)
    → role ≢ "founder"
    → is_in key founder_only_keys ≡ true
    → get_or parsed key false ≡ false
    → validate_items role fs parsed ≡ ok d
    → get_or d key false ≡ false
unfolding validate_items
founder_only-validate_items role end parsed key r only base h = ground arith
founder_only-validate_items role (field k (Json.bool v) fs) parsed {d} key r only base h = ground (
  arith,
  eq_iff k key,
  eq_iff role "founder",
  lookup-insert k key v parsed,
  founder_only-validate_items role fs (insert k v parsed) {d = d} key r only,
)
founder_only-validate_items role (field k v fs) parsed key r only base h = cc

insert_sorted-ne-nil : (x : String) (ys : List String) → insert_sorted x ys ≢ []
unfolding insert_sorted
insert_sorted-ne-nil x [] e = cc
insert_sorted-ne-nil x (y ∷ ys) e = ground arith

sorted-eq-nil : (xs : List String) → sorted xs ≡ [] → xs ≡ []
unfolding sorted
sorted-eq-nil [] e = refl
sorted-eq-nil (x ∷ xs) e = absurd (insert_sorted-ne-nil x (sorted xs) e)

known_field :
    (keys : List String) (fs : Fields) (key : String)
    → keep (λ k. not (is_in k keys)) (field_keys fs) ≡ []
    → is_in key keys ≡ false
    → get_field key fs ≡ none
unfolding field_keys get_field
known_field keys end key h out = refl
known_field keys (field k v fs) key h out = ground (arith, eq_iff k key, known_field keys fs key)

raise_unknown-eq-ok : (keys : List String) {t : Unit {0}} → raise_unknown keys ≡ ok t → keys ≡ []
raise_unknown-eq-ok [] h = refl
raise_unknown-eq-ok (k ∷ ks) h = cc

module _ (role : String) (fs : Fields) {d : Dict Bool} where
  pub lookup-validate_override :
      (key : String)
      → IsMapping fs
      → validate_override (some (Json.obj fs)) role ≡ ok d
      → lookup key d ≡ bool_value (get_field key fs)
  unfolding validate_override lookup
  lookup-validate_override key m h =
      let (_, _, items) =
        >>=-eq-ok (raise_unknown (unknown_keys fs)) (λ _. validate_items role fs []) h in
      lookup-validate_items role fs [] key m items ∙ or_else-none (bool_value (get_field key fs))

  -- An accepted override asks for no key beyond the known ones.
  pub unknown-validate_override :
      (key : String)
      → validate_override (some (Json.obj fs)) role ≡ ok d
      → is_in key capability_keys ≡ false
      → get_field key fs ≡ none
  unfolding validate_override
  unknown-validate_override key h out =
      let (_, known, _) =
        >>=-eq-ok (raise_unknown (unknown_keys fs)) (λ _. validate_items role fs []) h in
      known_field capability_keys fs key
        (unfold unknown_keys in sorted-eq-nil _ (raise_unknown-eq-ok (unknown_keys fs) known)) out

  -- No accepted override gives a founder-only key to another role.
  pub founder_only-validate_override :
      (key : String)
      → role ≢ "founder"
      → is_in key founder_only_keys ≡ true
      → validate_override (some (Json.obj fs)) role ≡ ok d
      → get_or d key false ≡ false
  unfolding validate_override lookup
  founder_only-validate_override key r only h =
      let (_, _, items) =
        >>=-eq-ok (raise_unknown (unknown_keys fs)) (λ _. validate_items role fs []) h in
      founder_only-validate_items role fs [] key r only refl items
