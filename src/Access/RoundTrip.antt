-- ===== src/Access/RoundTrip.antt =====
-- An override that `dump_workspace_permissions_override_json` accepts and stores, read back by
-- `resolve_workspace_capabilities`.
use mathlib.Core.Option
use fast_page.Prelude.{
  String, ◌≡◌, ◌≢◌, refl, ◌∙◌, ap, sym, Bool, true, false, Option, none, some, List, [], arith,
  str_eq, eq_iff, Bool-cases, inl, inr,
}
use fast_page.Prelude.Dict.{Dict, lookup, get_or}
use fast_page.Json.{Json, Fields, get_field}
use fast_page.Http.{ok, >>=-eq-ok}
use fast_page.Access.Roles.{role_capabilities, founder_only_keys, capability_keys, is_in}
use fast_page.Access.Override.{json_text, collect, parse_override, validate_override, dump_override}
use fast_page.Access.Resolve.{resolve_capabilities}
use fast_page.Access.FounderOnly.{founder_only-cases}
use fast_page.Access.Merge.{merged, bool_value, or_else, lookup-collect, resolve_capabilities_lem}
use fast_page.Access.Stored.{
  or_else-none, IsMapping, requested, lookup-validate_override, unknown-validate_override,
  founder_only-validate_override,
}

-- `json` at one dict: what is dumped is not empty and loads as a mapping with the same entries.
pub record IsCodec (loads : String → Option Json) (dumps : Dict Bool → String) (d : Dict Bool)
    : Type 0 where
  pub payload : Fields
  pub loads-dumps : loads (dumps d) ≡ some (Json.obj payload)
  pub entries : (k : String) → get_field k payload ≡ Option.map Json.bool (lookup k d)
  pub nonempty : str_eq (dumps d) "" ≡ false

ne_founder : (role : String) → str_eq role "founder" ≡ false → role ≢ "founder"
ne_founder role e h = ground (arith, (eq_iff role "founder").1 h)

founder-role_capabilities :
    (key : String)
    → is_in key founder_only_keys ≡ true
    → get_or (role_capabilities "founder") key false ≡ true
unfolding role_capabilities lookup
founder-role_capabilities key only = elim (founder_only-cases key only) [
  | inl e ↦ rw e refl
  | inr e ↦ rw e refl
]

bool_value-map : (o : Option Bool) → bool_value (Option.map Json.bool o) ≡ o
bool_value-map none = refl
bool_value-map (some v) = refl

abbrev get_true : Option Bool → Bool
get_true none = false
get_true (some v) = v

merged-requested :
    (key : String) (o : Option Json) (base : Bool)
    → (is_in key founder_only_keys ≡ true → base ≡ false → get_true (bool_value o) ≡ false)
    → merged key (bool_value o) base ≡ requested o base
merged-requested key none base h = refl
merged-requested key (some (Json.bool v)) base h = ground arith
merged-requested key (some _) base h = refl

lookup-collect_entries :
    (keys : List String) (payload : Fields) (key : String) (d : Dict Bool) (v : Option Bool)
    → get_field key payload ≡ Option.map Json.bool (lookup key d)
    → lookup key d ≡ v
    → (is_in key keys ≡ false → v ≡ none)
    → lookup key (collect payload keys []) ≡ v
unfolding lookup
lookup-collect_entries keys payload key d v same is_v out =
    let value : bool_value (get_field key payload) ≡ v =
      ap bool_value same ∙ bool_value-map (lookup key d) ∙ is_v in
    elim (Bool-cases (is_in key keys)) [
      | inl e ↦ rw (lookup-collect, e) (ap (λ o. or_else o none) value ∙ or_else-none v)
      | inr e ↦ rw (lookup-collect, e) (sym (out e))
    ]

module _ (loads : String → Option Json) (dumps : Dict Bool → String) (role : String) (fs : Fields)
    {d : Dict Bool} (codec : IsCodec loads dumps d) (m : IsMapping fs)
    (accepted : validate_override (some (Json.obj fs)) role ≡ ok d) where
  lookup-read_back :
      (key : String)
      → lookup key (parse_override loads (json_text (dumps d))) ≡ bool_value (get_field key fs)
  unfolding parse_override lookup
  lookup-read_back key =
      rw (codec.nonempty, codec.loads-dumps)
        (lookup-collect_entries capability_keys codec.payload key d (bool_value (get_field key fs))
          (codec.entries key) (lookup-validate_override role fs key m accepted)
          (λ out. ap bool_value (unknown-validate_override role fs key accepted out)))

  -- Without the founder role no founder-only key is asked for; with it none is missing.
  not_suppressed :
      (key : String)
      → is_in key founder_only_keys ≡ true
      → get_or (role_capabilities role) key false ≡ false
      → get_true (bool_value (get_field key fs)) ≡ false
  not_suppressed key only lacks = elim (Bool-cases (str_eq role "founder")) [
    | inl e ↦
        absurd (ground (arith, (eq_iff role "founder").0 e, founder-role_capabilities key only))
    | inr e ↦ rw (← lookup-validate_override role fs key m accepted) (
        ground
          (arith, founder_only-validate_override role fs key (ne_founder role e) only accepted))
  ]

-- An override that is accepted for a role, stored and resolved under that role sets exactly the
-- keys that it names to the values that it gives, founder-only keys included; every other key has
-- the role's value.
pub resolve-dump_override :
    (loads : String → Option Json) (dumps : Dict Bool → String) (role : String) (fs : Fields)
    {stored : String} (key : String)
    → ((d : Dict Bool) → validate_override (some (Json.obj fs)) role ≡ ok d → IsCodec loads dumps d)
    → IsMapping fs
    → dump_override dumps (some (Json.obj fs)) role ≡ ok stored
    → get_or (resolve_capabilities loads role (json_text stored)) key false
      ≡ requested (get_field key fs) (get_or (role_capabilities role) key false)
unfolding dump_override
resolve-dump_override loads dumps role fs {stored} key codec m h =
    let (d, accepted, same) =
      >>=-eq-ok (validate_override (some (Json.obj fs)) role) (λ v. ok (dumps v)) h in
    let is_stored : dumps d ≡ stored = cc in
    let base = get_or (role_capabilities role) key false in
    rw (← is_stored) (
      resolve_capabilities_lem loads role (json_text (dumps d)) key
      ∙ ap (λ o. merged key o base)
          (lookup-read_back loads dumps role fs (codec d accepted) m accepted key)
      ∙ merged-requested key (get_field key fs) base
          (not_suppressed loads dumps role fs (codec d accepted) m accepted key))
