-- ===== src/Access/Merge.antt =====
-- What a stored override does to each single capability.
use fast_page.Prelude.{
  String, ◌≡◌, refl, Bool, false, not, ◌&&◌, Option, none, some, List, [], ◌∷◌, arith, str_eq,
  eq_iff, if◌then◌else◌, Bool-cases, inl, inr,
}
use fast_page.Prelude.Dict.{
  Dict, lookup, insert, get_or, lookup-insert, IsDistinct, insert-IsDistinct,
}
use fast_page.Json.{Json, Fields, get_field}
use fast_page.Access.Roles.{role_capabilities, founder_only_keys, capability_keys, is_in}
use fast_page.Access.Override.{
  Source, absent, json_text, mapping, add_bool, collect, parse_payload, parse_override,
}
use fast_page.Access.Resolve.{suppressed, apply_overrides, resolve_capabilities}

-- The value that an override leaves for a key whose role has `base`.
abbrev pub merged : String → Option Bool → Bool → Bool
merged key none base = base
merged key (some v) base = if is_in key founder_only_keys && v && not base then false else v

abbrev pub bool_value : Option Json → Option Bool
bool_value (some (Json.bool v)) = some v
bool_value _ = none

abbrev pub or_else : Option Bool → Option Bool → Option Bool
or_else none o = o
or_else (some v) o = some v

pub apply_overrides_lem :
    (key : String) (overrides capabilities : Dict Bool)
    → IsDistinct overrides
    → get_or (apply_overrides overrides capabilities) key false
      ≡ merged key (lookup key overrides) (get_or capabilities key false)
unfolding apply_overrides lookup
apply_overrides_lem key [] capabilities h = refl
apply_overrides_lem key ((j, v) ∷ overrides) capabilities h =
    let next = if suppressed j v capabilities then capabilities else insert j v capabilities in
    ground (
      arith,
      eq_iff j key,
      lookup-insert j key v capabilities,
      apply_overrides_lem key overrides next h.1,
    )

add_bool-IsDistinct :
    (k : String) (o : Option Json) (d : Dict Bool) → IsDistinct d → IsDistinct (add_bool k o d)
add_bool-IsDistinct k none d h = h
add_bool-IsDistinct k (some (Json.bool v)) d h = insert-IsDistinct k v d h
add_bool-IsDistinct k (some _) d h = h

collect-IsDistinct :
    (fs : Fields) (keys : List String) (d : Dict Bool)
    → IsDistinct d
    → IsDistinct (collect fs keys d)
unfolding collect
collect-IsDistinct fs [] d h = h
collect-IsDistinct fs (k ∷ keys) d h =
    collect-IsDistinct fs keys (add_bool k (get_field k fs) d)
      (add_bool-IsDistinct k (get_field k fs) d h)

parse_payload-IsDistinct : (o : Option Json) → IsDistinct (parse_payload o)
parse_payload-IsDistinct (some (Json.obj fs)) = collect-IsDistinct fs capability_keys [] tt
parse_payload-IsDistinct none = tt
parse_payload-IsDistinct (some _) = tt

pub parse_override-IsDistinct :
    (loads : String → Option Json) (source : Source) → IsDistinct (parse_override loads source)
unfolding parse_override
parse_override-IsDistinct loads absent = tt
parse_override-IsDistinct loads (json_text t) = elim (Bool-cases (str_eq t "")) [
  | inl e ↦ rw e tt
  | inr e ↦ rw e (parse_payload-IsDistinct (loads t))
]
parse_override-IsDistinct loads (mapping fs) = parse_payload-IsDistinct (some (Json.obj fs))

lookup-add_bool :
    (k key : String) (o : Option Json) (d : Dict Bool)
    → lookup key (add_bool k o d)
      ≡ (if str_eq k key then or_else (bool_value o) (lookup key d) else lookup key d)
lookup-add_bool k key none d = ground arith
lookup-add_bool k key (some (Json.bool v)) d = lookup-insert k key v d
lookup-add_bool k key (some _) d = ground arith

pub lookup-collect :
    (fs : Fields) (keys : List String) (key : String) (d : Dict Bool)
    → lookup key (collect fs keys d) ≡ (
        if is_in key keys
        then or_else (bool_value (get_field key fs)) (lookup key d)
        else lookup key d)
unfolding collect
lookup-collect fs [] key d = refl
lookup-collect fs (k ∷ keys) key d = ground (
  arith,
  eq_iff k key,
  lookup-add_bool k key (get_field k fs) d,
  lookup-collect fs keys key (add_bool k (get_field k fs) d),
)

-- A key of the resolved capabilities has the override's value where the override sets it to a
-- Boolean, and otherwise the role's; a founder-only key that the role lacks stays false.
pub resolve_capabilities_lem :
    (loads : String → Option Json) (role : String) (source : Source) (key : String)
    → get_or (resolve_capabilities loads role source) key false
      ≡ merged key
          (lookup key (parse_override loads source))
          (get_or (role_capabilities role) key false)
unfolding resolve_capabilities
resolve_capabilities_lem loads role source key =
    apply_overrides_lem key (parse_override loads source) (role_capabilities role)
      (parse_override-IsDistinct loads source)
