-- ===== src/Access/Override.antt =====
-- Overrides of capabilities: reading a stored one (`parse_workspace_permissions_override`), and
-- checking and storing a new one (`validate_…`, `dump_…`). `json.loads` and `json.dumps` are arguments.
use Prim.Native.String.{◌++◌ as str_append}
use Prim.Native.String.{compare as str_compare}
use text.Mathlib.Text.{is_lt}
use fast_page.Prelude.{
  String, Bool, not, ◌&&◌, Option, none, some, List, [], ◌∷◌, str_eq, keep, if◌then◌else◌,
}
use fast_page.Prelude.Dict.{Dict, insert}
use fast_page.Json.{Json, Fields, end, field, get_field}
use fast_page.Http.{Result, ok, raise, raise_if, ◌>>=◌, ◌>>◌}
use fast_page.Access.Roles.{capability_keys, founder_only_keys, is_in}

-- `str | Mapping | None`
pub data Source : Type 0 where
  absent : Source
  json_text : String → Source
  mapping : Fields → Source

-- `if isinstance(value, bool): parsed[key] = value`
abbrev pub add_bool : String → Option Json → Dict Bool → Dict Bool
add_bool key (some (Json.bool v)) parsed = insert key v parsed
add_bool key _ parsed = parsed

unfoldable pub collect : Fields → List String → Dict Bool → Dict Bool
collect payload [] parsed = parsed
collect payload (key ∷ keys) parsed =
    collect payload keys (add_bool key (get_field key payload) parsed)

-- What is no mapping counts as empty.
abbrev pub parse_payload : Option Json → Dict Bool
parse_payload (some (Json.obj payload)) = collect payload capability_keys []
parse_payload _ = []

unfoldable pub parse_override : (loads : String → Option Json) → Source → Dict Bool
unfolding collect
parse_override loads absent = []
parse_override loads (json_text t) = if str_eq t "" then [] else parse_payload (loads t)
parse_override loads (mapping payload) = parse_payload (some (Json.obj payload))

unfoldable pub field_keys : Fields → List String
field_keys end = []
field_keys (field k v fs) = k ∷ field_keys fs

unfoldable pub insert_sorted : String → List String → List String
insert_sorted x [] = x ∷ []
insert_sorted x (y ∷ ys) = if is_lt (str_compare y x) then y ∷ insert_sorted x ys else x ∷ y ∷ ys

unfoldable pub sorted : List String → List String
unfolding insert_sorted
sorted [] = []
sorted (x ∷ xs) = insert_sorted x (sorted xs)

-- `", ".join(texts)`
pub join_comma : List String → String
join_comma [] = ""
join_comma (x ∷ []) = x
join_comma (x ∷ y ∷ ys) = str_append x (str_append ", " (join_comma (y ∷ ys)))

unfoldable pub unknown_keys : Fields → List String
unfolding field_keys sorted
unknown_keys fs = sorted (keep (λ k. not (is_in k capability_keys)) (field_keys fs))

abbrev pub as_bool : String → Json → Result Bool
as_bool key (Json.bool v) = ok v
as_bool key _ = raise 400 (str_append "permissions_override." (str_append key " must be a boolean"))

unfoldable pub validate_items : String → Fields → Dict Bool → Result (Dict Bool)
validate_items role end parsed = ok parsed
validate_items role (field key value fs) parsed = do
  v ← as_bool key value
  raise_if (is_in key founder_only_keys && v && not (str_eq role "founder")) 400
      (str_append "permissions_override." (str_append key " is founder-only"))
  validate_items role fs (insert key v parsed)

abbrev pub raise_unknown : List String → Result (Unit {0})
raise_unknown [] = ok tt
raise_unknown keys =
    raise 400 (str_append "Unknown workspace capability override keys: " (join_comma keys))

unfoldable pub validate_override : Option Json → String → Result (Dict Bool)
unfolding validate_items unknown_keys join_comma
validate_override none role = ok []
validate_override (some (Json.obj fs)) role = do
  raise_unknown (unknown_keys fs)
  validate_items role fs []
validate_override (some _) role = raise 400 "permissions_override must be an object"

unfoldable pub dump_override : (dumps : Dict Bool → String) → Option Json → String → Result String
unfolding validate_override
dump_override dumps override role = do
  validated ← validate_override override role
  ok (dumps validated)
