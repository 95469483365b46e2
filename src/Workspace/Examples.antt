-- ===== src/Workspace/Examples.antt =====
-- The theorems about workspaces at a small table, and test runs.
use fast_page.Prelude.{
  ℕ, ◌+◌, ◌≡◌, ◌≤◌, refl, String, Bool, true, false, inl, inr, ◌&&◌, Option, none, some, [], ◌∷◌,
  map, arith, leb, if◌then◌else◌, length,
}
use fast_page.Prelude.Dict.{Dict, lookup}
use fast_page.Json.{Json}
use fast_page.Http.{ok}
use fast_page.Chars.{Text, is_space}
use fast_page.Access.Principal.{Principal, User}
use fast_page.Workspace.Models.{Workspace, WorkspaceMembership, Db}
use fast_page.Workspace.Queries.{
  order_by, insert_ordered, get_workspace, get_workspace_or_404, get_active_membership,
  list_active_founders, is_workspace_archived, get_default_workspace,
}
use fast_page.Workspace.Guards.{
  is_platform_admin, get_workspace_for_admin, require_founder_transfer,
}
use fast_page.Workspace.Founder.{
  has_founder, founders_unique, check_transfer, with_role, swapped, transfer_founder,
}
use fast_page.Workspace.Slug.{slug_of, normalize_slug, is_slug_char}
use fast_page.Workspace.NormalSlug.{is_slug, normalize_slug-is_slug}
use fast_page.Workspace.Resolution.{
  MembershipContext, resolve_membership_context, default_row, fallback_row, join_rows, join_one,
  append_rows, first_row,
}
use fast_page.Workspace.Count.{founder_count, IsKeyed}
use fast_page.Workspace.Steps.{IsSound, here, then_step, transfers_founder}
use fast_page.Workspace.FounderTransfer.{transfer_founder-swapped}
use fast_page.Workspace.Invariant.{Reach-IsSound}
use fast_page.Workspace.Context.{IsMember, resolve_membership_context-IsMember}
use fast_page.Workspace.ContextFound.{resolve_membership_context-found}

abbrev alice : User
alice = record {
  id = 1;
  tenant_id = 5;
  username = b'a' ∷ [];
  email = none;
  password_hash = [];
  can_create_workspace = true;
  is_platform_admin = false;
  must_change_password = false;
  is_active = true;
  created_at = 90;
  updated_at = 90;
}

abbrev bob : User
bob = record {
  id = 2;
  tenant_id = 5;
  username = b'b' ∷ [];
  email = none;
  password_hash = [];
  can_create_workspace = false;
  is_platform_admin = false;
  must_change_password = false;
  is_active = true;
  created_at = 91;
  updated_at = 91;
}

abbrev lab : Workspace
lab = record {
  id = 10;
  tenant_id = 5;
  name = b'L' ∷ [];
  slug = b'l' ∷ [];
  status = "active";
  is_default = false;
  created_by = some 1;
  default_provider_id = none;
  archived_at = none;
  archived_by = none;
  created_at = 100;
  updated_at = 100;
}

abbrev member : ℕ → ℕ → String → WorkspaceMembership
member id user role = record {
  id = id;
  workspace_id = 10;
  user_id = user;
  role = role;
  status = "active";
  permissions_override_json = "{}";
  created_by = none;
  created_at = 100;
  updated_at = 100;
}

abbrev db : Db
db = record {
  workspaces = lab ∷ [];
  memberships = member 20 1 "founder" ∷ member 21 2 "admin" ∷ [];
  tenant_memberships = [];
  users = alice ∷ bob ∷ [];
}

abbrev as_alice : Principal
as_alice = record {
  kind = "session";
  tenant_id = 5;
  workspace_id = 10;
  tenant_membership_role = "member";
  tenant_membership_status = "active";
  workspace_membership_role = "founder";
  workspace_membership_status = "active";
  workspace_permissions = ("can_transfer_founder", true) ∷ ("can_archive_workspace", true) ∷ [];
  user = alice;
  api_key = none;
  workspace_membership_id = some 20;
}

abbrev no_json : String → Option Json
no_json t = none

abbrev empty_object : Dict Bool → String
empty_object d = "{}"

abbrev ascii_lower : Text → Text
ascii_lower = map (λ c. if leb b'A' c && leb c b'Z' then c + 32 else c)

db-IsKeyed : IsKeyed db.memberships
db-IsKeyed = ((λ e. absurd (omega arith), tt), (tt, tt))

db_unique : founders_unique db.memberships ≡ true
unfolding founders_unique has_founder
db_unique = refl

db-IsSound : IsSound db
unfolding founder_count
db-IsSound = (db-IsKeyed, db_unique, (refl, tt))

-- Alice makes Bob the founder.
alice_transfers :
    check_transfer db as_alice 10 2 ≡ ok (lab, member 20 1 "founder", member 21 2 "admin")
unfolding check_transfer get_workspace_for_admin get_workspace_or_404 get_workspace
    is_workspace_archived is_platform_admin require_founder_transfer list_active_founders
    get_active_membership order_by insert_ordered lookup
alice_transfers = refl

transfer_founder-swapped_example :
    let db' = swapped (member 20 1 "founder") (member 21 2 "admin") 200 db in
    ((transfer_founder no_json db as_alice 10 2 200).1 ≡ db')
    × (list_active_founders db' 10 ≡ with_role "founder" 200 (member 21 2 "admin") ∷ [])
    × (founders_unique db'.memberships ≡ true)
transfer_founder-swapped_example =
    transfer_founder-swapped no_json db as_alice 10 2 200 db-IsKeyed db_unique alice_transfers

Reach-IsSound_example : IsSound (transfer_founder no_json db as_alice 10 2 200).1
Reach-IsSound_example =
    Reach-IsSound no_json empty_object ascii_lower
      (then_step here (transfers_founder as_alice 10 2 200)) db-IsSound

abbrev bob_in_lab : MembershipContext
bob_in_lab = record { workspace = lab; membership = member 21 2 "admin" }

bob_resolves : resolve_membership_context db 2 5 none ≡ ok bob_in_lab
unfolding resolve_membership_context default_row fallback_row get_default_workspace order_by
    insert_ordered join_rows join_one append_rows first_row
bob_resolves = refl

resolve_membership_context-IsMember_example : IsMember db 2 5 bob_in_lab
resolve_membership_context-IsMember_example =
    resolve_membership_context-IsMember db 2 5 none bob_resolves

bob_in_lab-IsMember : IsMember db 2 5 bob_in_lab
unfolding is_workspace_archived
bob_in_lab-IsMember = record {
  membership_there = inr (inl refl);
  workspace_there = inl refl;
  of_user = refl;
  of_workspace = refl;
  of_tenant = refl;
  active = refl;
  workspace_active = refl;
  unarchived = refl;
}

resolve_membership_context-found_example :
    (c : MembershipContext) × (resolve_membership_context db 2 5 none ≡ ok c)
resolve_membership_context-found_example =
    resolve_membership_context-found db 2 5 bob_in_lab bob_in_lab-IsMember

-- " My Lab!" becomes "my-lab".
abbrev my_lab : Text
my_lab = b' ' ∷ b'M' ∷ b'y' ∷ b' ' ∷ b'L' ∷ b'a' ∷ b'b' ∷ b'!' ∷ []

abbrev my_lab_slug : Text
my_lab_slug = b'm' ∷ b'y' ∷ b'-' ∷ b'l' ∷ b'a' ∷ b'b' ∷ []

my_lab-normal : normalize_slug ascii_lower (some my_lab) ≡ ok my_lab_slug
unfolding normalize_slug slug_of is_space is_slug_char
my_lab-normal = refl

normalize_slug-is_slug_example : (is_slug my_lab_slug ≡ true) × (length my_lab_slug ≤ 128)
normalize_slug-is_slug_example = normalize_slug-is_slug ascii_lower (some my_lab) my_lab-normal
