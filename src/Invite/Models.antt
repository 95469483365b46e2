-- ===== src/Invite/Models.antt =====
-- The rows of app/models/workspace_invite.py beside the other tables, and requests on them.
use fast_page.Prelude.{
  ℕ, String, Bool, true, not, ◌&&◌, Option, List, [], ◌∷◌, leb, ◌==◌, keep, any, str_eq,
  if◌then◌else◌,
}
use fast_page.Http.{Result, ok, err}
use fast_page.Chars.{Text, text_eq}
use fast_page.Workspace.Models.{Db}
use fast_page.Workspace.Queries.{first}

pub record WorkspaceInvite : Type 0 where
  pub id : ℕ
  pub workspace_id : ℕ
  pub email : Text
  pub role : String
  pub permissions_override_json : String
  pub status : String
  pub invited_by : ℕ
  pub accepted_user_id : Option ℕ
  pub expires_at : ℕ
  pub accepted_at : Option ℕ
  pub revoked_at : Option ℕ
  pub created_at : ℕ
  pub updated_at : ℕ

-- All tables
pub record Store : Type 0 where
  pub db : Db
  pub invites : List WorkspaceInvite

abbrev pub StoreRequest : Type 0 → Type 0
StoreRequest A = Result A × Store

-- What raises before a commit leaves the tables.
abbrev pub checked : {A B : Type 0} → Store → Result B → (B → StoreRequest A) → StoreRequest A
checked s (ok b) f = f b
checked s (err e) f = (err e, s)

-- The row with this primary key, written anew
abbrev pub write : {A : Type 0} → (A → ℕ) → ℕ → (A → A) → List A → List A
write key id f [] = []
write key id f (x ∷ xs) = (if key x == id then f x else x) ∷ write key id f xs

abbrev pub invite_id : WorkspaceInvite → ℕ
invite_id i = i.id

abbrev pub write_invite :
    ℕ → (WorkspaceInvite → WorkspaceInvite) → List WorkspaceInvite → List WorkspaceInvite
write_invite = write invite_id

-- `db.get(WorkspaceInvite, id)`
unfoldable pub get_invite : Store → ℕ → Option WorkspaceInvite
get_invite s id = first (keep (λ i. i.id == id) s.invites)

unfoldable pub effective_status : WorkspaceInvite → (now : ℕ) → String
effective_status i now =
    if str_eq i.status "pending" && leb i.expires_at now then "expired" else i.status

abbrev pub is_pending_for : ℕ → Text → WorkspaceInvite → Bool
is_pending_for workspace_id email i =
    i.workspace_id == workspace_id && text_eq i.email email && str_eq i.status "pending"

-- The unique index on the workspace and `pending_normalized_email`, which a flush is held to. An
-- email is stored in its normal form.
unfoldable pub pending_unique : List WorkspaceInvite → Bool
pending_unique [] = true
pending_unique (i ∷ is) =
    not (str_eq i.status "pending" && any (is_pending_for i.workspace_id i.email) is)
    && pending_unique is

abbrev pub expired : ℕ → WorkspaceInvite → WorkspaceInvite
expired now i = record i { status = "expired"; updated_at = now }

abbrev pub set_invite : ℕ → (WorkspaceInvite → WorkspaceInvite) → Store → Store
set_invite id f s = record s { invites = write_invite id f s.invites }
