-- ===== src/Invite/Claim.antt =====
-- `claim_workspace_invite`: the invite's id stands for a session, and a user is made if there is
-- none. `hash_password`, a salted hash of a library, and the suffix of a taken name are arguments.
use fast_page.Prelude.{
  ℕ, String, Bool, true, false, not, ◌&&◌, Option, none, some, [], ◌∷◌, ◌++◌, ◌==◌, keep, any,
  if◌then◌else◌,
}
use fast_page.Json.{Json}
use fast_page.Http.{Result, ok, raise_if, ◌>>◌}
use fast_page.Chars.{split_once, Text, codes, text_eq, is_empty}
use fast_page.Access.Principal.{User}
use fast_page.Auth.{Claims}
use fast_page.Workspace.Models.{Db}
use fast_page.Workspace.Queries.{first}
use fast_page.Invite.Models.{Store, StoreRequest, checked, write}
use fast_page.Invite.Emails.{at_sign}
use fast_page.Invite.Join.{
  Handoff, invite_workspace, accepted, aligned, row_id, with_pending, joined,
}
use fast_page.Invite.Accept.{join_workspace, accepted_answer}

abbrev has_email : Text → Option Text → Bool
has_email email none = false
has_email email (some e) = text_eq e email

unfoldable pub starts_with : Text → Text → Bool
starts_with t [] = true
starts_with [] (p ∷ ps) = false
starts_with (c ∷ cs) (p ∷ ps) = c == p && starts_with cs ps

-- The user has a hash that is not a placeholder.
unfoldable pub has_password : User → Bool
unfolding starts_with
has_password u =
    not (is_empty u.password_hash) && not (starts_with u.password_hash (codes "PLACEHOLDER"))

abbrev given : Option Text → Text
given none = []
given (some name) = name

abbrev pub with_password : Text → (now : ℕ) → Text → User → User
with_password hash now name u = record u {
  username = if is_empty name then u.username else name;
  password_hash = hash;
  updated_at = now;
}

abbrev pub new_user : (id tenant_id : ℕ) → Text → Text → Text → (now : ℕ) → User
new_user id tenant_id username email hash now = record {
  id = id;
  tenant_id = tenant_id;
  username = username;
  email = some email;
  password_hash = hash;
  can_create_workspace = false;
  is_platform_admin = false;
  must_change_password = false;
  is_active = true;
  created_at = now;
  updated_at = now;
}

-- The name asked for, or what stands before the email's sign; a name that is taken gets a suffix.
unfoldable pub free_username : Db → Option Text → Text → (suffix : Text) → Text
unfolding split_once
free_username db username email suffix =
    let name = if is_empty (given username) then (split_once at_sign email).0 else given username in
    if any (λ u. text_eq u.username name) db.users then name ++ (codes "_" ++ suffix) else name

module _ (hash_password : Text → Text) where
  -- The user of the invite's email, and the tables with that user
  unfoldable pub claim_user :
      Db
      → Option User
      → (email password : Text) → (username : Option Text) → (suffix : Text)
      → (tenant_id now new_id : ℕ) → Result (User × Db)
  unfolding has_password free_username
  claim_user db (some u) email password username suffix tenant_id now new_id = do
    raise_if (has_password u) 400
        "This email already has an account with a password. Please log in and accept the invite from your dashboard."
    raise_if
        (not (is_empty (given username))
          && any (λ v. text_eq v.username (given username) && not (v.id == u.id)) db.users)
        409 "Username already exists"
    let change = with_password (hash_password password) now (given username)
    ok (change u, record db { users = write row_id u.id change db.users })
  claim_user db none email password username suffix tenant_id now new_id =
      let u =
        new_user new_id tenant_id (free_username db username email suffix) email
          (hash_password password) now in
      ok (u, record db { users = db.users ++ (u ∷ []) })

abbrev pub find_by_email : Db → Text → Option User
find_by_email db email = first (keep (λ u. has_email email u.email) db.users)

module _ (loads : String → Option Json) (encode : Claims → String)
    (hash_password : Text → Text) where
  unfoldable pub claim_invite :
      Store
      → ℕ
      → (password : Text) → (username : Option Text) → (suffix : Text) → (jti : String)
      → (now token_at new_user_id new_tenant_id new_id : ℕ) → StoreRequest Handoff
  unfolding with_pending
  claim_invite s invite_id password username suffix jti now token_at new_user_id new_tenant_id
        new_id =
      with_pending s invite_id now λ i.
        checked s (invite_workspace s.db i "Workspace is archived") λ w.
          checked s
            (claim_user hash_password s.db (find_by_email s.db i.email) i.email password username
              suffix w.tenant_id now new_user_id)
            λ (user, db). checked s (join_workspace db user w i now new_tenant_id new_id) λ db'.
              let s' = joined s db' i user w.tenant_id now in
              (
                accepted_answer loads encode s' (accepted user.id now i)
                    (aligned w.tenant_id now user) w jti now token_at,
                s',
              )
