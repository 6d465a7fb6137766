-- ===== src/Identity.antt =====
-- Users and personal API keys: internal/identity (domain, apikey_service.go, user_service.go) over the
-- tables of adapters/persistence/identitypg. Subjects, emails and ids are numbers, texts that the code
-- looks into are lists of bytes, scopes are numbers of which 0 is `read:public`. The audit record is
-- part of its transaction and shows as its fault; log and profile preferences are left out.
pub mod Admin
pub mod Credential
pub mod Access
pub mod Keys
use forecastiq.Prelude.{
  ℕ, Bool, true, false, not, ◌&&◌, ◌||◌, Option, none, some, List, [], ◌∷◌, leb, ltb, ◌==◌,
  if◌then◌else◌, is_some, Result, ok, err, ◌>>=◌,
}

pub data Role : Type 0 where
  user : Role
  admin : Role

pub data UserStatus : Type 0 where
  active : UserStatus
  disabled : UserStatus
  archived : UserStatus

abbrev pub is_admin : Role → Bool
is_admin admin = true
is_admin user = false

pub record User : Type 0 where
  pub id : ℕ
  pub workspace_id : ℕ
  pub auth_subject : ℕ
  pub email : ℕ
  pub role : Role
  pub status : UserStatus
  pub last_login_at : Option ℕ

abbrev pub is_active : UserStatus → Bool
is_active active = true
is_active _ = false

pub data IdentityError : Type 0 where
  user_not_found : IdentityError
  user_disabled : IdentityError
  key_not_found : IdentityError
  key_inactive : IdentityError
  invalid_token : IdentityError
  invalid_credential : IdentityError
  duplicate_subject : IdentityError
  self_lockout : IdentityError
  upstream_auth : IdentityError
  invalid_field : IdentityError
  storage_error : IdentityError

unfoldable pub get_by_id : ℕ → List User → Result IdentityError User
get_by_id id [] = err user_not_found
get_by_id id (u ∷ us) = let rest = get_by_id id us in if u.id == id then ok u else rest

unfoldable pub get_by_auth_subject : ℕ → List User → Result IdentityError User
get_by_auth_subject subject [] = err user_not_found
get_by_auth_subject subject (u ∷ us) =
    let rest = get_by_auth_subject subject us in if u.auth_subject == subject then ok u else rest

-- An update of the row of an id.
unfoldable pub update_user : (User → User) → ℕ → List User → List User
update_user change id [] = []
update_user change id (u ∷ us) =
    let rest = update_user change id us in if u.id == id then change u ∷ rest else u ∷ rest

unfoldable pub delete_user : ℕ → List User → List User
delete_user id [] = []
delete_user id (u ∷ us) = let rest = delete_user id us in if u.id == id then rest else u ∷ rest

-- The unique columns of `users`: the id, the subject and the email.
unfoldable pub conflicts : User → List User → Bool
conflicts v [] = false
conflicts v (u ∷ us) =
    (u.id == v.id) || (u.auth_subject == v.auth_subject) || (u.email == v.email) || conflicts v us

unfoldable pub insert_user : User → List User → Result IdentityError (List User)
insert_user v table = if conflicts v table then err duplicate_subject else ok (v ∷ table)

pub data AuthMethod : Type 0 where
  jwt : AuthMethod
  api_key : AuthMethod

pub record Principal : Type 0 where
  pub user_id : ℕ
  pub workspace_id : ℕ
  pub email : ℕ
  pub role : Role
  pub method : AuthMethod
  pub scopes : List ℕ

pub record Claims : Type 0 where
  pub subject : ℕ
  pub email : ℕ

-- What `ids.New` returns, the workspace of new users, what other requests commit between the read and
-- the insert, and which operations succeed.
pub record Provisioning : Type 0 where
  pub new_id : ℕ
  pub workspace_id : ℕ
  pub others : List User → List User
  pub reads : Bool
  pub stores : Bool
  pub touches : Bool

unfoldable pub provisioned : Provisioning → Claims → User
provisioned env claims = record {
  id = env.new_id;
  workspace_id = env.workspace_id;
  auth_subject = claims.subject;
  email = claims.email;
  role = user;
  status = active;
  last_login_at = none;
}

-- The insert of `resolveOrProvision`, and the second read after a conflict.
unfoldable pub provision : Provisioning → Claims → List User → List User × Result IdentityError User
provision env claims table =
    if env.stores
    then elim (insert_user (provisioned env claims) table) [
      | ok table' ↦ (table', ok (provisioned env claims))
      | err e ↦ (table, get_by_auth_subject claims.subject table)
    ]
    else (table, err storage_error)

unfoldable pub resolve_or_provision :
    Provisioning → Claims → List User → List User × Result IdentityError User
resolve_or_provision env claims table =
    if env.reads
    then elim (get_by_auth_subject claims.subject table) [
      | ok existing ↦ (table, ok existing)
      | err e ↦ provision env claims (env.others table)
    ]
    else (table, err storage_error)

abbrev pub touched : ℕ → User → User
touched now u = record u { last_login_at = some now }

unfoldable pub log_in :
    Provisioning
    → ℕ
    → List User × Result IdentityError User
    → List User × Result IdentityError Principal
log_in env now (table, err e) = (table, err e)
log_in env now (table, ok u) =
    if is_active u.status
    then if env.touches
      then (
        update_user (touched now) u.id table,
        ok (record {
          user_id = u.id;
          workspace_id = u.workspace_id;
          email = u.email;
          role = u.role;
          method = jwt;
          scopes = [];
        }),
      )
      else (table, err storage_error)
    else (table, err user_disabled)

-- `Authenticate`; what the verifier makes of the token is an argument.
unfoldable pub authenticate :
    Provisioning
    → ℕ
    → Result IdentityError Claims
    → List User
    → List User × Result IdentityError Principal
authenticate env now (err e) table = (table, err e)
authenticate env now (ok claims) table = log_in env now (resolve_or_provision env claims table)
