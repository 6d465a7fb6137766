-- ===== src/Identity/Keys.antt =====
-- Personal API keys: internal/identity/apikey_service.go over
-- adapters/persistence/identitypg/apikey.go. `verify` is the comparison with an argon2id hash, false for
-- a hash that cannot be read. Names are ASCII; a rate that is not positive is 0.
pub mod Revoked
pub mod RoundTrip
use forecastiq.Prelude.{
  ℕ, ◌+◌, ◌≡◌, ◌↔◌, refl, Bool, true, false, not, ◌&&◌, ◌||◌, Option, none, some, List, [], ◌∷◌,
  ◌++◌, ltb, leb, ◌==◌, if◌then◌else◌, is_some, Result, ok, err, ◌>>=◌, length, arith,
}
use forecastiq.Text.{same_text, trim_space}
use forecastiq.Identity.{
  User, Principal, api_key, is_active, IdentityError, user_disabled, key_not_found, key_inactive,
  invalid_credential, invalid_field, storage_error, get_by_id,
}
use forecastiq.Identity.Credential.{split_key, plaintext, key_prefix}

pub record ApiKey : Type 0 where
  pub id : ℕ
  pub user_id : ℕ
  pub workspace_id : ℕ
  pub name : List ℕ
  pub key_hash : List ℕ
  pub key_prefix : List ℕ
  pub scopes : List ℕ
  pub rate_limit_per_min : ℕ
  pub expires_at : Option ℕ
  pub created_at : ℕ
  pub revoked_at : Option ℕ
  pub last_used_at : Option ℕ

unfoldable pub expired : ApiKey → ℕ → Bool
expired k now = elim k.expires_at [ none ↦ false | some t ↦ leb t now ]

unfoldable pub usable : ApiKey → ℕ → Bool
unfolding expired
usable k now = not (is_some k.revoked_at) && not (expired k now)

unfoldable pub get_by_prefix : List ℕ → List ApiKey → Result IdentityError ApiKey
get_by_prefix prefix [] = err key_not_found
get_by_prefix prefix (k ∷ ks) =
    let rest = get_by_prefix prefix ks in if same_text k.key_prefix prefix then ok k else rest

unfoldable pub get_key : ℕ → List ApiKey → Result IdentityError ApiKey
get_key id [] = err key_not_found
get_key id (k ∷ ks) = let rest = get_key id ks in if k.id == id then ok k else rest

unfoldable pub list_by_user : ℕ → List ApiKey → List ApiKey
list_by_user user_id [] = []
list_by_user user_id (k ∷ ks) =
    let rest = list_by_user user_id ks in
    if k.user_id == user_id then record k { key_hash = [] } ∷ rest else rest

-- The unique columns of `api_keys`, the id and the prefix.
unfoldable pub key_conflicts : ApiKey → List ApiKey → Bool
key_conflicts v [] = false
key_conflicts v (k ∷ ks) =
    (k.id == v.id) || same_text k.key_prefix v.key_prefix || key_conflicts v ks

unfoldable pub insert_key : ApiKey → List ApiKey → Result IdentityError (List ApiKey)
insert_key v table = if key_conflicts v table then err storage_error else ok (v ∷ table)

unfoldable pub update_key : (ApiKey → ApiKey) → ℕ → List ApiKey → List ApiKey
update_key change id [] = []
update_key change id (k ∷ ks) =
    let rest = update_key change id ks in if k.id == id then change k ∷ rest else k ∷ rest

-- `SET revoked_at = $2 … AND revoked_at IS NULL`
unfoldable pub revoked : ℕ → ApiKey → ApiKey
revoked at k = if is_some k.revoked_at then k else record k { revoked_at = some at }

unfoldable pub touched : ℕ → ApiKey → ApiKey
touched at k = record k { last_used_at = some at }

pub record CreateKeyInput : Type 0 where
  pub name : List ℕ
  pub scopes : List ℕ
  pub rate_limit_per_min : ℕ
  pub expires_at : Option ℕ

-- What the calls outside bring: the random bytes and the secret, the hash of the plaintext, the id, and
-- whether the transaction goes through.
pub record Minting : Type 0 where
  pub random : Option (List ℕ × List ℕ)
  pub hash : List ℕ → Option (List ℕ)
  pub new_id : ℕ
  pub stores : Bool

abbrev pub read_public : ℕ
read_public = 0

abbrev pub default_key_rate_min : ℕ
default_key_rate_min = 60

abbrev pub max_key_name_len : ℕ
max_key_name_len = 100

unfoldable pub or_default : List ℕ → List ℕ
or_default [] = read_public ∷ []
or_default (s ∷ ss) = s ∷ ss

unfoldable pub new_key : Minting → Principal → CreateKeyInput → ℕ → (prefix hash : List ℕ) → ApiKey
new_key env p in_ now prefix hash = record {
  id = env.new_id;
  user_id = p.user_id;
  workspace_id = p.workspace_id;
  name = trim_space in_.name;
  key_hash = hash;
  key_prefix = prefix;
  scopes = or_default in_.scopes;
  rate_limit_per_min =
      if in_.rate_limit_per_min == 0 then default_key_rate_min else in_.rate_limit_per_min;
  expires_at = in_.expires_at;
  created_at = now;
  revoked_at = none;
  last_used_at = none;
}

unfoldable pub valid_name : List ℕ → Bool
valid_name s = let n = length (trim_space s) in not (n == 0) && not (ltb max_key_name_len n)

-- The transaction of `CreateKey`, and what it returns: the key with no hash, and the plaintext.
unfoldable pub store_key :
    Minting → ApiKey → List ℕ → List ApiKey → List ApiKey × Result IdentityError (ApiKey × List ℕ)
store_key env key text table =
    if env.stores
    then elim (insert_key key table) [
      | ok table' ↦ (table', ok (record key { key_hash = [] }, text))
      | err e ↦ (table, err e)
    ]
    else (table, err storage_error)

unfoldable pub create_key :
    Minting
    → Principal
    → CreateKeyInput
    → ℕ
    → List ApiKey
    → List ApiKey × Result IdentityError (ApiKey × List ℕ)
create_key env p in_ now table =
    if valid_name in_.name
    then elim env.random [
      | none ↦ (table, err storage_error)
      | some (random, secret) ↦ elim (env.hash (plaintext random secret)) [
        | none ↦ (table, err storage_error)
        | some hash ↦
            store_key env (new_key env p in_ now (key_prefix random) hash) (plaintext random secret)
              table
      ]
    ]
    else (table, err invalid_field)

-- `commits` is false if a statement of the transaction fails.
unfoldable pub revoke_key :
    Bool → (user_id key_id now : ℕ) → List ApiKey → List ApiKey × Result IdentityError (Unit {0})
revoke_key commits user_id key_id now table = elim (get_key key_id table) [
  | err e ↦ (table, err e)
  | ok k ↦
      if k.user_id == user_id
      then if commits
        then (update_key (revoked now) key_id table, ok tt)
        else (table, err storage_error)
      else (table, err key_not_found)
]

-- Which operations of `AuthenticateAPIKey` succeed. If the time of last use is not stored, the key is
-- still good.
pub record KeyFaults : Type 0 where
  pub reads_key : Bool
  pub reads_user : Bool
  pub touches : Bool

module _ (verify : List ℕ → List ℕ → Bool) where
  -- The checks of `AuthenticateAPIKey`, up to the time of last use.
  unfoldable pub resolve_key :
      KeyFaults → ℕ → List ℕ → List User → List ApiKey → Result IdentityError (ApiKey × User)
  resolve_key faults now raw users table = elim (split_key raw) [
    | none ↦ err invalid_credential
    | some prefix ↦
        elim (if faults.reads_key then get_by_prefix prefix table else err storage_error) [
          | err e ↦ err (if faults.reads_key then invalid_credential else storage_error)
          | ok k ↦
              if verify raw k.key_hash
              then if usable k now
                then elim (if faults.reads_user
                    then get_by_id k.user_id users
                    else err storage_error) [
                      | err e ↦ err e
                      | ok u ↦ if is_active u.status then ok (k, u) else err user_disabled
                    ]
                else err key_inactive
              else err invalid_credential
        ]
  ]

  abbrev pub principal_of : ApiKey × User → Principal
  principal_of (k, u) = record {
    user_id = u.id;
    workspace_id = u.workspace_id;
    email = u.email;
    role = u.role;
    method = api_key;
    scopes = k.scopes;
  }

  unfoldable pub authenticate_api_key :
      KeyFaults
      → ℕ
      → List ℕ
      → List User
      → List ApiKey
      → List ApiKey × Result IdentityError Principal
  authenticate_api_key faults now raw users table = elim (resolve_key faults now raw users table) [
    | err e ↦ (table, err e)
    | ok found ↦ (
      if faults.touches then update_key (touched now) found.0.id table else table,
      ok (principal_of found),
    )
  ]
