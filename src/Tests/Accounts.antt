-- ===== src/Tests/Accounts.antt =====
-- Users, API keys and guards at concrete inputs.
use forecastiq.Prelude.{
  ℕ, ◌≡◌, refl, Bool, true, false, none, some, List, [], ◌∷◌, arith, ok, is_ok, subst,
}
use mathlib.Core.Option.{some-injective}
use forecastiq.Text.{
  same_text, same_text_refl, has_prefix, trim_space, trim_left, is_space, without,
}
use forecastiq.Identity.{
  authenticate, resolve_or_provision, get_by_auth_subject, log_in, User, user, admin, active,
  Principal, jwt, api_key, get_by_id,
}
use forecastiq.Identity.Admin.{
  AdminFaults, setting_role, deleting, to_role, run, has_admin, run-has_admin,
}
use forecastiq.Identity.Credential.{
  hex_digit, hex, key_prefix, plaintext, split_key, split_key-plaintext,
}
use forecastiq.Identity.Keys.{
  ApiKey, CreateKeyInput, Minting, KeyFaults, create_key, store_key, insert_key, key_conflicts,
  new_key, valid_name, or_default, expired, get_by_prefix, get_key, revoke_key,
  authenticate_api_key,
}
use forecastiq.Identity.Keys.Revoked.{creating, revoking, serve_all, revoke-final}
use forecastiq.Identity.Keys.RoundTrip.{create_key-authenticates}
use forecastiq.Identity.Access.{
  World, Headers, Tables, role_gate, passes, access, resolve, by_key, by_token,
}
use forecastiq.Identity.Access.Sound.{IsVouched, access-IsVouched}

abbrev anna : User
anna = record {
  id = 1;
  workspace_id = 9;
  auth_subject = 11;
  email = 21;
  role = admin;
  status = active;
  last_login_at = none;
}

abbrev ben : User
ben = record anna { id = 2; auth_subject = 12; email = 22; role = user }

abbrev users : List User
users = anna ∷ ben ∷ []

abbrev all_go : AdminFaults
all_go = record { reads = true; propagates = true; commits = true }

-- Ben becomes an admin and deletes Anna's account.
run-has_admin_example :
    has_admin
      (run ((all_go, 1, setting_role 2 (to_role admin)) ∷ (all_go, 2, deleting 1) ∷ []) users)
    ≡ true
unfolding has_admin
run-has_admin_example =
    run-has_admin ((all_go, 1, setting_role 2 (to_role admin)) ∷ (all_go, 2, deleting 1) ∷ []) users
      refl

abbrev secret : List ℕ
secret = b's' ∷ b'3' ∷ b'c' ∷ []

abbrev random : List ℕ
random = 18 ∷ 171 ∷ 0 ∷ 255 ∷ []

abbrev minting : Minting
minting = record {
  random = some (random, secret);
  hash = λ t. some (b'$' ∷ t);
  new_id = 70;
  stores = true;
}

abbrev anna_session : Principal
anna_session = record {
  user_id = 1;
  workspace_id = 9;
  email = 21;
  role = admin;
  method = jwt;
  scopes = [];
}

abbrev request : CreateKeyInput
request = record {
  name = b'c' ∷ b'i' ∷ [];
  scopes = [];
  rate_limit_per_min = 0;
  expires_at = some 500;
}

abbrev verify : List ℕ → List ℕ → Bool
verify t h = same_text (b'$' ∷ t) h

abbrev anna_key : ApiKey
anna_key =
    new_key minting anna_session request 100 (key_prefix random) (b'$' ∷ plaintext random secret)

abbrev key_faults : KeyFaults
key_faults = record { reads_key = true; reads_user = true; touches = true }

created :
    (create_key minting anna_session request 100 []).1
    ≡ ok (record anna_key { key_hash = [] }, plaintext random secret)
unfolding create_key store_key insert_key key_conflicts new_key valid_name trim_space trim_left
    is_space or_default plaintext key_prefix hex hex_digit
created = refl

verifies : (t h : List ℕ) → some (b'$' ∷ t) ≡ some h → verify t h ≡ true
unfolding same_text
verifies t h e =
    subst (λ z. same_text (b'$' ∷ t) z ≡ true) (some-injective _ _ e) (same_text_refl (b'$' ∷ t))

create_key-authenticates_example :
    (authenticate_api_key verify key_faults 300
      (plaintext random secret)
      users
      (create_key minting anna_session request 100 []).0).1
    ≡ ok (record {
      user_id = 1;
      workspace_id = 9;
      email = 21;
      role = admin;
      method = api_key;
      scopes = (record anna_key { key_hash = [] }).scopes;
    })
unfolding expired new_key get_by_id
create_key-authenticates_example =
    create_key-authenticates minting anna_session request 100 300 []
      (record anna_key { key_hash = [] }) (plaintext random secret) verify key_faults users anna
      created verifies refl refl refl refl refl

abbrev table : List ApiKey
table = anna_key ∷ []

revoked_ok : (revoke_key true 1 70 200 table).1 ≡ ok tt
unfolding revoke_key get_key new_key
revoked_ok = refl

found_by_prefix : get_by_prefix anna_key.key_prefix table ≡ ok anna_key
unfolding get_by_prefix
found_by_prefix = ground (arith, same_text_refl anna_key.key_prefix)

id_of_key : anna_key.id ≡ 70
unfolding new_key
id_of_key = refl

prefix_of_key : split_key (plaintext random secret) ≡ some anna_key.key_prefix
unfolding new_key
prefix_of_key = split_key-plaintext random secret

revoke-final_example :
    is_ok
      (authenticate_api_key verify key_faults 300 (plaintext random secret) users (
        serve_all
          (creating minting anna_session request 250 ∷ revoking true 2 70 260 ∷ [])
          (revoke_key true 1 70 200 table).0)).1
    ≡ false
revoke-final_example =
    revoke-final 1 70 200 300 table anna_key
      (creating minting anna_session request 250 ∷ revoking true 2 70 260 ∷ []) verify key_faults
      (plaintext random secret) users found_by_prefix id_of_key revoked_ok prefix_of_key

abbrev world : World
world = record {
  now = 300;
  claims_of = λ t. ok (record { subject = 11; email = 21 });
  verify = verify;
  key_faults = key_faults;
  provisioning = record {
    new_id = 90;
    workspace_id = 9;
    others = λ us. us;
    reads = true;
    stores = true;
    touches = true;
  };
}

-- "Bearer t"
abbrev headers : Headers
headers = record {
  x_api_key = [];
  authorization = b'B' ∷ b'e' ∷ b'a' ∷ b'r' ∷ b'e' ∷ b'r' ∷ b' ' ∷ b't' ∷ [];
}

abbrev tables : Tables
tables = record { users = users; keys = [] }

let_in : (access world (role_gate admin) headers tables).1 ≡ ok anna_session
unfolding access resolve by_token by_key without trim_space trim_left is_space has_prefix passes
    authenticate resolve_or_provision get_by_auth_subject log_in
let_in = refl

access-IsVouched_example :
    IsVouched world headers tables anna_session × (passes (role_gate admin) anna_session ≡ true)
access-IsVouched_example =
    access-IsVouched world (role_gate admin) headers tables anna_session let_in
