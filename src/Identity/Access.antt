-- ===== src/Identity/Access.antt =====
-- The guards of the routes: `Auth.resolve`, `RequireAuth`, `RequireRole` and `RequireScope`
-- (internal/api/middleware.go), and `HasScope` (internal/api/respond/context.go).
pub mod Sound
use forecastiq.Prelude.{
  ℕ, Bool, true, false, not, ◌&&◌, ◌||◌, Option, none, some, List, [], ◌∷◌, ◌==◌, if◌then◌else◌,
  mem, Result, ok, err,
}
use forecastiq.Identity.{
  User, Role, user, admin, Principal, AuthMethod, jwt, api_key, IdentityError, Claims, Provisioning,
  authenticate,
}
use forecastiq.Text.{has_prefix, is_empty, trim_space, without}
use forecastiq.Identity.Keys.{ApiKey, KeyFaults, authenticate_api_key, read_public}

pub record Headers : Type 0 where
  pub x_api_key : List ℕ
  pub authorization : List ℕ

pub record Tables : Type 0 where
  pub users : List User
  pub keys : List ApiKey

-- What the calls outside bring: the verifier of tokens, the comparison with a hash, and the faults.
pub record World : Type 0 where
  pub now : ℕ
  pub claims_of : List ℕ → Result IdentityError Claims
  pub verify : List ℕ → List ℕ → Bool
  pub key_faults : KeyFaults
  pub provisioning : Provisioning

-- "Bearer "
abbrev pub bearer : List ℕ
bearer = b'B' ∷ b'e' ∷ b'a' ∷ b'r' ∷ b'e' ∷ b'r' ∷ b' ' ∷ []

abbrev pub to_option {ℓ} : {A : Type ℓ} → Result IdentityError A → Option A
to_option (ok a) = some a
to_option (err e) = none

unfoldable pub by_key : World → List ℕ → Tables → Tables × Option Principal
by_key w key t =
    let r = authenticate_api_key w.verify w.key_faults w.now key t.users t.keys in
    (record t { keys = r.0 }, to_option r.1)

unfoldable pub by_token : World → List ℕ → Tables → Tables × Option Principal
by_token w token t =
    let r = authenticate w.provisioning w.now (w.claims_of token) t.users in
    (record t { users = r.0 }, to_option r.1)

-- A key takes precedence over a token.
unfoldable pub resolve : World → Headers → Tables → Tables × Option Principal
resolve w h t =
    let key = trim_space h.x_api_key in
    let token = trim_space (without bearer h.authorization) in
    if not (is_empty key)
    then by_key w key t
    else if has_prefix bearer h.authorization
    then if is_empty token then (t, none) else by_token w token t
    else (t, none)

abbrev pub is_api_key : AuthMethod → Bool
is_api_key api_key = true
is_api_key jwt = false

unfoldable pub has_scope : Principal → ℕ → Bool
has_scope p scope =
    if not (is_api_key p.method)
    then true
    else if scope == read_public
    then true
    else mem scope p.scopes

-- The guards that the router puts behind `RequireAuth`.
pub data Gate : Type 0 where
  any_user : Gate
  role_gate : Role → Gate
  scope_gate : ℕ → Gate

abbrev pub same_role : Role → Role → Bool
same_role user user = true
same_role admin admin = true
same_role _ _ = false

unfoldable pub passes : Gate → Principal → Bool
unfolding has_scope
passes any_user p = true
passes (role_gate r) p = same_role p.role r
passes (scope_gate s) p = has_scope p s

pub data Refusal : Type 0 where
  unauthorized : Refusal
  forbidden : Refusal

-- A request at a guarded route: the principal that its handler gets, or the refusal.
unfoldable pub access : World → Gate → Headers → Tables → Tables × Result Refusal Principal
access w gate h t =
    let (t', caller) = resolve w h t in
    elim caller [
      | none ↦ (t', err unauthorized)
      | some p ↦ if passes gate p then (t', ok p) else (t', err forbidden)
    ]
