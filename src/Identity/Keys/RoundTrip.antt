-- ===== src/Identity/Keys/RoundTrip.antt =====
-- A key that has been created authenticates as its user (internal/identity/apikey_service.go).
use forecastiq.Prelude.{
  ℕ, ◌≡◌, inl, inr, Bool, true, false, not, some, List, [], ◌∷◌, ok, arith, Bool-cases,
  Option-cases, sym, ap, ◌∙◌,
}
use forecastiq.Identity.{User, Principal, api_key, get_by_id, is_active}
use forecastiq.Identity.Credential.{split_key, plaintext, key_prefix, split_key-plaintext}
use forecastiq.Identity.Keys.{
  ApiKey, usable, expired, get_by_prefix, insert_key, CreateKeyInput, Minting, new_key, store_key,
  create_key, KeyFaults, resolve_key, authenticate_api_key, principal_of, valid_name,
}
use forecastiq.Text.{same_text_refl}

-- What a successful creation has done.
create-done :
    (env : Minting) (p : Principal) (in_ : CreateKeyInput) (now : ℕ) (table : List ApiKey)
    (out : ApiKey) (text : List ℕ)
    → (create_key env p in_ now table).1 ≡ ok (out, text)
    → (random secret hash : List ℕ) × (env.hash text ≡ some hash)
      × (text ≡ plaintext random secret)
      × ((create_key env p in_ now table).0
          ≡ new_key env p in_ now (key_prefix random) hash ∷ table)
      × (out ≡ record (new_key env p in_ now (key_prefix random) hash) { key_hash = [] })
unfolding create_key store_key insert_key
create-done env p in_ now table out text e = elim (Option-cases env.random) [
  | inl k ↦ absurd (ground (arith, e, k))
  | inr ((random, secret), k) ↦ elim (Option-cases (env.hash (plaintext random secret))) [
    | inl q ↦ absurd (ground (arith, e, k, q))
    | inr (hash, q) ↦ elim (Bool-cases (valid_name in_.name)) [
      | inr bad ↦ absurd (ground (arith, e, bad))
      | inl good ↦
          let same : text ≡ plaintext random secret = ground (arith, e, k, q, good) in
          (
            random,
            secret,
            hash,
            ap env.hash same ∙ q,
            same,
            ground (arith, e, k, q, good),
            ground (arith, e, k, q, good),
          )
    ]
  ]
]

-- The key at the head of the table.
resolve-head :
    (verify : List ℕ → List ℕ → Bool) (faults : KeyFaults) (now : ℕ) (raw : List ℕ)
    (users : List User) (key : ApiKey) (table : List ApiKey) (u : User)
    → split_key raw ≡ some key.key_prefix
    → verify raw key.key_hash ≡ true
    → faults.reads_key ≡ true
    → faults.reads_user ≡ true
    → usable key now ≡ true
    → get_by_id key.user_id users ≡ ok u
    → is_active u.status ≡ true
    → resolve_key verify faults now raw users (key ∷ table) ≡ ok (key, u)
unfolding resolve_key get_by_prefix
resolve-head verify faults now raw users key table u s v rk ru us found act =
    ground (arith, s, v, rk, ru, us, found, act, same_text_refl key.key_prefix)

authenticate-ok :
    (verify : List ℕ → List ℕ → Bool) (faults : KeyFaults) (now : ℕ) (raw : List ℕ)
    (users : List User) (table : List ApiKey) (found : ApiKey × User)
    → resolve_key verify faults now raw users table ≡ ok found
    → (authenticate_api_key verify faults now raw users table).1 ≡ ok (principal_of verify found)
unfolding authenticate_api_key
authenticate-ok verify faults now raw users table found e = ground (arith, e)

-- The plaintext that `CreateKey` returns authenticates, until the key expires, as the user who asked for it,
-- with the role that the table of users holds and the scopes of the key: if the user is active, the reads
-- succeed, and a text verifies against its own hash.
pub create_key-authenticates :
    (env : Minting) (p : Principal) (in_ : CreateKeyInput) (now later : ℕ) (table : List ApiKey)
    (out : ApiKey) (text : List ℕ) (verify : List ℕ → List ℕ → Bool) (faults : KeyFaults)
    (users : List User) (u : User)
    → (create_key env p in_ now table).1 ≡ ok (out, text)
    → ((t h : List ℕ) → env.hash t ≡ some h → verify t h ≡ true)
    → faults.reads_key ≡ true
    → faults.reads_user ≡ true
    → expired out later ≡ false
    → get_by_id p.user_id users ≡ ok u
    → is_active u.status ≡ true
    → (authenticate_api_key verify faults later text users (create_key env p in_ now table).0).1
      ≡ ok (record {
        user_id = u.id;
        workspace_id = u.workspace_id;
        email = u.email;
        role = u.role;
        method = api_key;
        scopes = out.scopes;
      })
unfolding new_key usable expired
create_key-authenticates env p in_ now later table out text verify faults users u e hashed rk ru
      fresh found act =
    let (random, secret, hash, h, same, stored, kept) =
      create-done env p in_ now table out text e in
    let key : ApiKey = new_key env p in_ now (key_prefix random) hash in
    let prefix : split_key text ≡ some key.key_prefix =
      ap split_key same ∙ split_key-plaintext random secret in
    let fresh' : expired key later ≡ false =
      ap (λ (z : ApiKey). expired z later) (sym kept) ∙ fresh in
    let good : usable key later ≡ true = ap not fresh' in
    let one : resolve_key verify faults later text users (key ∷ table) ≡ ok (key, u) =
      resolve-head verify faults later text users key table u prefix (hashed text hash h) rk ru good
        found act in
    let two =
      authenticate-ok verify faults later text users (create_key env p in_ now table).0 (key, u)
        (ap (resolve_key verify faults later text users) stored ∙ one) in
    two
    ∙ ap
        (λ (s : List ℕ). ok (record {
          user_id = u.id;
          workspace_id = u.workspace_id;
          email = u.email;
          role = u.role;
          method = api_key;
          scopes = s;
        }))
        (ap (λ (z : ApiKey). z.scopes) (sym kept))
