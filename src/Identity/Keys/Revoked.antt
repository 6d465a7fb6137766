-- ===== src/Identity/Keys/Revoked.antt =====
-- A key that its owner has revoked never authenticates again, and what does authenticate is as the tables
-- say (internal/identity/apikey_service.go).
use forecastiq.Prelude.{
  ℕ, ◌≡◌, refl, inl, inr, Bool, true, false, some, List, [], ◌∷◌, if◌then◌else◌, is_some, ok, is_ok,
  Result-cases, subst, sym, arith, Option-cases,
}
use forecastiq.Text.{same_text, same_text-eq}
use forecastiq.Identity.{User, Principal}
use forecastiq.Identity.Credential.{split_key, plaintext, key_prefix}
use forecastiq.Identity.Keys.{
  ApiKey, usable, expired, get_by_prefix, get_key, key_conflicts, insert_key, update_key, revoked,
  touched, CreateKeyInput, Minting, new_key, store_key, create_key, revoke_key, KeyFaults,
  resolve_key, authenticate_api_key,
}

-- The key of a prefix is there, and revoked.
unfoldable pub is_revoked : List ℕ → List ApiKey → Bool
is_revoked prefix [] = false
is_revoked prefix (k ∷ ks) =
    let rest = is_revoked prefix ks in
    if same_text k.key_prefix prefix then is_some k.revoked_at else rest

-- The requests that change the table of keys.
pub data KeyRequest : Type 0 where
  creating : Minting → Principal → CreateKeyInput → ℕ → KeyRequest
  revoking : Bool → (user_id key_id now : ℕ) → KeyRequest
  authenticating : (List ℕ → List ℕ → Bool) → KeyFaults → ℕ → List ℕ → List User → KeyRequest

unfoldable pub serve : KeyRequest → List ApiKey → List ApiKey
serve (creating env p in_ now) table = (create_key env p in_ now table).0
serve (revoking commits user_id key_id now) table = (revoke_key commits user_id key_id now table).0
serve (authenticating verify faults now raw users) table =
    (authenticate_api_key verify faults now raw users table).0

unfoldable pub serve_all : List KeyRequest → List ApiKey → List ApiKey
serve_all [] table = table
serve_all (r ∷ rs) table = serve_all rs (serve r table)

update-is_revoked :
    (change : ApiKey → ApiKey) (id : ℕ) (prefix : List ℕ) (table : List ApiKey)
    → ((k : ApiKey) → (change k).key_prefix ≡ k.key_prefix)
    → ((k : ApiKey) → is_some k.revoked_at ≡ true → is_some (change k).revoked_at ≡ true)
    → is_revoked prefix table ≡ true
    → is_revoked prefix (update_key change id table) ≡ true
unfolding is_revoked update_key
update-is_revoked change id prefix [] keep mono h = cc
update-is_revoked change id prefix (k ∷ ks) keep mono h =
    ground (arith, keep k, mono k, update-is_revoked change id prefix ks keep mono)

conflict-is_revoked :
    (v : ApiKey) (prefix : List ℕ) (table : List ApiKey)
    → is_revoked prefix table ≡ true
    → same_text v.key_prefix prefix ≡ true
    → key_conflicts v table ≡ true
unfolding is_revoked key_conflicts
conflict-is_revoked v prefix [] h e = cc
conflict-is_revoked v prefix (k ∷ ks) h e =
    ground (arith, conflict-is_revoked v prefix ks, same_text-eq v.key_prefix prefix e)

insert-is_revoked :
    (v : ApiKey) (prefix : List ℕ) (table t' : List ApiKey)
    → is_revoked prefix table ≡ true
    → insert_key v table ≡ ok t'
    → is_revoked prefix t' ≡ true
unfolding insert_key is_revoked
insert-is_revoked v prefix table t' h e = ground (arith, h, e, conflict-is_revoked v prefix table h)

store-is_revoked :
    (env : Minting) (v : ApiKey) (text prefix : List ℕ) (table : List ApiKey)
    → is_revoked prefix table ≡ true
    → is_revoked prefix (store_key env v text table).0 ≡ true
unfolding store_key insert_key is_revoked
store-is_revoked env v text prefix table h = ground (arith, h, conflict-is_revoked v prefix table h)

create-is_revoked :
    (env : Minting) (p : Principal) (in_ : CreateKeyInput) (now : ℕ) (prefix : List ℕ)
    (table : List ApiKey)
    → is_revoked prefix table ≡ true
    → is_revoked prefix (create_key env p in_ now table).0 ≡ true
unfolding create_key
create-is_revoked env p in_ now prefix table h = elim (Option-cases env.random) [
  | inl k ↦ ground (arith, h, k)
  | inr ((random, secret), k) ↦ elim (Option-cases (env.hash (plaintext random secret))) [
    | inl q ↦ ground (arith, h, k, q)
    | inr (hash, q) ↦ ground (
      arith,
      h,
      k,
      q,
      store-is_revoked env (new_key env p in_ now (key_prefix random) hash)
          (plaintext random secret) prefix table h,
    )
  ]
]

serve-is_revoked :
    (r : KeyRequest) (prefix : List ℕ) (table : List ApiKey)
    → is_revoked prefix table ≡ true
    → is_revoked prefix (serve r table) ≡ true
unfolding serve create_key store_key revoke_key authenticate_api_key
serve-is_revoked (creating env p in_ now) prefix table h =
    create-is_revoked env p in_ now prefix table h
serve-is_revoked (revoking commits user_id key_id now) prefix table h = ground (
  arith,
  h,
  update-is_revoked (revoked now) key_id prefix table (λ k. unfold revoked in (ground arith))
      (λ k h. unfold revoked in (ground (arith, h))),
)
serve-is_revoked (authenticating verify faults now raw users) prefix table h =
    elim (Result-cases (resolve_key verify faults now raw users table)) [
      | inr (e, k) ↦ ground (arith, h, k)
      | inl (found, k) ↦ ground (
        arith,
        h,
        k,
        update-is_revoked (touched now) found.0.id prefix table (λ z. unfold touched in refl)
            (λ z h'. unfold touched in h'),
      )
    ]

serve_all-is_revoked :
    (rs : List KeyRequest) (prefix : List ℕ) (table : List ApiKey)
    → is_revoked prefix table ≡ true
    → is_revoked prefix (serve_all rs table) ≡ true
unfolding serve_all
serve_all-is_revoked [] prefix table h = h
serve_all-is_revoked (r ∷ rs) prefix table h =
    serve_all-is_revoked rs prefix (serve r table) (serve-is_revoked r prefix table h)

-- The key of a prefix, if there is one, comes out of its search.
found-is_revoked :
    (prefix : List ℕ) (table : List ApiKey) (k : ApiKey)
    → is_revoked prefix table ≡ true
    → get_by_prefix prefix table ≡ ok k
    → is_some k.revoked_at ≡ true
unfolding is_revoked get_by_prefix
found-is_revoked prefix [] k h e = cc
found-is_revoked prefix (x ∷ xs) k h e = ground (arith, found-is_revoked prefix xs k)

revoke-is_revoked :
    (now id : ℕ) (prefix : List ℕ) (table : List ApiKey) (k : ApiKey)
    → get_by_prefix prefix table ≡ ok k
    → k.id ≡ id
    → is_revoked prefix (update_key (revoked now) id table) ≡ true
unfolding is_revoked get_by_prefix update_key revoked
revoke-is_revoked now id prefix [] k e i = cc
revoke-is_revoked now id prefix (x ∷ xs) k e i =
    ground (arith, revoke-is_revoked now id prefix xs k)

resolve-revoked :
    (verify : List ℕ → List ℕ → Bool) (faults : KeyFaults) (now : ℕ) (raw prefix : List ℕ)
    (users : List User) (table : List ApiKey)
    → split_key raw ≡ some prefix
    → is_revoked prefix table ≡ true
    → is_ok (resolve_key verify faults now raw users table) ≡ false
unfolding resolve_key usable expired
resolve-revoked verify faults now raw prefix users table s h =
    elim (Result-cases (get_by_prefix prefix table)) [
      | inr (e, k) ↦ ground (arith, s, k)
      | inl (key, k) ↦ ground (arith, s, k, found-is_revoked prefix table key h k)
    ]

authenticate-refused :
    (verify : List ℕ → List ℕ → Bool) (faults : KeyFaults) (now : ℕ) (raw : List ℕ)
    (users : List User) (table : List ApiKey)
    → is_ok (resolve_key verify faults now raw users table) ≡ false
    → is_ok (authenticate_api_key verify faults now raw users table).1 ≡ false
unfolding authenticate_api_key
authenticate-refused verify faults now raw users table h =
    elim (Result-cases (resolve_key verify faults now raw users table)) [
      | inl (found, k) ↦ absurd (ground (arith, h, k))
      | inr (e, k) ↦ ground (arith, k)
    ]

revoke-table :
    (user_id key_id now : ℕ) (table : List ApiKey)
    → (revoke_key true user_id key_id now table).1 ≡ ok tt
    → (revoke_key true user_id key_id now table).0 ≡ update_key (revoked now) key_id table
unfolding revoke_key
revoke-table user_id key_id now table done = elim (Result-cases (get_key key_id table)) [
  | inl (key, k) ↦ ground (arith, k, done)
  | inr (e, k) ↦ absurd (ground (arith, k, done))
]

-- Once the owner of a key has revoked it, no text with its prefix authenticates, at any later time, after
-- whatever requests, by whomever, have created, revoked or used keys since: if the prefix and the id belong
-- to the key before.
pub revoke-final :
    (user_id key_id now later : ℕ) (table : List ApiKey) (k : ApiKey) (rs : List KeyRequest)
    (verify : List ℕ → List ℕ → Bool) (faults : KeyFaults) (raw : List ℕ) (users : List User)
    → get_by_prefix k.key_prefix table ≡ ok k
    → k.id ≡ key_id
    → (revoke_key true user_id key_id now table).1 ≡ ok tt
    → split_key raw ≡ some k.key_prefix
    → is_ok
        (authenticate_api_key verify faults later raw users
          (serve_all rs (revoke_key true user_id key_id now table).0)).1
      ≡ false
revoke-final user_id key_id now later table k rs verify faults raw users found i done s =
    let after : List ApiKey = (revoke_key true user_id key_id now table).0 in
    let gone : is_revoked k.key_prefix after ≡ true =
      subst (λ z. is_revoked k.key_prefix z ≡ true)
        (sym (revoke-table user_id key_id now table done))
        (revoke-is_revoked now key_id k.key_prefix table k found i) in
    authenticate-refused verify faults later raw users (serve_all rs after) (
      resolve-revoked verify faults later raw k.key_prefix users (serve_all rs after) s
        (serve_all-is_revoked rs k.key_prefix after gone))
