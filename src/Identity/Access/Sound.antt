-- ===== src/Identity/Access/Sound.antt =====
-- Who gets past the guards of the routes (internal/api/middleware.go).
use forecastiq.Prelude.{
  Among, ℕ, ◌≡◌, refl, inl, inr, ◌⊎◌, true, some, List, [], ◌∷◌, ◌==◌, Result, ok, err,
  Result-cases, Bool-cases, Option-cases, arith, subst, sym, ap, ◌∙◌, false,
}
use forecastiq.Text.{same_text, has_prefix, is_empty, trim_space, without}
use forecastiq.Identity.{
  User, Principal, jwt, api_key, IdentityError, Claims, is_active, get_by_id, get_by_auth_subject,
  insert_user, conflicts, provisioned, provision, resolve_or_provision, log_in, authenticate,
}
use forecastiq.Identity.Credential.{split_key}
use forecastiq.Identity.Keys.{
  ApiKey, authenticate_api_key, resolve_key, usable, get_by_prefix, principal_of,
}
use forecastiq.Identity.Access.{
  Headers, Tables, World, to_option, by_key, by_token, resolve, Gate, passes, access, bearer,
}

get_by_id-Among : (id : ℕ) (us : List User) (u : User) → get_by_id id us ≡ ok u → Among u us
unfolding get_by_id
get_by_id-Among id [] u e = cc
get_by_id-Among id (x ∷ xs) u e = elim (Bool-cases (x.id == id)) [
  | inl h ↦ inl (ground (arith, h, e))
  | inr h ↦ inr (get_by_id-Among id xs u (ground (arith, h, e)))
]

get_by_auth_subject-Among :
    (subject : ℕ) (us : List User) (u : User) → get_by_auth_subject subject us ≡ ok u → Among u us
unfolding get_by_auth_subject
get_by_auth_subject-Among subject [] u e = cc
get_by_auth_subject-Among subject (x ∷ xs) u e = elim (Bool-cases (x.auth_subject == subject)) [
  | inl h ↦ inl (ground (arith, h, e))
  | inr h ↦ inr (get_by_auth_subject-Among subject xs u (ground (arith, h, e)))
]

get_by_id-id : (id : ℕ) (us : List User) (u : User) → get_by_id id us ≡ ok u → id ≡ u.id
unfolding get_by_id
get_by_id-id id [] u e = cc
get_by_id-id id (x ∷ xs) u e = ground (arith, get_by_id-id id xs u)

get_by_auth_subject-auth_subject :
    (subject : ℕ) (us : List User) (u : User)
    → get_by_auth_subject subject us ≡ ok u
    → u.auth_subject ≡ subject
unfolding get_by_auth_subject
get_by_auth_subject-auth_subject subject [] u e = cc
get_by_auth_subject-auth_subject subject (x ∷ xs) u e =
    ground (arith, get_by_auth_subject-auth_subject subject xs u)

get_by_prefix-Among :
    (prefix : List ℕ) (ks : List ApiKey) (k : ApiKey) → get_by_prefix prefix ks ≡ ok k → Among k ks
unfolding get_by_prefix
get_by_prefix-Among prefix [] k e = cc
get_by_prefix-Among prefix (x ∷ xs) k e = elim (Bool-cases (same_text x.key_prefix prefix)) [
  | inl h ↦ inl (ground (arith, h, e))
  | inr h ↦ inr (get_by_prefix-Among prefix xs k (ground (arith, h, e)))
]

-- The texts that `resolve` takes from the headers.
abbrev pub key_text : Headers → List ℕ
key_text h = trim_space h.x_api_key

abbrev pub token_text : Headers → List ℕ
token_text h = trim_space (without bearer h.authorization)

module _ (w : World) (h : Headers) (t : Tables) where
  -- A user of the table, one that another request has committed meanwhile, or one that this request has
  -- provisioned.
  abbrev pub IsKnown : User → Type 0
  IsKnown u =
      Among u t.users
      ⊎ Among u (w.provisioning.others t.users)
      ⊎ ((claims : Claims) × (u ≡ provisioned w.provisioning claims))

  -- The request has no key, and a bearer token that the verifier accepts, for the subject of the user.
  abbrev pub HasToken : User → Principal → Type 0
  HasToken u p =
      (p.method ≡ jwt)
      × (is_empty (key_text h) ≡ true)
      × (has_prefix bearer h.authorization ≡ true)
      × ((claims : Claims) × (w.claims_of (token_text h) ≡ ok claims)
          × (u.auth_subject ≡ claims.subject))

  -- The request has a key whose hash is in the table: of the user, neither revoked nor expired, and with
  -- these scopes.
  abbrev pub HasKey : User → Principal → Type 0
  HasKey u p =
      (p.method ≡ api_key)
      × (is_empty (key_text h) ≡ false)
      × ((k : ApiKey) × Among k t.keys
          × (w.verify (key_text h) k.key_hash ≡ true)
          × (usable k w.now ≡ true)
          × (k.user_id ≡ u.id)
          × (p.scopes ≡ k.scopes))

  abbrev pub IsVouched : Principal → Type 0
  IsVouched p =
      (u : User) × IsKnown u
      × (is_active u.status ≡ true)
      × (p.user_id ≡ u.id)
      × (p.role ≡ u.role)
      × (HasToken u p ⊎ HasKey u p)

  resolve_key-inverse :
      (raw : List ℕ) (k : ApiKey) (u : User)
      → resolve_key w.verify w.key_faults w.now raw t.users t.keys ≡ ok (k, u)
      → Among k t.keys
        × (w.verify raw k.key_hash ≡ true)
        × (usable k w.now ≡ true)
        × (k.user_id ≡ u.id)
        × Among u t.users
        × (is_active u.status ≡ true)
  unfolding resolve_key
  resolve_key-inverse raw k u e = elim (Option-cases (split_key raw)) [
    | inl q ↦ absurd (ground (arith, e, q))
    | inr (prefix, q) ↦ elim (Result-cases (get_by_prefix prefix t.keys)) [
      | inr (x, r) ↦ absurd (ground (arith, e, q, r))
      | inl (k', r) ↦ elim (Result-cases (get_by_id k'.user_id t.users)) [
        | inr (x, v) ↦ absurd (ground (arith, e, q, r, v))
        | inl (u', v) ↦
            let same : k' ≡ k = ground (arith, e, q, r, v) in
            let same' : u' ≡ u = ground (arith, e, q, r, v) in
            (
              subst (λ z. Among z t.keys) same (get_by_prefix-Among prefix t.keys k' r),
              ground (arith, e, q, r, v),
              ground (arith, e, q, r, v),
              ap (λ z. z.user_id) (sym same)
                  ∙ get_by_id-id k'.user_id t.users u' v
                  ∙ ap (λ z. z.id) same',
              subst (λ z. Among z t.users) same' (get_by_id-Among k'.user_id t.users u' v),
              ground (arith, e, q, r, v),
            )
      ]
    ]
  ]

  by_key-IsVouched :
      (p : Principal)
      → is_empty (key_text h) ≡ false
      → (by_key w (key_text h) t).1 ≡ some p
      → IsVouched p
  unfolding by_key authenticate_api_key
  by_key-IsVouched p given e =
      elim (Result-cases (resolve_key w.verify w.key_faults w.now (key_text h) t.users t.keys)) [
        | inr (x, q) ↦ absurd (ground (arith, e, q))
        | inl ((k, u), q) ↦
            let (listed, verified, good, owned, among, act) =
              resolve_key-inverse (key_text h) k u q in
            let same : principal_of w.verify (k, u) ≡ p = ground (arith, e, q) in
            subst IsVouched same (
              u,
              inl among,
              act,
              refl,
              refl,
              inr (refl, given, (k, listed, verified, good, owned, refl)),
            )
      ]

  resolve_or_provision-IsKnown :
      (claims : Claims) (u : User)
      → (resolve_or_provision w.provisioning claims t.users).1 ≡ ok u
      → IsKnown u × (u.auth_subject ≡ claims.subject)
  unfolding resolve_or_provision provision insert_user provisioned
  resolve_or_provision-IsKnown claims u e =
      elim (Result-cases (get_by_auth_subject claims.subject t.users)) [
        | inl (found, q) ↦
            let same : found ≡ u = ground (arith, e, q) in
            (
              inl (
                  subst (λ z. Among z t.users) same
                    (get_by_auth_subject-Among claims.subject t.users found q)),
              ap (λ z. z.auth_subject) (sym same)
                  ∙ get_by_auth_subject-auth_subject claims.subject t.users found q,
            )
        | inr (x, q) ↦
            elim (Bool-cases
              (conflicts (provisioned w.provisioning claims) (w.provisioning.others t.users))) [
                | inr new ↦
                    let same : u ≡ provisioned w.provisioning claims = ground (arith, e, q, new) in
                    (inr (inr (claims, same)), ap (λ z. z.auth_subject) same)
                | inl lost ↦
                    let again : get_by_auth_subject claims.subject (w.provisioning.others t.users)
                        ≡ ok u =
                      ground (arith, e, q, lost) in
                    let us = w.provisioning.others t.users in
                    (
                      inr (inl (get_by_auth_subject-Among claims.subject us u again)),
                      get_by_auth_subject-auth_subject claims.subject us u again,
                    )
              ]
      ]

  log_in-IsVouched :
      (r : List User × Result IdentityError User) (p : Principal) (claims : Claims)
      → is_empty (key_text h) ≡ true
      → has_prefix bearer h.authorization ≡ true
      → w.claims_of (token_text h) ≡ ok claims
      → ((u : User) → r.1 ≡ ok u → IsKnown u × (u.auth_subject ≡ claims.subject))
      → to_option (log_in w.provisioning w.now r).1 ≡ some p
      → IsVouched p
  unfolding log_in
  log_in-IsVouched (table, err x) p claims no_key bearing verified known e = cc
  log_in-IsVouched (table, ok u) p claims no_key bearing verified known e =
      elim (Bool-cases (is_active u.status)) [
        | inr off ↦ absurd (ground (arith, e, off))
        | inl act ↦
            let same : (p.user_id ≡ u.id) × (p.role ≡ u.role) × (p.method ≡ jwt) =
              ground (arith, e, act) in
            (
              u,
              (known u refl).0,
              act,
              same.0,
              same.1,
              inl (same.2, no_key, bearing, (claims, verified, (known u refl).1)),
            )
      ]

  by_token-IsVouched :
      (p : Principal)
      → is_empty (key_text h) ≡ true
      → has_prefix bearer h.authorization ≡ true
      → (by_token w (token_text h) t).1 ≡ some p
      → IsVouched p
  unfolding by_token authenticate
  by_token-IsVouched p no_key bearing e = elim (Result-cases (w.claims_of (token_text h))) [
    | inr (x, q) ↦ absurd (ground (arith, e, q))
    | inl (claims, q) ↦
        log_in-IsVouched (resolve_or_provision w.provisioning claims t.users) p claims no_key
          bearing q (resolve_or_provision-IsKnown claims) (ground (arith, e, q))
  ]

  resolve-IsVouched : (p : Principal) → (resolve w h t).1 ≡ some p → IsVouched p
  unfolding resolve
  resolve-IsVouched p e = elim (Bool-cases (is_empty (key_text h))) [
    | inr given ↦ by_key-IsVouched p given (ground (arith, e, given))
    | inl no_key ↦ elim (Bool-cases (has_prefix bearer h.authorization)) [
      | inr bare ↦ absurd (ground (arith, e, no_key, bare))
      | inl bearing ↦ elim (Bool-cases (is_empty (token_text h))) [
        | inl blank ↦ absurd (ground (arith, e, no_key, bearing, blank))
        | inr token ↦
            by_token-IsVouched p no_key bearing (ground (arith, e, no_key, bearing, token))
      ]
    ]
  ]

-- Whoever gets past the guards of a route is an active user, of the table, of a request that committed
-- meanwhile, or provisioned by the request itself, has the role that is stored with the user and passes the
-- guard with that role and the scopes. The request has either a key, whose text the comparison of hashes
-- accepts for a key of the table that is that user's, neither revoked nor expired, and whose scopes the caller
-- gets; or no key and a bearer token that the verifier accepts, with claims for the subject of that user.
pub access-IsVouched :
    (w : World) (gate : Gate) (h : Headers) (t : Tables) (p : Principal)
    → (access w gate h t).1 ≡ ok p
    → IsVouched w h t p × (passes gate p ≡ true)
unfolding access
access-IsVouched w gate h t p e = elim (Option-cases (resolve w h t).1) [
  | inl q ↦ absurd (ground (arith, e, q))
  | inr (p', q) ↦
      let same : (p' ≡ p) × (passes gate p ≡ true) = ground (arith, e, q) in
      (resolve-IsVouched w h t p (q ∙ ap some same.0), same.1)
]
