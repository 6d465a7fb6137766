-- ===== src/Cache/Fresh.antt =====
-- What the middleware sends comes from the handler, and is not older than its age limit
-- (internal/api/cache.go).
use forecastiq.Prelude.{
  Among, All-All, ℕ, zero, suc, ◌+◌, ◌≤◌, ◌≡◌, ◌≢◌, refl, inl, inr, ◌⊎◌, none, some, List, [], ◌∷◌,
  ltb, ◌==◌, if_elim, is_some, length, All, arith, Bool-cases, Option-cases, sym, subst, ap, ◌∙◌,
}
use forecastiq.CacheKey.{Request, cache_key}
use forecastiq.Cache.{
  CacheEntry, find, remove, get, drop_last, evict, put, HandlerResponse, Sent, Turn, no_store,
  new_entry, conditional, miss, serve,
}

module _ (P : CacheEntry → Type 0) where
  All-remove : (key : ℕ) (es : List CacheEntry) → All P es → All P (remove key es)
  unfolding remove
  All-remove key [] a = tt
  All-remove key (e ∷ es) (p, ps) = elim (Bool-cases (e.key == key)) [
    | inl k ↦ rw k (All-remove key es ps)
    | inr k ↦ rw k (p, All-remove key es ps)
  ]

  All-drop_last : (es : List CacheEntry) → All P es → All P (drop_last es)
  unfolding drop_last
  All-drop_last [] a = tt
  All-drop_last (e ∷ []) a = tt
  All-drop_last (e ∷ (x ∷ xs)) (p, ps) = (p, All-drop_last (x ∷ xs) ps)

  All-evict : (fuel cap : ℕ) (es : List CacheEntry) → All P es → All P (evict fuel cap es)
  unfolding evict
  All-evict zero cap es a = a
  All-evict (suc fuel) cap es a =
      if_elim (All P) (ltb cap (length es)) _ _
        (λ _. All-evict fuel cap (drop_last es) (All-drop_last es a)) (λ _. a)

  All-put :
      (cap : ℕ) (e : CacheEntry) (es : List CacheEntry) → P e → All P es → All P (put cap e es)
  unfolding put
  All-put cap e es p a =
      if_elim (All P) (is_some (find e.key es)) _ _ (λ _. (p, All-remove e.key es a))
        (λ _. All-evict (length es + 1) cap (e ∷ es) (p, a))

  All-find :
      (key : ℕ) (es : List CacheEntry) (e : CacheEntry) → All P es → find key es ≡ some e → P e
  unfolding find
  All-find key [] e a h = cc
  All-find key (x ∷ xs) e (p, ps) h = elim (Bool-cases (x.key == key)) [
    | inl k ↦ subst P (ground (arith, h, k)) p
    | inr k ↦ All-find key xs e ps (ground (arith, h, k))
  ]

find-key : (key : ℕ) (es : List CacheEntry) (x : CacheEntry) → find key es ≡ some x → x.key ≡ key
unfolding find
find-key key [] x h = cc
find-key key (y ∷ ys) x h = ground (arith, find-key key ys x)

module _ (etag_of : List ℕ → List ℕ) (digest : List ℕ → ℕ) (handler : ℕ → Request → HandlerResponse)
    (default_content_type cap : ℕ) (max_age : List ℕ → ℕ) where
  -- The entry holds a body that the handler gave with 200 to a request of the log with the same key, until the
  -- age limit of that request's route has passed.
  abbrev pub IsOfHandler : List Turn → CacheEntry → Type 0
  IsOfHandler log e =
      (t : Turn) × Among t log
      × (cache_key digest t.request ≡ e.key)
      × (e.expires_at ≡ t.stored_at + max_age t.request.full_path)
      × ((handler t.handled_at t.request).status ≡ 200)
      × (e.body ≡ (handler t.handled_at t.request).body)
      × (e.etag ≡ etag_of e.body)

  -- What the middleware sends for a body: with its tag, and left out by 304 if the client has the tag.
  abbrev pub sent : Request → List ℕ → Sent
  sent req body = conditional (max_age req.full_path) req body (etag_of body)

  abbrev pub IsPassedOn : Turn → Sent → Type 0
  IsPassedOn t s =
      ((handler t.handled_at t.request).status ≢ 200)
      × (s ≡ record {
        status = (handler t.handled_at t.request).status;
        body = (handler t.handled_at t.request).body;
        etag = none;
        cache_control = no_store;
      })

  abbrev pub IsOwn : Turn → Sent → Type 0
  IsOwn t s =
      ((handler t.handled_at t.request).status ≡ 200)
      × (s ≡ sent t.request (handler t.handled_at t.request).body)

  abbrev pub IsStored : List Turn → Turn → Sent → Type 0
  IsStored log t s =
      (old : Turn) × Among old log
      × (cache_key digest old.request ≡ cache_key digest t.request)
      × (t.looked_up_at ≤ old.stored_at + max_age old.request.full_path)
      × ((handler old.handled_at old.request).status ≡ 200)
      × (s ≡ sent t.request (handler old.handled_at old.request).body)

  abbrev pub IsAnswer : List Turn → Turn → Sent → Type 0
  IsAnswer log t s = IsPassedOn t s ⊎ IsOwn t s ⊎ IsStored log t s

  abbrev answer : Turn → List CacheEntry → List CacheEntry × Sent
  answer t es = serve etag_of digest handler default_content_type cap max_age t es

  abbrev missed : Turn → List CacheEntry → List CacheEntry × Sent
  missed t es = miss etag_of digest handler default_content_type cap max_age t es

  abbrev IsGood : List Turn → Turn → List CacheEntry × Sent → Type 0
  IsGood log t x = All (IsOfHandler (t ∷ log)) x.0 × IsAnswer log t x.1

  IsOfHandler-later :
      (t : Turn) (log : List Turn) (e : CacheEntry) → IsOfHandler log e → IsOfHandler (t ∷ log) e
  IsOfHandler-later t log e (old, logged, k, u, f, b, tag) = (old, inr logged, k, u, f, b, tag)

  All-later :
      (t : Turn) (log : List Turn) (es : List CacheEntry)
      → All (IsOfHandler log) es
      → All (IsOfHandler (t ∷ log)) es
  All-later t log = All-All (IsOfHandler-later t log)

  miss-Answer :
      (log : List Turn) (t : Turn) (es : List CacheEntry)
      → All (IsOfHandler log) es
      → IsGood log t (missed t es)
  unfolding miss new_entry
  miss-Answer log t es a =
      if_elim (IsGood log t) ((handler t.handled_at t.request).status == 200) _ _
        (λ h. (
          All-put (IsOfHandler (t ∷ log)) cap _ es
              (t, inl refl, refl, refl, ground (arith, h), refl, refl) (All-later t log es a),
          inr (inl (ground (arith, h), refl)),
        ))
        (λ h. (All-later t log es a, inl (ground (arith, h), refl)))

  hit-Answer :
      (log : List Turn) (t : Turn) (e : CacheEntry)
      → IsOfHandler log e
      → e.key ≡ cache_key digest t.request
      → t.looked_up_at ≤ e.expires_at
      → IsAnswer log t (conditional (max_age t.request.full_path) t.request e.body e.etag)
  hit-Answer log t e (old, logged, key, until, fine, body, tag) same live = inr (
      inr (
        old,
        logged,
        key ∙ same,
        subst (λ z. t.looked_up_at ≤ z) until live,
        fine,
        ap (λ z. conditional (max_age t.request.full_path) t.request e.body z) tag
            ∙ ap (sent t.request) body,
      ))

  -- One request keeps what the cache holds to the handler, and is answered so.
  pub serve-Answer :
      (log : List Turn) (t : Turn) (es : List CacheEntry)
      → All (IsOfHandler log) es
      → IsGood log t (answer t es)
  unfolding serve get
  serve-Answer log t es a = elim (Option-cases (find (cache_key digest t.request) es)) [
    | inl k ↦
        let same : answer t es ≡ missed t es = ground (arith, k) in
        subst (IsGood log t) (sym same) (miss-Answer log t es a)
    | inr (e, k) ↦
        let others = remove (cache_key digest t.request) es in
        let kept = All-remove (IsOfHandler log) (cache_key digest t.request) es a in
        elim (Bool-cases (ltb e.expires_at t.looked_up_at)) [
          | inl old ↦
              let same : answer t es ≡ missed t others = ground (arith, k, old) in
              subst (IsGood log t) (sym same) (miss-Answer log t others kept)
          | inr live ↦
              let same : answer t es ≡ (
                e ∷ others,
                conditional (max_age t.request.full_path) t.request e.body e.etag,
              ) =
                ground (arith, k, live) in
              let of_handler = All-find (IsOfHandler log) (cache_key digest t.request) es e a k in
              subst (IsGood log t) (sym same) (
                All-later t log (e ∷ others) (of_handler, kept),
                hit-Answer log t e of_handler (find-key (cache_key digest t.request) es e k)
                    (ground (arith, live)),
              )
        ]
  ]

  -- The requests of a server, each with those before it and its answer.
  unfoldable pub serve_all :
      List Turn → List Turn → List CacheEntry → List (List Turn × Turn × Sent)
  serve_all log [] es = []
  serve_all log (t ∷ rest) es = (log, t, (answer t es).1) ∷ serve_all (t ∷ log) rest (answer t es).0
