-- ===== src/Cache/Shared.antt =====
-- What the key of the cache leaves out (internal/api/cache.go, internal/api/router.go).
use forecastiq.Prelude.{ℕ, ◌+◌, ◌≤◌, ◌<◌, ◌≡◌, refl, [], some, List, arith, sym, subst}
use forecastiq.CacheKey.{Request, canonical, cache_key}
use forecastiq.Cache.{
  CacheEntry, HandlerResponse, Turn, get, put, new_entry, conditional, miss, serve,
}
use forecastiq.Cache.Bounded.{run, put-get}

-- The same method, template and query give the same key, whatever the path's parameters.
pub cache_key_same :
    (digest : List ℕ → ℕ) (r r' : Request)
    → r'.method ≡ r.method
    → r'.full_path ≡ r.full_path
    → r'.query ≡ r.query
    → cache_key digest r' ≡ cache_key digest r
unfolding cache_key canonical
cache_key_same digest r r' m p q = rw m (rw p (rw q refl))

module _ (etag_of : List ℕ → List ℕ) (digest : List ℕ → ℕ) (handler : ℕ → Request → HandlerResponse)
    (default_content_type cap : ℕ) (max_age : List ℕ → ℕ) where
  miss-put :
      (t : Turn) (es : List CacheEntry)
      → (handler t.handled_at t.request).status ≡ 200
      → (miss etag_of digest handler default_content_type cap max_age t es).0
        ≡ put cap
            (new_entry etag_of digest handler default_content_type cap max_age t
              (handler t.handled_at t.request))
            es
  unfolding miss
  miss-put t es fine = ground (arith, fine)

  serve_hit :
      (t : Turn) (e : CacheEntry) (es : List CacheEntry)
      → (get t.looked_up_at (cache_key digest t.request) es).1 ≡ some e
      → (serve etag_of digest handler default_content_type cap max_age t es).1
        ≡ conditional (max_age t.request.full_path) t.request e.body e.etag
  unfolding serve
  serve_hit t e es found = ground (arith, found)

  -- A request that comes after a miss of the same method, template and query, and within its age limit, gets
  -- the body that the handler gave to that one, though its path's parameters may be others.
  pub serve-shared :
      (t t' : Turn) (es : List CacheEntry)
      → (handler t.handled_at t.request).status ≡ 200
      → t'.request.method ≡ t.request.method
      → t'.request.full_path ≡ t.request.full_path
      → t'.request.query ≡ t.request.query
      → t'.looked_up_at ≤ t.stored_at + max_age t.request.full_path
      → 0 < cap
      → let after = miss etag_of digest handler default_content_type cap max_age t es in
        let body = (handler t.handled_at t.request).body in
        (serve etag_of digest handler default_content_type cap max_age t' after.0).1
        ≡ conditional (max_age t'.request.full_path) t'.request body (etag_of body)
  unfolding run new_entry
  serve-shared t t' es fine m p q live room =
      let e =
        new_entry etag_of digest handler default_content_type cap max_age t
          (handler t.handled_at t.request) in
      let found : (get t'.looked_up_at e.key (put cap e es)).1 ≡ some e =
        put-get cap t'.looked_up_at e [] es room tt live in
      rw (miss-put t es fine) (
        serve_hit t' e (put cap e es) (
          subst (λ k. (get t'.looked_up_at k (put cap e es)).1 ≡ some e)
            (sym (cache_key_same digest t.request t'.request m p q)) found))
