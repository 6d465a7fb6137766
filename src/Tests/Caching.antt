-- ===== src/Tests/Caching.antt =====
-- The cache of responses at concrete inputs.
use forecastiq.Prelude.{length, map, refl, ℕ, ◌≡◌, some, none, List, [], ◌∷◌, arith}
use forecastiq.Cache.{
  CacheEntry, HandlerResponse, get, put, Turn, serve, find, miss, conditional, if_none_match, evict,
  new_entry,
}
use forecastiq.Cache.Bounded.{putting, run, put-get}
use forecastiq.CacheKey.{Request, cache_key, canonical, write_query, sort_pairs}
use forecastiq.Cache.Fresh.{serve_all}

abbrev entry : CacheEntry
entry = record { key = 1; body = 7 ∷ []; etag = 8 ∷ []; content_type = 0; expires_at = 100 }

abbrev other : CacheEntry
other = record entry { key = 2 }

put-get_example : (get 90 1 (run 2 (putting other ∷ []) (put 2 entry (other ∷ [])))).1 ≡ some entry
put-get_example =
    put-get 2 90 entry (putting other ∷ []) (other ∷ []) (omega arith)
      (λ e. absurd (ground (arith, e)), tt) (omega arith)

abbrev etag_of : List ℕ → List ℕ
etag_of body = 34 ∷ body

-- "GET" and "/locations/:id"
abbrev get_method : List ℕ
get_method = b'G' ∷ b'E' ∷ b'T' ∷ []

abbrev location_path : List ℕ
location_path = b'/' ∷ b'l' ∷ b'/' ∷ b':' ∷ b'i' ∷ b'd' ∷ []

-- The hash is the length of the text here, and the handler shows the id that it is asked for.
abbrev digest : List ℕ → ℕ
digest = length

abbrev shown : List (List ℕ) → List ℕ
shown [] = []
shown (p ∷ ps) = p

abbrev handler : ℕ → Request → HandlerResponse
handler now r = record { status = 200; body = shown r.params; content_type = none }

abbrev location : ℕ → Request
location id = record {
  method = get_method;
  full_path = location_path;
  params = (id ∷ []) ∷ [];
  query = [];
  if_none_match = [];
}

abbrev max_age : List ℕ → ℕ
max_age path = 300

abbrev turns : List Turn
turns =
    record { request = location 1; looked_up_at = 10; handled_at = 11; stored_at = 12 }
    ∷ record { request = location 2; looked_up_at = 50; handled_at = 51; stored_at = 52 }
    ∷ record { request = location 1; looked_up_at = 400; handled_at = 401; stored_at = 402 }
    ∷ []

-- The location 2 is answered with the body of the location 1.
shares :
    map (λ x. x.2.body) (serve_all etag_of digest handler 0 4 max_age [] turns [])
    ≡ (1 ∷ []) ∷ (1 ∷ []) ∷ (1 ∷ []) ∷ []
unfolding serve_all serve get find miss conditional put if_none_match evict new_entry cache_key
    canonical write_query sort_pairs
shares = refl
