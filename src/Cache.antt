-- ===== src/Cache.antt =====
-- The cache of responses and its middleware: internal/api/cache.go. The list is in the order of use, the
-- front the most recent, and the map that indexes it is the search by key. `etag_of`, the hash of the
-- canonical request and the handler are arguments. The lock makes `get` and `put` one step each. Metrics
-- are left out, and requests are served one after the other.
pub mod Bounded
pub mod Fresh
pub mod Shared
pub mod Seconds
use forecastiq.Prelude.{
  ℕ, zero, suc, ◌+◌, Bool, true, false, not, ◌&&◌, ◌||◌, Option, none, some, List, [], ◌∷◌, ltb,
  leb, ◌==◌, if◌then◌else◌, is_some, length,
}
use mathlib.Core.List.{reverse}
use forecastiq.Text.{same_text, is_empty, trim_space}
use forecastiq.CacheKey.{Request, cache_key}

pub record CacheEntry : Type 0 where
  pub key : ℕ
  pub body : List ℕ
  pub etag : List ℕ
  pub content_type : ℕ
  pub expires_at : ℕ

unfoldable pub find : ℕ → List CacheEntry → Option CacheEntry
find key [] = none
find key (e ∷ es) = let rest = find key es in if e.key == key then some e else rest

unfoldable pub remove : ℕ → List CacheEntry → List CacheEntry
remove key [] = []
remove key (e ∷ es) = let rest = remove key es in if e.key == key then rest else e ∷ rest

-- `get` at the instant `now`: an expired entry goes, a live one moves to the front.
unfoldable pub get : ℕ → ℕ → List CacheEntry → List CacheEntry × Option CacheEntry
get now key es = elim (find key es) [
  | none ↦ (es, none)
  | some e ↦ if ltb e.expires_at now then (remove key es, none) else (e ∷ remove key es, some e)
]

-- The entries but the last.
unfoldable pub drop_last : List CacheEntry → List CacheEntry
drop_last [] = []
drop_last (e ∷ es) = let rest = drop_last es in elim es [ [] ↦ [] | _ ∷ _ ↦ e ∷ rest ]

-- The loop of `put`, with a round for each entry that it may take out.
unfoldable pub evict : ℕ → ℕ → List CacheEntry → List CacheEntry
evict zero cap es = es
evict (suc fuel) cap es =
    let rest = evict fuel cap (drop_last es) in if ltb cap (length es) then rest else es

unfoldable pub put : ℕ → CacheEntry → List CacheEntry → List CacheEntry
put cap e es =
    if is_some (find e.key es) then e ∷ remove e.key es else evict (length es + 1) cap (e ∷ es)

abbrev pub lru_capacity : ℕ
lru_capacity = 256

-- A capacity that is not positive is 0.
unfoldable pub capacity : ℕ → ℕ
capacity n = if n == 0 then lru_capacity else n

-- `strings.TrimPrefix(tok, "W/")`
unfoldable pub trim_weak : List ℕ → List ℕ
trim_weak [] = []
trim_weak (c ∷ []) = c ∷ []
trim_weak (c ∷ (d ∷ cs)) = if (c == b'W') && (d == b'/') then cs else c ∷ (d ∷ cs)

unfoldable pub token_matches : List ℕ → List ℕ → Bool
token_matches etag tok =
    let t = trim_weak (trim_space tok) in same_text t (b'*' ∷ []) || same_text t etag

-- The tokens between the commas, from the bytes of the current one.
unfoldable pub any_token : List ℕ → List ℕ → List ℕ → Bool
any_token etag current [] = token_matches etag (reverse current)
any_token etag current (c ∷ cs) =
    let next = token_matches etag (reverse current) || any_token etag [] cs in
    let more = any_token etag (c ∷ current) cs in if c == b',' then next else more

unfoldable pub if_none_match : List ℕ → List ℕ → Bool
if_none_match header etag = if is_empty header then false else any_token etag [] header

-- A handler's response, and what the middleware sends.
pub record HandlerResponse : Type 0 where
  pub status : ℕ
  pub body : List ℕ
  pub content_type : Option ℕ

-- `public, max-age=` with the age limit, or `no-store`.
pub data CacheControl : Type 0 where
  public_max_age : ℕ → CacheControl
  no_store : CacheControl

pub record Sent : Type 0 where
  pub status : ℕ
  pub body : List ℕ
  pub etag : Option (List ℕ)
  pub cache_control : CacheControl

-- A request with the instants of its lookup, of its handler, and of the clock's reading after the handler.
pub record Turn : Type 0 where
  pub request : Request
  pub looked_up_at : ℕ
  pub handled_at : ℕ
  pub stored_at : ℕ

-- 304 with no body, or 200 with the body.
unfoldable pub conditional : (max_age : ℕ) → Request → (body etag : List ℕ) → Sent
conditional max_age req body etag =
    if if_none_match req.if_none_match etag
    then record {
      status = 304;
      body = [];
      etag = some etag;
      cache_control = public_max_age max_age;
    }
    else record {
      status = 200;
      body = body;
      etag = some etag;
      cache_control = public_max_age max_age;
    }

-- The age limit is that of the route's middleware. The handler reads the whole request.
module _ (etag_of : List ℕ → List ℕ) (digest : List ℕ → ℕ) (handler : ℕ → Request → HandlerResponse)
    (default_content_type cap : ℕ) (max_age : List ℕ → ℕ) where
  unfoldable pub new_entry : Turn → HandlerResponse → CacheEntry
  new_entry t r = record {
    key = cache_key digest t.request;
    body = r.body;
    etag = etag_of r.body;
    content_type = elim r.content_type [ none ↦ default_content_type | some c ↦ c ];
    expires_at = t.stored_at + max_age t.request.full_path;
  }

  unfoldable pub miss : Turn → List CacheEntry → List CacheEntry × Sent
  miss t es =
      let r = handler t.handled_at t.request in
      if r.status == 200
      then (
        put cap (new_entry t r) es,
        conditional (max_age t.request.full_path) t.request r.body (etag_of r.body),
      )
      else (es, record { status = r.status; body = r.body; etag = none; cache_control = no_store })

  -- `Cache` for one request.
  unfoldable pub serve : Turn → List CacheEntry → List CacheEntry × Sent
  serve t es =
      let (es', found) = get t.looked_up_at (cache_key digest t.request) es in
      elim found [
        | none ↦ miss t es'
        | some e ↦ (es', conditional (max_age t.request.full_path) t.request e.body e.etag)
      ]
