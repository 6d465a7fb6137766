-- ===== src/CacheKey.antt =====
-- The key of a response in the cache: `cacheKey` of internal/api/cache.go. A text is its list of bytes; the
-- hash and its hexadecimal form are an argument of the definitions that use the canonical text.
use forecastiq.Prelude.{
  ℕ, Bool, true, false, ◌||◌, ◌&&◌, List, [], ◌∷◌, ◌++◌, ltb, ◌==◌, if◌then◌else◌,
}

-- What the middleware and a handler read of a request. `full_path` is the template of the route, such as
-- `/api/v1/locations/:id`, and `params` are the values of its parameters; `query` is the map of the query.
pub record Request : Type 0 where
  pub method : List ℕ
  pub full_path : List ℕ
  pub params : List (List ℕ)
  pub query : List (List ℕ × List (List ℕ))
  pub if_none_match : List ℕ

-- The order of Go's strings.
unfoldable pub text_le : List ℕ → List ℕ → Bool
text_le [] t = true
text_le (c ∷ cs) [] = false
text_le (c ∷ cs) (d ∷ ds) = ltb c d || ((c == d) && text_le cs ds)

unfoldable pub insert_text : List ℕ → List (List ℕ) → List (List ℕ)
insert_text s [] = s ∷ []
insert_text s (t ∷ ts) =
    let rest = insert_text s ts in if text_le s t then s ∷ (t ∷ ts) else t ∷ rest

-- `sort.Strings`
unfoldable pub sort_texts : List (List ℕ) → List (List ℕ)
sort_texts [] = []
sort_texts (s ∷ ss) = insert_text s (sort_texts ss)

unfoldable pub insert_pair :
    List ℕ × List (List ℕ) → List (List ℕ × List (List ℕ)) → List (List ℕ × List (List ℕ))
insert_pair p [] = p ∷ []
insert_pair p (q ∷ qs) =
    let rest = insert_pair p qs in if text_le p.0 q.0 then p ∷ (q ∷ qs) else q ∷ rest

-- The entries of the map, whose keys differ, in the order of the keys.
unfoldable pub sort_pairs : List (List ℕ × List (List ℕ)) → List (List ℕ × List (List ℕ))
sort_pairs [] = []
sort_pairs (p ∷ ps) = insert_pair p (sort_pairs ps)

-- "k=v&" for each value.
unfoldable pub write_values : List ℕ → List (List ℕ) → List ℕ
write_values k [] = []
write_values k (v ∷ vs) = k ++ (b'=' ∷ v) ++ (b'&' ∷ write_values k vs)

unfoldable pub write_query : List (List ℕ × List (List ℕ)) → List ℕ
write_query [] = []
write_query ((k, vs) ∷ ps) = write_values k (sort_texts vs) ++ write_query ps

abbrev pub newline : ℕ
newline = 10

-- The text that is hashed. The values of the path's parameters are no part of it.
unfoldable pub canonical : Request → (auth_class : List ℕ) → List ℕ
canonical r auth_class =
    r.method
    ++ (newline ∷ r.full_path)
    ++ (newline ∷ write_query (sort_pairs r.query))
    ++ (newline ∷ auth_class)

-- "public"
abbrev pub public : List ℕ
public = b'p' ∷ b'u' ∷ b'b' ∷ b'l' ∷ b'i' ∷ b'c' ∷ []

unfoldable pub cache_key : (digest : List ℕ → ℕ) → Request → ℕ
cache_key digest r = digest (canonical r public)
