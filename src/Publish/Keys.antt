-- ===== src/Publish/Keys.antt =====
-- New rows that have one key each, read off the list of their keys.
use forecastiq.Prelude.{ℕ, ◌+◌, ◌≡◌, refl, Bool, false, ◌||◌, none, List, [], ◌∷◌, map, arith}
use forecastiq.Publish.{Version, at_key}
use forecastiq.Publish.Live.{IsKeyed}

-- Rows with the ids from a position on.
unfoldable pub number : {V : Type 0} → (ℕ → ℕ) → ℕ → List V → List (Version V)
number new_id i [] = []
number new_id i (v ∷ vs) =
    record { id = new_id i; value = v; superseded_by = none } ∷ number new_id (i + 1) vs

module _ {K : Type 0} (same_key : K → K → Bool) where
  unfoldable pub has_key : K → List K → Bool
  has_key k [] = false
  has_key k (x ∷ xs) = same_key k x || has_key k xs

  abbrev pub Distinct : List K → Type 0
  Distinct [] = Unit {0}
  Distinct (k ∷ ks) = (has_key k ks ≡ false) × Distinct ks

  module _ {V : Type 0} (key_of : V → K) (new_id : ℕ → ℕ) where
    pub at_key-number-none :
        (k : K) (i : ℕ) (vs : List V)
        → has_key k (map key_of vs) ≡ false
        → at_key same_key key_of k (number new_id i vs) ≡ none
    unfolding at_key number has_key
    at_key-number-none k i [] h = refl
    at_key-number-none k i (v ∷ vs) h =
        ground (arith, h, at_key-number-none k (i + 1) vs (ground (arith, h)))

    pub number-IsKeyed :
        (i : ℕ) (vs : List V)
        → Distinct (map key_of vs)
        → IsKeyed same_key key_of (number new_id i vs)
    unfolding number
    number-IsKeyed i [] d = tt
    number-IsKeyed i (v ∷ vs) (first, d) =
        (at_key-number-none (key_of v) (i + 1) vs first, number-IsKeyed (i + 1) vs d)
