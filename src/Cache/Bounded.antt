-- ===== src/Cache/Bounded.antt =====
-- The cache keeps to its capacity, and what was used last stays in it (internal/api/cache.go).
use forecastiq.Prelude.{
  ℕ, zero, suc, ◌+◌, ◌≤◌, ◌<◌, ◌≡◌, ◌≢◌, refl, inl, inr, ◌⊎◌, true, some, List, [], ◌∷◌, ltb, ◌==◌,
  is_some, length, All, arith, Bool-cases, Option-cases, sym, subst, ap,
}
use forecastiq.Cache.{CacheEntry, find, remove, get, drop_last, evict, put}

pub data CacheOp : Type 0 where
  getting : (now key : ℕ) → CacheOp
  putting : CacheEntry → CacheOp

abbrev pub key_of : CacheOp → ℕ
key_of (getting now key) = key
key_of (putting e) = e.key

unfoldable pub apply : ℕ → CacheOp → List CacheEntry → List CacheEntry
apply cap (getting now key) es = (get now key es).0
apply cap (putting e) es = put cap e es

unfoldable pub run : ℕ → List CacheOp → List CacheEntry → List CacheEntry
run cap [] es = es
run cap (op ∷ ops) es = run cap ops (apply cap op es)

remove-length : (key : ℕ) (es : List CacheEntry) → length (remove key es) ≤ length es
unfolding remove
remove-length key [] = omega arith
remove-length key (e ∷ es) = ground (arith, remove-length key es)

remove-length_found :
    (key : ℕ) (es : List CacheEntry)
    → is_some (find key es) ≡ true
    → length (remove key es) + 1 ≤ length es
unfolding remove find
remove-length_found key [] h = cc
remove-length_found key (e ∷ es) h =
    ground (arith, remove-length key es, remove-length_found key es)

drop_last-length : (e : CacheEntry) (es : List CacheEntry) → length (drop_last (e ∷ es)) ≡ length es
unfolding drop_last
drop_last-length e [] = refl
drop_last-length e (x ∷ xs) = omega (arith, drop_last-length x xs)

evict-length :
    (fuel cap : ℕ) (es : List CacheEntry)
    → length es ≤ fuel + cap
    → length (evict fuel cap es) ≤ cap
unfolding evict
evict-length zero cap es h = omega (arith, h)
evict-length (suc fuel) cap [] h = ground arith
evict-length (suc fuel) cap (e ∷ es) h =
    ground (arith, drop_last-length e es, evict-length fuel cap (drop_last (e ∷ es)))

apply-length :
    (cap : ℕ) (op : CacheOp) (es : List CacheEntry)
    → length es ≤ cap
    → length (apply cap op es) ≤ cap
unfolding apply get put
apply-length cap (getting now key) es h = elim (Option-cases (find key es)) [
  | inl k ↦ ground (arith, h, k)
  | inr (e, k) ↦ ground (arith, h, k, remove-length_found key es (ap is_some k))
]
apply-length cap (putting e) es h =
    ground (arith, h, remove-length_found e.key es, evict-length (length es + 1) cap (e ∷ es))

-- However a cache is used that holds no more entries than its capacity, such as an empty one, it never holds
-- more.
pub run-length :
    (cap : ℕ) (ops : List CacheOp) (es : List CacheEntry)
    → length es ≤ cap
    → length (run cap ops es) ≤ cap
unfolding run
run-length cap [] es h = h
run-length cap (op ∷ ops) es h = run-length cap ops (apply cap op es) (apply-length cap op es h)

-- The entry is the first of its key and stands among the first `n`.
abbrev IsAmong : ℕ → CacheEntry → List CacheEntry → Type 0
IsAmong n e [] = ⊥
IsAmong zero e (x ∷ xs) = ⊥
IsAmong (suc n) e (x ∷ xs) = (x ≡ e) ⊎ ((x.key ≢ e.key) × IsAmong n e xs)

IsAmong-find :
    (n : ℕ) (e : CacheEntry) (es : List CacheEntry) → IsAmong n e es → find e.key es ≡ some e
unfolding find
IsAmong-find n e [] h = elim h [ ]
IsAmong-find zero e (x ∷ xs) h = elim h [ ]
IsAmong-find (suc n) e (x ∷ xs) (inl same) =
    ground (arith, ap (λ (z : CacheEntry). z.key) same, same)
IsAmong-find (suc n) e (x ∷ xs) (inr (other, h)) = ground (arith, other, IsAmong-find n e xs h)

IsAmong-suc :
    (n : ℕ) (e : CacheEntry) (es : List CacheEntry) → IsAmong n e es → IsAmong (suc n) e es
IsAmong-suc n e [] h = elim h [ ]
IsAmong-suc zero e (x ∷ xs) h = elim h [ ]
IsAmong-suc (suc n) e (x ∷ xs) (inl same) = inl same
IsAmong-suc (suc n) e (x ∷ xs) (inr (other, h)) = inr (other, IsAmong-suc n e xs h)

IsAmong-remove :
    (n key : ℕ) (e : CacheEntry) (es : List CacheEntry)
    → key ≢ e.key
    → IsAmong n e es
    → IsAmong n e (remove key es)
unfolding remove
IsAmong-remove n key e [] d h = elim h [ ]
IsAmong-remove zero key e (x ∷ xs) d h = elim h [ ]
IsAmong-remove (suc n) key e (x ∷ xs) d (inl same) = elim (Bool-cases (x.key == key)) [
  | inl k ↦ absurd (ground (arith, k, d, ap (λ (z : CacheEntry). z.key) same))
  | inr k ↦ rw k (inl same)
]
IsAmong-remove (suc n) key e (x ∷ xs) d (inr (other, h)) = elim (Bool-cases (x.key == key)) [
  | inl k ↦ rw k (IsAmong-suc n e (remove key xs) (IsAmong-remove n key e xs d h))
  | inr k ↦ rw k (inr (other, IsAmong-remove n key e xs d h))
]

IsAmong-drop_last :
    (n : ℕ) (e x : CacheEntry) (xs : List CacheEntry)
    → n ≤ length xs
    → IsAmong n e (x ∷ xs)
    → IsAmong n e (drop_last (x ∷ xs))
unfolding drop_last
IsAmong-drop_last zero e x xs l h = elim h [ ]
IsAmong-drop_last (suc n) e x [] l h = absurd (omega (arith, l))
IsAmong-drop_last (suc n) e x (y ∷ ys) l (inl same) = inl same
IsAmong-drop_last (suc n) e x (y ∷ ys) l (inr (other, h)) =
    inr (other, IsAmong-drop_last n e y ys (omega (arith, l)) h)

IsAmong-evict :
    (fuel cap n : ℕ) (e : CacheEntry) (es : List CacheEntry)
    → n ≤ cap
    → IsAmong n e es
    → IsAmong n e (evict fuel cap es)
unfolding evict
IsAmong-evict zero cap n e es l h = h
IsAmong-evict (suc fuel) cap n e [] l h = elim h [ ]
IsAmong-evict (suc fuel) cap n e (x ∷ xs) l h = elim (Bool-cases (ltb cap (length (x ∷ xs)))) [
  | inr k ↦ rw k h
  | inl k ↦ rw k (
      IsAmong-evict fuel cap n e (drop_last (x ∷ xs)) l
        (IsAmong-drop_last n e x xs (ground (arith, k, l)) h))
]

find-key : (key : ℕ) (es : List CacheEntry) (x : CacheEntry) → find key es ≡ some x → x.key ≡ key
unfolding find
find-key key [] x h = cc
find-key key (y ∷ ys) x h = ground (arith, find-key key ys x)

apply-IsAmong :
    (cap n : ℕ) (op : CacheOp) (e : CacheEntry) (es : List CacheEntry)
    → suc n ≤ cap
    → key_of op ≢ e.key
    → IsAmong n e es
    → IsAmong (suc n) e (apply cap op es)
unfolding apply get put
apply-IsAmong cap n (getting now key) e es l d h = elim (Option-cases (find key es)) [
  | inl k ↦
      let same : apply cap (getting now key) es ≡ es = ground (arith, k) in
      subst (IsAmong (suc n) e) (sym same) (IsAmong-suc n e es h)
  | inr (x, k) ↦ elim (Bool-cases (ltb x.expires_at now)) [
    | inl old ↦
        let gone : apply cap (getting now key) es ≡ remove key es = ground (arith, k, old) in
        subst (IsAmong (suc n) e) (sym gone)
          (IsAmong-suc n e (remove key es) (IsAmong-remove n key e es d h))
    | inr live ↦
        let moved : apply cap (getting now key) es ≡ x ∷ remove key es = ground (arith, k, live) in
        subst (IsAmong (suc n) e) (sym moved)
          (inr (ground (arith, find-key key es x k, d), IsAmong-remove n key e es d h))
  ]
]
apply-IsAmong cap n (putting x) e es l d h = elim (Bool-cases (is_some (find x.key es))) [
  | inl k ↦ rw k (inr (d, IsAmong-remove n x.key e es d h))
  | inr k ↦ rw k (IsAmong-evict (length es + 1) cap (suc n) e (x ∷ es) l (inr (d, h)))
]

run-IsAmong :
    (cap n : ℕ) (ops : List CacheOp) (e : CacheEntry) (es : List CacheEntry)
    → n + length ops ≤ cap
    → All (λ op. key_of op ≢ e.key) ops
    → IsAmong n e es
    → IsAmong (n + length ops) e (run cap ops es)
unfolding run
run-IsAmong cap n [] e es l a h = subst (λ k. IsAmong k e es) (omega arith) h
run-IsAmong cap n (op ∷ ops) e es l (d, a) h =
    subst (λ k. IsAmong k e (run cap ops (apply cap op es))) (omega arith)
      (run-IsAmong cap (suc n) ops e (apply cap op es) (omega (arith, l)) a
        (apply-IsAmong cap n op e es (omega (arith, l)) d h))

put-IsAmong :
    (cap : ℕ) (e : CacheEntry) (es : List CacheEntry) → 1 ≤ cap → IsAmong 1 e (put cap e es)
unfolding put
put-IsAmong cap e es l = elim (Bool-cases (is_some (find e.key es))) [
  | inl k ↦ rw k (inl refl)
  | inr k ↦ rw k (IsAmong-evict (length es + 1) cap 1 e (e ∷ es) l (inl refl))
]

-- An entry that has been put is found again until it expires, whatever the cache held, if it has since been
-- used for other keys only, and less often than it has room for entries.
pub put-get :
    (cap now : ℕ) (e : CacheEntry) (ops : List CacheOp) (es : List CacheEntry)
    → length ops < cap
    → All (λ op. key_of op ≢ e.key) ops
    → now ≤ e.expires_at
    → (get now e.key (run cap ops (put cap e es))).1 ≡ some e
unfolding get
put-get cap now e ops es l a fresh =
    let found : find e.key (run cap ops (put cap e es)) ≡ some e =
      IsAmong-find (1 + length ops) e (run cap ops (put cap e es)) (
        run-IsAmong cap 1 ops e (put cap e es) (omega (arith, l)) a
          (put-IsAmong cap e es (omega (arith, l)))) in
    ground (arith, found, fresh)
