-- ===== src/Transport/Attempts.antt =====
-- How often `Get` asks, and what it returns (adapters/forecastproviders/providerhttp/client.go).
use forecastiq.Prelude.{
  ℕ, zero, suc, ◌+◌, ◌≤◌, ◌<◌, ◌≡◌, refl, Bool, true, false, not, ◌&&◌, Option, none, some, List,
  [], if◌then◌else◌, is_some, arith, ap, ◌∙◌, sym, ◌⊎◌, inl, inr,
}
use forecastiq.Transport.{
  Client, Network, Response, ProviderError, classify, or_body, is_success, updated, retries,
  goes_on, get_from, get,
}

-- The attempts up to the first reply that is not retried, or all of them.
unfoldable pub attempts_from : Client → Network → ℕ → ℕ → ℕ
attempts_from c net zero attempt = 0
attempts_from c net (suc left) attempt =
    let rest = attempts_from c net left (attempt + 1) in
    if not (is_success (net.reply attempt)) && retries c.retry_override (net.reply attempt)
    then suc rest
    else 1

-- No wait is cut short.
abbrev pub IsPatient : Client → Network → Type 0
IsPatient c net = (attempt : ℕ) → goes_on c net attempt ≡ true

get_from-attempts :
    (c : Client) (net : Network) (left attempt : ℕ) (resp : Response) (last : Option ProviderError)
    → IsPatient c net
    → resp.attempts ≡ attempt
    → (get_from c net left attempt resp last).0.attempts
      ≡ attempt + attempts_from c net left attempt
unfolding get_from attempts_from updated
get_from-attempts c net zero attempt resp last p h = ground arith
get_from-attempts c net (suc left) attempt resp last p h = ground (
  arith,
  p attempt,
  get_from-attempts c net left (attempt + 1) (updated attempt (net.reply attempt) resp)
      (some (classify (net.reply attempt).code (net.reply attempt).failure)) p,
)

-- If no wait is cut short, `Get` asks as often as it takes to the first reply that is a success or is not to be
-- retried, and `maxAttempts` times if there is none.
pub get-attempts :
    (c : Client) (net : Network)
    → IsPatient c net
    → (get c net).0.attempts ≡ attempts_from c net c.max_attempts 0
unfolding get
get-attempts c net p = ground (
  arith,
  get_from-attempts c net c.max_attempts 0 (record { body = []; status_code = 0; attempts = 0 })
      none p,
)

-- The last body that was not empty, among the first replies.
unfoldable pub latest_body : Network → ℕ → List ℕ
latest_body net zero = []
latest_body net (suc n) = or_body (net.reply n).body (latest_body net n)

-- An error, or a success of the last attempt.
abbrev pub success_of : Network → ℕ → Option ProviderError → Bool
success_of net attempts (some e) = true
success_of net zero none = false
success_of net (suc n) none = is_success (net.reply n)

-- What a response and its error hold after the attempts.
abbrev Kept : Network → ℕ → Response × Option ProviderError → Type 0
Kept net bound x =
    (x.0.body ≡ latest_body net x.0.attempts)
    × (x.0.attempts ≤ bound)
    × (success_of net x.0.attempts x.1 ≡ true)

if-Kept :
    (net : Network) (bound : ℕ) (b : Bool) (x y : Response × Option ProviderError)
    → (b ≡ true → Kept net bound x)
    → (b ≡ false → Kept net bound y)
    → Kept net bound (if b then x else y)
if-Kept net bound true x y p q = p refl
if-Kept net bound false x y p q = q refl

updated-body :
    (net : Network) (attempt : ℕ) (resp : Response)
    → resp.body ≡ latest_body net attempt
    → (updated attempt (net.reply attempt) resp).body ≡ latest_body net (attempt + 1)
unfolding updated latest_body
updated-body net attempt resp k =
    ap (or_body (net.reply attempt).body) k ∙ ap (latest_body net) (next attempt)
  where
    next : (n : ℕ) → suc n ≡ n + 1
    next n = omega arith

updated-Kept :
    (net : Network) (attempt bound : ℕ) (resp : Response) (e : Option ProviderError)
    → resp.body ≡ latest_body net attempt
    → attempt < bound
    → success_of net (attempt + 1) e ≡ true
    → Kept net bound (updated attempt (net.reply attempt) resp, e)
unfolding updated
updated-Kept net attempt bound resp e k l s = (updated-body net attempt resp k, omega arith, s)

success_of-next :
    (net : Network) (attempt : ℕ)
    → is_success (net.reply attempt) ≡ true
    → success_of net (attempt + 1) none ≡ true
success_of-next net attempt h = ground arith

get_from-Kept :
    (c : Client) (net : Network) (left attempt bound : ℕ) (resp : Response)
    (last : Option ProviderError)
    → resp.attempts ≡ attempt
    → resp.body ≡ latest_body net attempt
    → attempt + left ≤ bound
    → (0 < left) ⊎ (is_some last ≡ true)
    → Kept net bound (get_from c net left attempt resp last)
unfolding get_from updated
get_from-Kept c net zero attempt bound resp (some e) h k l o =
    (k ∙ ap (latest_body net) (sym h), omega arith, refl)
get_from-Kept c net zero attempt bound resp none h k l o = ground arith
get_from-Kept c net (suc left) attempt bound resp last h k l o =
    if-Kept net bound (goes_on c net attempt) _ _
      (λ _.
        if-Kept net bound (is_success (net.reply attempt)) _ _
          (λ s.
            updated-Kept net attempt bound resp none k (omega arith)
              (success_of-next net attempt s))
          (λ _.
            if-Kept net bound (retries c.retry_override (net.reply attempt)) _ _
              (λ _.
                get_from-Kept c net left (attempt + 1) bound
                  (updated attempt (net.reply attempt) resp) _ refl
                  (updated-body net attempt resp k) (omega arith) (inr refl))
              (λ _.
                updated-Kept net attempt bound resp
                  (some (classify (net.reply attempt).code (net.reply attempt).failure)) k
                  (omega arith) refl)))
      (λ _. (k ∙ ap (latest_body net) (sym h), omega arith, refl))

-- For a client that makes at least one attempt, whatever the network does: `Get` makes at most `maxAttempts`
-- requests, its body is the last one that was not empty among their replies, and it returns no error only
-- if the last reply was a success.
pub get-kept :
    (c : Client) (net : Network)
    → 0 < c.max_attempts
    → ((get c net).0.attempts ≤ c.max_attempts)
      × ((get c net).0.body ≡ latest_body net (get c net).0.attempts)
      × (success_of net (get c net).0.attempts (get c net).1 ≡ true)
unfolding get latest_body
get-kept c net m =
    let kept =
      get_from-Kept c net c.max_attempts 0 c.max_attempts
        (record { body = []; status_code = 0; attempts = 0 }) none refl refl (omega arith)
        (inl m) in
    (kept.1, kept.0, kept.2)
