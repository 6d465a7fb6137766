-- ===== src/Tests/Requests.antt =====
-- The retrying transport at concrete inputs.
use forecastiq.Prelude.{ℕ, zero, suc, ◌≤◌, ◌≡◌, refl, true, none, [], ◌∷◌, arith}
use forecastiq.Transport.{
  Reply, Network, Client, get, get_from, goes_on, is_success, updated, retries, classify,
  classify_status,
}
use forecastiq.Transport.Attempts.{IsPatient, latest_body, success_of, get-kept}

-- A server error with a body, and then a success without one.
abbrev reply : ℕ → Reply
reply zero = record { body = 101 ∷ []; code = 500; failure = none }
reply (suc n) = record { body = []; code = 200; failure = none }

abbrev network : Network
network = record { reply = reply; backs_off = λ n. true; admits = λ n. true }

abbrev client : Client
client = record { max_attempts = 5; has_limiter = true; retry_override = none }

network-IsPatient : IsPatient client network
unfolding goes_on
network-IsPatient n = ground arith

get-kept_example :
    ((get client network).0.attempts ≤ 5)
    × ((get client network).0.body ≡ latest_body network (get client network).0.attempts)
    × (success_of network (get client network).0.attempts (get client network).1 ≡ true)
get-kept_example = get-kept client network (omega arith)

stale_body :
    get client network ≡ (record { body = 101 ∷ []; status_code = 200; attempts = 2 }, none)
unfolding get get_from goes_on is_success updated retries classify classify_status
stale_body = refl
