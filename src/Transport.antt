-- ===== src/Transport.antt =====
-- The retrying transport of the adapters: `Get` and `classify`
-- (adapters/forecastproviders/providerhttp/client.go). What one request brings, and whether a wait is
-- cut short by its context, are arguments, by the number of the attempt. Latency, request id and
-- rate-limit metadata are copied like the status and are left out.
pub mod Attempts
use forecastiq.Prelude.{
  ℕ, zero, suc, ◌+◌, Bool, true, false, not, ◌&&◌, ◌||◌, Option, none, some, List, [], ◌∷◌, leb,
  ltb, ◌==◌, if◌then◌else◌,
}
use forecastiq.Collection.{
  ErrorCode, err_timeout, err_provider_5xx, err_rate_limited, err_network_local,
  err_invalid_credentials,
}

-- An error of the transport, as `isTimeout` and `context.DeadlineExceeded` tell it apart.
pub data Failure : Type 0 where
  timed_out : Failure
  unreachable : Failure

-- What `doOnce` returns: the bytes of the body, the status (0 if there was none) and the error.
pub record Reply : Type 0 where
  pub body : List ℕ
  pub code : ℕ
  pub failure : Option Failure

pub record ProviderError : Type 0 where
  pub code : ErrorCode
  pub http_status : ℕ
  pub retryable : Bool

unfoldable pub classify_failure : ℕ → Failure → ProviderError
classify_failure status timed_out = record {
  code = err_timeout;
  http_status = status;
  retryable = true;
}
classify_failure status unreachable = record {
  code = if leb 500 status then err_provider_5xx else err_network_local;
  http_status = status;
  retryable = true;
}

unfoldable pub classify_status : ℕ → ProviderError
classify_status status =
    if status == 429
    then record { code = err_rate_limited; http_status = status; retryable = true }
    else if status == 401 || status == 403
    then record { code = err_invalid_credentials; http_status = status; retryable = false }
    else if leb 500 status
    then record { code = err_provider_5xx; http_status = status; retryable = true }
    else record { code = err_network_local; http_status = status; retryable = false }

unfoldable pub classify : ℕ → Option Failure → ProviderError
classify status (some failure) = classify_failure status failure
classify status none = classify_status status

pub record Client : Type 0 where
  pub max_attempts : ℕ
  pub has_limiter : Bool
  pub retry_override : Option (ℕ → Bool → Bool)

-- What happens outside, by the number of the attempt: the reply, and whether the backoff and the
-- limiter wait to their end.
pub record Network : Type 0 where
  pub reply : ℕ → Reply
  pub backs_off : ℕ → Bool
  pub admits : ℕ → Bool

pub record Response : Type 0 where
  pub body : List ℕ
  pub status_code : ℕ
  pub attempts : ℕ

abbrev pub or_body : List ℕ → List ℕ → List ℕ
or_body [] old = old
or_body (b ∷ bs) old = b ∷ bs

unfoldable pub is_success : Reply → Bool
is_success r = elim r.failure [ none ↦ leb 200 r.code && ltb r.code 300 | some failure ↦ false ]

unfoldable pub updated : ℕ → Reply → Response → Response
updated attempt r resp = record {
  body = or_body r.body resp.body;
  status_code = if ltb 0 r.code then r.code else resp.status_code;
  attempts = attempt + 1;
}

unfoldable pub retries : Option (ℕ → Bool → Bool) → Reply → Bool
retries none r = (classify r.code r.failure).retryable
retries (some override) r = override r.code (classify r.code r.failure).retryable

unfoldable pub goes_on : Client → Network → ℕ → Bool
goes_on c net attempt =
    (attempt == 0 || net.backs_off attempt) && (not c.has_limiter || net.admits attempt)

unfoldable pub interrupted : Response → ProviderError
interrupted resp = record { code = err_timeout; http_status = resp.status_code; retryable = false }

-- The rounds that are left, the number of the attempt, the response and the last error so far.
unfoldable pub get_from :
    Client → Network → ℕ → ℕ → Response → Option ProviderError → Response × Option ProviderError
get_from c net zero attempt resp last = (resp, last)
get_from c net (suc left) attempt resp last =
    let r = net.reply attempt in
    let resp' = updated attempt r resp in
    let why = classify r.code r.failure in
    let rest = get_from c net left (attempt + 1) resp' (some why) in
    if goes_on c net attempt
    then if is_success r
      then (resp', none)
      else if retries c.retry_override r
      then rest
      else (resp', some why)
    else (resp, some (interrupted resp))

unfoldable pub get : Client → Network → Response × Option ProviderError
get c net =
    get_from c net c.max_attempts 0 (record { body = []; status_code = 0; attempts = 0 }) none
