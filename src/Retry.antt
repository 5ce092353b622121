-- ===== src/Retry.antt =====
-- src/url_crawler/retry.py. Times and delays are numbers of microseconds, the resolution of a
-- `datetime`. `http_date` stands for `email.utils.parsedate_to_datetime` and gives the instant that a
-- date names, and `draw n cap` for the number that `rng.uniform(0, cap)` draws before attempt n + 1.
use url_crawler.Base.{
  ℕ, ◌-◌, ◌*◌, ◌^◌, ◌≤◌, ◌<◌, min, Option, none, some, Bool, true, false, not, ◌||◌, ◌≡◌, arith,
  Text, leb, ◌==◌, if◌then◌else◌, clamped_int,
}

-- The classes of `httpx` that the sources tell apart, and any other `Exception`.
pub data HttpxClass : Type 0 where
  timeout_exception network_error remote_protocol_error local_protocol_error : HttpxClass
  decoding_error unsupported_protocol invalid_url_error other : HttpxClass

abbrev pub is_retryable_status : ℕ → Bool
is_retryable_status status =
    status == 408
    || status == 425
    || status == 429
    || status == 500
    || status == 502
    || status == 503
    || status == 504

abbrev pub is_retryable_exception : HttpxClass → Bool
is_retryable_exception timeout_exception = true
is_retryable_exception network_error = true
is_retryable_exception remote_protocol_error = true
is_retryable_exception _ = false

abbrev pub second : ℕ
second = 1000000

abbrev pub max_backoff : ℕ
max_backoff = 8 * second

abbrev pub max_retry_after : ℕ
max_retry_after = 30 * second

abbrev delta_of : Option ℕ → Option ℕ
delta_of none = none
delta_of (some n) = some (min n 30 * second)

unfoldable pub delta_seconds : Text → Option ℕ
delta_seconds value = delta_of (clamped_int value)

module _ (http_date : Text → Option ℕ) (now : ℕ) where
  -- The difference stops at 0, as its only use, `max(seconds, 0.0)`, does.
  unfoldable pub seconds_until_http_date : Text → Option ℕ
  seconds_until_http_date value = elim (http_date value) [
    | none ↦ none
    | some instant ↦ some (instant - now)
  ]

  unfoldable pub parse_retry_after : Option Text → Option ℕ
  unfolding seconds_until_http_date delta_seconds
  parse_retry_after none = none
  parse_retry_after (some value) = elim (delta_seconds value) [
    | some n ↦ some (min n max_retry_after)
    | none ↦ elim (seconds_until_http_date value) [
      | none ↦ none
      | some n ↦ some (min n max_retry_after)
    ]
  ]

abbrev pub retryable : Option HttpxClass → Bool
retryable none = true
retryable (some e) = is_retryable_exception e

abbrev pub retries_status : Option ℕ → Bool
retries_status none = true
retries_status (some status) = is_retryable_status status

abbrev pub waits_as_told : Option ℕ → Bool
waits_as_told none = false
waits_as_told (some status) = status == 429 || status == 503

module _ (draw : ℕ → ℕ → ℕ) where
  unfoldable pub backoff_delay : ℕ → ℕ
  backoff_delay attempt = draw attempt (min max_backoff (500000 * 2 ^ attempt))

  -- The last two lines of `retry_delay`.
  abbrev pub told_or_drawn : Option ℕ → ℕ → ℕ
  told_or_drawn none attempt = backoff_delay attempt
  told_or_drawn (some delay) attempt = delay

  unfoldable pub retry_delay :
      (Text → Option ℕ) → Option ℕ → Option HttpxClass → ℕ → ℕ → Option Text → ℕ → Option ℕ
  unfolding backoff_delay parse_retry_after
  retry_delay http_date status exc attempt max_attempts retry_after now =
      if leb max_attempts attempt || not (retryable exc) || not (retries_status status)
      then none
      else if waits_as_told status
      then some (told_or_drawn (parse_retry_after http_date now retry_after) attempt)
      else some (backoff_delay attempt)

module _ (draw : ℕ → ℕ → ℕ) (bounded : (n cap : ℕ) → draw n cap ≤ cap) where
  told-bound :
      (http_date : Text → Option ℕ) (now : ℕ) (retry_after : Option Text) (attempt : ℕ)
      → told_or_drawn draw (parse_retry_after http_date now retry_after) attempt ≤ max_retry_after
  unfolding parse_retry_after seconds_until_http_date backoff_delay
  told-bound http_date now none attempt =
      omega (arith, bounded attempt (min max_backoff (500000 * 2 ^ attempt)))
  told-bound http_date now (some value) attempt =
      ground (arith, bounded attempt (min max_backoff (500000 * 2 ^ attempt)))

  -- A retry is only granted below the attempt limit, to a retryable status or exception, and its
  -- wait is at most 30 seconds, whatever the server's Retry-After says.
  pub retry_delay-bounds :
      (http_date : Text → Option ℕ) (status : Option ℕ) (exc : Option HttpxClass)
      (attempt max_attempts : ℕ) (retry_after : Option Text) (now delay : ℕ)
      → retry_delay draw http_date status exc attempt max_attempts retry_after now ≡ some delay
      → (attempt < max_attempts)
        × (retryable exc ≡ true)
        × (retries_status status ≡ true)
        × (delay ≤ max_retry_after)
  unfolding retry_delay backoff_delay
  retry_delay-bounds http_date status exc attempt max_attempts retry_after now delay e = ground (
    arith,
    told-bound http_date now retry_after attempt,
    bounded attempt (min max_backoff (500000 * 2 ^ attempt)),
  )
