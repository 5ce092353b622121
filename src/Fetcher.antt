-- ===== src/Fetcher.antt =====
-- src/url_crawler/fetcher.py. A response is its status, the headers that are read and the chunks of its
-- stream, which may end in an exception; `client` answers each attempt with a response or an exception.
-- The expiry of the request's budget is the `timeout_exception` that the source makes of it.
pub mod Bodies
pub mod Bounded
mod Attempts
mod Examples
use url_crawler.Base.{
  ℕ, zero, suc, ◌+◌, List, [], ◌∷◌, Option, none, some, Bool, true, false, not, ◌&&◌, ◌||◌, Text,
  codes, text_eq, ltb, leb, ◌==◌, if◌then◌else◌, lower, strip, before, isdigit, digits_value,
  decimal, length, Exn, Result, ok, raise, unexpected, value_error, max_str_digits, ◌>>=◌, ◌++◌,
}
use url_crawler.Models.{
  FetchErrorKind, timeout, connection, http_status, unsupported_content, too_large, invalid_url,
  protocol, FetchResult, FetchError, Fetched, fetched, failed,
}
use url_crawler.Retry.{
  HttpxClass, timeout_exception, network_error, remote_protocol_error, local_protocol_error,
  decoding_error, unsupported_protocol, invalid_url_error, other, retry_delay,
}
use Bodies.{Failure, Chunks, Zlib, Body, read_bounded}

pub record Response : Type 0 where
  pub status : ℕ
  pub content_type : Option Text
  pub location : Option Text
  pub retry_after : Option Text
  pub content_encoding : Option Text
  pub content_length : Option Text
  pub stream : Chunks

-- What `client.stream("GET", url)` gives.
pub data Answer : Type 0 where
  responded : Response → Answer
  refused : Failure → Answer

-- The constructor's arguments, with the zlib of the standard library.
pub record Fetcher (S : Type 0) : Type 0 where
  pub zlib : Zlib S
  pub max_bytes : ℕ
  pub max_attempts : ℕ
  pub draw : ℕ → ℕ → ℕ
  pub http_date : Text → Option ℕ
  pub now : ℕ → ℕ

-- `_Retry` is a delay.
pub data Attempt : Type 0 where
  done : Fetched → Attempt
  retry : ℕ → Attempt

unfoldable pub is_redirect_status : ℕ → Bool
is_redirect_status s = s == 301 || s == 302 || s == 303 || s == 307 || s == 308

-- `_ERROR_KINDS`; `none` is a class that `_attempt` does not handle.
abbrev pub error_kind : HttpxClass → Option FetchErrorKind
error_kind timeout_exception = some timeout
error_kind remote_protocol_error = some protocol
error_kind local_protocol_error = some protocol
error_kind decoding_error = some protocol
error_kind network_error = some connection
error_kind unsupported_protocol = some invalid_url
error_kind invalid_url_error = some invalid_url
error_kind other = none

abbrev pub or_else : Option Text → Text → Text
or_else none d = d
or_else (some v) d = v

abbrev or_html : Text → Text
or_html [] = codes "text/html"
or_html mime = mime

unfoldable pub mime_type : Response → Text
mime_type r = or_html (lower (strip (before b';' (or_else r.content_type (codes "text/html")))))

abbrev pub is_html : Text → Bool
is_html mime = text_eq mime (codes "text/html") || text_eq mime (codes "application/xhtml+xml")

-- `int` raises on more digits than `max_str_digits`.
unfoldable pub declares_more_than : ℕ → Response → Result Bool
declares_more_than max_bytes r =
    let declared = or_else r.content_length [] in
    if isdigit declared
    then if leb (length declared) max_str_digits
      then ok (ltb max_bytes (digits_value 0 declared))
      else raise (value_error (codes "Exceeds the limit for integer string conversion"))
    else ok false

module _ {S : Type 0} (f : Fetcher S) (url : Text) where
  unfoldable pub too_large_error : ℕ → ℕ → Attempt
  too_large_error status attempt = done (
      failed record {
        url = url;
        kind = too_large;
        status = some status;
        message = codes "body larger than " ++ decimal f.max_bytes ++ codes " bytes";
        attempts = attempt;
      })

  abbrev pub wait_or : Attempt → Option ℕ → Attempt
  wait_or give_up none = give_up
  wait_or give_up (some delay) = retry delay

  abbrev pub delay_of : Option ℕ → Option HttpxClass → ℕ → Option Text → Option ℕ
  delay_of status exc attempt retry_after =
      retry_delay f.draw f.http_date status exc attempt f.max_attempts retry_after (f.now attempt)

  -- `str(exc) or type(exc).__name__`.
  abbrev pub message_or_name : Text → Text → Text
  message_or_name [] name = name
  message_or_name (c ∷ s) name = c ∷ s

  -- The `except` clauses of `_attempt`.
  unfoldable pub handle_failure : Failure → ℕ → Result Attempt
  handle_failure e attempt = elim (error_kind e.class) [
    | none ↦ raise (unexpected e.message)
    | some kind ↦ ok (
        wait_or
          (done (
            failed record {
              url = url;
              kind = kind;
              status = none;
              message = message_or_name e.message e.name;
              attempts = attempt;
            }))
          (delay_of none (some e.class) attempt none))
  ]

  abbrev pub result : Response → Text → Text → Option Text → ℕ → Attempt
  result r body mime location attempt = done (
      fetched record {
        url = url;
        status = r.status;
        body = body;
        content_type = mime;
        location = location;
        attempts = attempt;
      })

  abbrev pub error_of : Response → FetchErrorKind → Text → ℕ → Attempt
  error_of r kind message attempt = done (
      failed record {
        url = url;
        kind = kind;
        status = some r.status;
        message = message;
        attempts = attempt;
      })

  -- `_handle` once `read_bounded` is done, or has raised through it.
  abbrev pub with_body : Response → Text → ℕ → Body → Result Attempt
  with_body r mime attempt (Body.broken e) = handle_failure e attempt
  with_body r mime attempt (Body.read body true) = ok (too_large_error r.status attempt)
  with_body r mime attempt (Body.read body false) = ok (result r body mime none attempt)

  -- `_handle` from the check of the announced length on.
  unfoldable pub within_declared : Response → Text → ℕ → Bool → Result Attempt
  unfolding handle_failure
  within_declared r mime attempt true = ok (too_large_error r.status attempt)
  within_declared r mime attempt false =
      with_body r mime attempt
        (read_bounded f.zlib f.max_bytes (or_else r.content_encoding []) r.stream)

  unfoldable pub handle : Response → ℕ → Result Attempt
  unfolding mime_type within_declared declares_more_than
  handle r attempt =
      let mime = mime_type r in
      if is_redirect_status r.status
      then ok (result r [] mime r.location attempt)
      else if leb 400 r.status
      then ok (
          wait_or (error_of r http_status (codes "HTTP " ++ decimal r.status) attempt)
            (delay_of (some r.status) none attempt r.retry_after))
      else if not (is_html mime)
      then ok (error_of r unsupported_content mime attempt)
      else declares_more_than f.max_bytes r >>= within_declared r mime attempt

  unfoldable pub attempt_once : Answer → ℕ → Result Attempt
  unfolding handle
  attempt_once (responded r) attempt = handle r attempt
  attempt_once (refused e) attempt = handle_failure e attempt

  -- What `fetch` returned or raised, and the delays that it slept.
  pub record Run : Type 0 where
    pub value : Result Fetched
    pub slept : List ℕ

  -- The loop of `fetch` from one attempt on; `none` when the fuel ends first.
  unfoldable pub fetch_from : (ℕ → Answer) → ℕ → ℕ → List ℕ → Option Run
  unfolding attempt_once
  fetch_from client zero attempt slept = none
  fetch_from client (suc fuel) attempt slept = elim (attempt_once (client attempt) attempt) [
    | raise e ↦ some record { value = raise e; slept = slept }
    | ok (done x) ↦ some record { value = ok x; slept = slept }
    | ok (retry delay) ↦ fetch_from client fuel (attempt + 1) (slept ++ delay ∷ [])
  ]

  -- No attempt after the `max_attempts`-th is retried.
  unfoldable pub fetch : (ℕ → Answer) → Option Run
  unfolding fetch_from
  fetch client = fetch_from client (f.max_attempts + 1) 1 []
