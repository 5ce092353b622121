-- ===== src/Settings.antt =====
-- src/url_crawler_service/settings.py. The environment is a function; `float` and `int` are the
-- built-ins, and `none` is their `ValueError`. A `SettingsError` is an `unexpected` exception.
mod Usable
mod Launch
mod Examples
use url_crawler.Base.{
  ℕ, [], Option, none, some, Bool, true, false, not, ◌&&◌, ◌||◌, Text, codes, ◌++◌, text_eq, Exn,
  Result, ok, raise, unexpected, ◌>>=◌, ◌>>◌, check, if◌then◌else◌,
}
use url_crawler.Config.Floats.{
  ℤ, pos, int_lt, Float, seconds, finite, zero_float, float_lt, float_le, isfinite,
}

pub record Settings : Type 0 where
  pub database_url : Text
  pub worker_poll_seconds : Float
  pub heartbeat_seconds : Float
  pub lease_seconds : Float
  pub max_attempts : ℤ
  pub page_batch_size : ℤ
  pub page_flush_seconds : Float
  pub api_host : Text
  pub api_port : ℤ

abbrev pub settings_error : Text → Exn
settings_error message = unexpected (codes "SettingsError: " ++ message)

-- `_positive` and `_at_least_one`.
abbrev pub positive : Text → Float → Result (Unit {0})
positive name value =
    check (not (isfinite value) || float_le value zero_float)
      (settings_error (name ++ codes " must be a positive number"))

abbrev pub at_least_one : Text → ℤ → Result (Unit {0})
at_least_one name value =
    check (int_lt value (pos 1)) (settings_error (name ++ codes " must be >= 1"))

abbrev pub is_port : ℤ → Bool
is_port n = int_lt (pos 0) n && int_lt n (pos 65536)

-- `__post_init__`; the messages leave the values out.
unfoldable pub post_init : Settings → Result Settings
post_init s = do
  positive (codes "WORKER_POLL_SECONDS") s.worker_poll_seconds
  positive (codes "HEARTBEAT_SECONDS") s.heartbeat_seconds
  positive (codes "LEASE_SECONDS") s.lease_seconds
  positive (codes "PAGE_FLUSH_SECONDS") s.page_flush_seconds
  at_least_one (codes "MAX_ATTEMPTS") s.max_attempts
  at_least_one (codes "PAGE_BATCH_SIZE") s.page_batch_size
  check (not (is_port s.api_port)) (settings_error (codes "API_PORT must be between 1 and 65535"))
  check (float_lt s.lease_seconds s.heartbeat_seconds)
      (settings_error (codes "LEASE_SECONDS must be >= HEARTBEAT_SECONDS"))
  ok s

-- `cls(database_url=...)` before its checks.
abbrev pub defaults : Text → Settings
defaults database_url = record {
  database_url = database_url;
  worker_poll_seconds = seconds 1;
  heartbeat_seconds = seconds 5;
  lease_seconds = seconds 30;
  max_attempts = pos 3;
  page_batch_size = pos 100;
  page_flush_seconds = finite (pos 200000);
  api_host = codes "0.0.0.0";
  api_port = pos 8000;
}

module _ (float : Text → Option Float) (int : Text → Option ℤ) (env : Text → Option Text) where
  -- A field of the environment: absent, unusable or read.
  abbrev pub read {ℓ} : {A : Type ℓ} → (Text → Option A) → Text → Text → A → Option Text → Result A
  read parse name what default none = ok default
  read parse name what default (some raw) = elim (parse raw) [
    | none ↦ raise (settings_error (name ++ what))
    | some value ↦ ok value
  ]

  unfoldable pub read_float : Text → Float → Result Float
  read_float name default = read float name (codes " must be a number") default (env name)

  unfoldable pub read_int : Text → ℤ → Result ℤ
  read_int name default = read int name (codes " must be an integer") default (env name)

  abbrev pub or_default : Option Text → Text → Text
  or_default none d = d
  or_default (some v) d = v

  -- `replace(defaults, ...)`, which runs `__post_init__` again.
  unfoldable pub overridden : Settings → Result Settings
  unfolding read_float read_int post_init
  overridden d = do
    poll ← read_float (codes "WORKER_POLL_SECONDS") d.worker_poll_seconds
    heartbeat ← read_float (codes "HEARTBEAT_SECONDS") d.heartbeat_seconds
    lease ← read_float (codes "LEASE_SECONDS") d.lease_seconds
    attempts ← read_int (codes "MAX_ATTEMPTS") d.max_attempts
    batch ← read_int (codes "PAGE_BATCH_SIZE") d.page_batch_size
    flush ← read_float (codes "PAGE_FLUSH_SECONDS") d.page_flush_seconds
    port ← read_int (codes "API_PORT") d.api_port
    post_init record d {
      worker_poll_seconds = poll;
      heartbeat_seconds = heartbeat;
      lease_seconds = lease;
      max_attempts = attempts;
      page_batch_size = batch;
      page_flush_seconds = flush;
      api_host = or_default (env (codes "API_HOST")) d.api_host;
      api_port = port;
    }

  abbrev pub required : Option Text → Text
  required none = []
  required (some url) = url

  unfoldable pub from_env : Result Settings
  unfolding overridden post_init text_eq
  from_env =
      let url = required (env (codes "DATABASE_URL")) in
      if text_eq url []
      then raise (settings_error (codes "DATABASE_URL is required"))
      else post_init (defaults url) >>= overridden
