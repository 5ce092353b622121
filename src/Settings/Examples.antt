-- ===== src/Settings/Examples.antt =====
-- Settings from an environment, as src/url_crawler_service/settings.py reads it.
use url_crawler.Settings.Launch.{launch, refuses, error_line, service_extra_hint}
use url_crawler.Base.{
  Option, none, some, false, Text, codes, text_eq, if◌then◌else◌, ◌≡◌, refl, ok, Returns, Exn,
}
use url_crawler.Config.Floats.{ℤ, pos, Float, seconds, float_le, float_lt, int_lt}
use url_crawler.Settings.{defaults, from_env}
use url_crawler.Settings.Usable.{Provided, from_env-Provided, from_env-defaults}

-- An environment of a URL and a poll interval, and readers of one number.
abbrev env : Text → Option Text
unfolding text_eq
env name =
    if text_eq name (codes "DATABASE_URL")
    then some (codes "postgresql://db")
    else if text_eq name (codes "WORKER_POLL_SECONDS")
    then some (codes "2")
    else none

abbrev float : Text → Option Float
unfolding text_eq
float raw = if text_eq raw (codes "2") then some (seconds 2) else none

abbrev int : Text → Option ℤ
unfolding text_eq
int raw = if text_eq raw (codes "2") then some (pos 2) else none

polled :
    from_env float int env
    ≡ ok (record (defaults (codes "postgresql://db")) { worker_poll_seconds = seconds 2 })
unfolding from_env text_eq float_le float_lt int_lt
polled = refl

from_env-Provided_example : Returns (Provided float int env) (from_env float int env)
from_env-Provided_example = from_env-Provided float int env

-- Only the URL.
abbrev url_only : Text → Option Text
unfolding text_eq
url_only name = if text_eq name (codes "DATABASE_URL") then some (codes "postgresql://db") else none

url_only-none : (name : Text) → text_eq name (codes "DATABASE_URL") ≡ false → url_only name ≡ none
unfolding text_eq
url_only-none name h = rw h refl

only_url : from_env float int url_only ≡ ok (defaults (codes "postgresql://db"))
unfolding text_eq
only_url =
    from_env-defaults float int url_only (codes "postgresql://db") (λ e. cc) refl url_only-none

abbrev shown : Exn → Text
shown e = codes "settings"

-- Without the extra a script does not read its settings.
not_installed : launch float int shown env false ≡ refuses 2 (error_line service_extra_hint)
unfolding launch
not_installed = refl
