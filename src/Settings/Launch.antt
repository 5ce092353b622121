-- ===== src/Settings/Launch.antt =====
-- The console scripts of src/url_crawler_service/worker.py and api.py: `main` up to what they serve. The
-- logging set-up is left out.
use url_crawler.Base.{
  ℕ, Option, Bool, true, false, ◌≡◌, refl, Text, codes, Result, ok, raise, Exn, ◌++◌, Returns,
  subst, if◌then◌else◌,
}
use url_crawler.Config.Floats.{ℤ, Float}
use url_crawler.Settings.{Settings, from_env}
use url_crawler.Settings.Usable.{Provided, from_env-Provided}

-- The script exits with a code and its line on stderr, or serves with the settings.
pub data Launch : Type 0 where
  refuses : ℕ → Text → Launch
  serves : Settings → Launch

-- `SERVICE_EXTRA_HINT`.
abbrev pub service_extra_hint : Text
service_extra_hint =
    codes "the crawl service needs the 'service' extra: pip install 'url-crawler[service]'"

-- `f"error: {exc}"` over the exception's text.
abbrev pub error_line : Text → Text
error_line message = codes "error: " ++ message

module _ (float : Text → Option Float) (int : Text → Option ℤ) (shown : Exn → Text)
    (env : Text → Option Text) where
  abbrev pub launched : Result Settings → Launch
  launched (ok settings) = serves settings
  launched (raise e) = refuses 2 (error_line (shown e))

  -- `main`; `installed` says whether the imports of the extra succeeded.
  unfoldable pub launch : Bool → Launch
  unfolding from_env
  launch installed =
      if installed
      then launched (from_env float int env)
      else refuses 2 (error_line service_extra_hint)

  launched-Provided :
      (r : Result Settings) (s : Settings)
      → Returns (Provided float int env) r
      → launched r ≡ serves s
      → Provided float int env s
  launched-Provided (ok t) s h e = let q : t ≡ s = cc in subst (Provided float int env) q h
  launched-Provided (raise x) s h e = cc

  -- A script serves only where the extra is installed and with settings that are usable and carry the
  -- environment's database URL; in every other case it exits with the code 2.
  pub launch-Serves :
      (installed : Bool) (s : Settings)
      → launch installed ≡ serves s
      → (installed ≡ true) × Provided float int env s
  unfolding launch
  launch-Serves true s e =
      (refl, launched-Provided (from_env float int env) s (from_env-Provided float int env) e)
  launch-Serves false s e = cc
