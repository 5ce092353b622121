-- ===== src/Api/Creation.antt =====
-- What `create_crawl` of src/url_crawler_service/api.py answers and stores.
use url_crawler.Base.{ℕ, ◌⊎◌, Option, none, some, false, ◌≡◌, Text, Result, ok, raise, value_error}
use url_crawler.Repository.Rows.{Db}
use url_crawler.Repository.{create}
use url_crawler.Schemas.{
  CrawlCreate, normalized_seed, StoredConfig, to_config, accepts, with_defaults, build_config,
}
use url_crawler.Urls.Parse.{Unicode}
use url_crawler.Api.{Answer, answered, http_error, crashed, Created, get_crawl}

-- The exceptions of a seed are `ValueError`s.
abbrev OnlyValueError : Result Text → Type 0
OnlyValueError (ok t) = Unit {0}
OnlyValueError (raise (value_error m)) = Unit {0}
OnlyValueError (raise e) = ⊥

module _ (u : Unicode) (guard : Text → Result (Option Text))
    (dump : StoredConfig → Result Text) where
  -- Why a request is refused: its body, its seed, or the guard.
  abbrev pub Refused : CrawlCreate → Type 0
  Refused body =
      (accepts body ≡ false)
      ⊎ (((message : Text) × (normalized_seed u body ≡ raise (value_error message)))
          ⊎ ((seed : Text) × (reason : Text) × (normalized_seed u body ≡ ok seed)
              × (guard seed ≡ ok (some reason))))

  -- An answer is the new crawl, queued in the database with the request's seed, which the guard lets
  -- through, and with its configuration, which builds; a refusal and an exception change nothing.
  abbrev pub Outcome : CrawlCreate → ℕ → ℕ → Db → Answer Created × Db → Type 0
  Outcome body id now db (answered (location, out), after) =
      (seed : Text) × (normalized_seed u body ≡ ok seed)
      × (guard seed ≡ ok none)
      × (config : Text) × (dump (to_config body) ≡ ok config)
      × (build_config (to_config body) ≡ ok (with_defaults (to_config body)))
      × (after ≡ (create id seed config now db).1)
      × (get_crawl id after ≡ answered out)
  Outcome body id now db (http_error status detail, after) =
      (status ≡ 422) × (after ≡ db) × Refused body
  Outcome body id now db (crashed e, after) =
      (after ≡ db)
      × (seed : Text) × (normalized_seed u body ≡ ok seed)
      × ((guard seed ≡ raise e) ⊎ (dump (to_config body) ≡ raise e))
