-- ===== src/Cli.antt =====
-- src/url_crawler/cli.py: the exit code of `main`, from its parsed arguments and the way the crawl
-- ends. Options has the effect of its options, Output what it prints on stderr.
mod Exits
mod Output
mod Options
mod Examples
use url_crawler.Base.{
  ℕ, Option, none, some, Bool, true, false, not, Text, Exn, value_error, seed_error, broken_pipe,
  unexpected, Result, ok, raise, ◌>>=◌, if◌then◌else◌,
}
use url_crawler.Config.Floats.{ℤ, pos, Float}
use url_crawler.Config.{CrawlConfig, post_init}
use url_crawler.Crawler.Seed.{CrawlOutcome}
use url_crawler.Urls.{prepare_seed}

-- The options that `main` reads for the crawl.
pub record Args : Type 0 where
  pub url : Text
  pub concurrency : ℤ
  pub timeout : Float
  pub max_pages : Option ℤ
  pub max_bytes : ℤ
  pub request_budget : Float
  pub ignore_robots : Bool

abbrev pub config_of : Args → CrawlConfig
config_of args = record {
  concurrency = args.concurrency;
  timeout = args.timeout;
  max_pages = args.max_pages;
  max_bytes = args.max_bytes;
  request_budget = args.request_budget;
  respect_robots = not args.ignore_robots;
  max_seed_redirects = pos 5;
  failure_fuse = pos 20;
}

unfoldable pub checked_args : Args → Result (Text × CrawlConfig)
unfolding prepare_seed post_init
checked_args args = do
  seed ← prepare_seed args.url
  config ← post_init (config_of args)
  ok (seed, config)

-- How `await task` ends: the task returns or raises, is cancelled by a signal, or is left by Ctrl-C
-- where there are no signal handlers.
pub data Ending : Type 0 where
  ended : Result CrawlOutcome → Ending
  cancelled keyboard_interrupt : Ending

abbrev pub exit_aborted : Bool → ℕ
exit_aborted aborted = if aborted then 4 else 0

-- The `except` clauses of `main`, over what `_crawl` returns.
abbrev pub exit_code : Ending → ℕ
exit_code (ended (ok outcome)) = exit_aborted outcome.aborted
exit_code (ended (raise (seed_error message code))) = code
exit_code (ended (raise broken_pipe)) = 0
exit_code (ended (raise (value_error message))) = 1
exit_code (ended (raise (unexpected message))) = 1
exit_code cancelled = 130
exit_code keyboard_interrupt = 130

-- `parser.error` exits with 2.
abbrev pub exit_of : Result (Text × CrawlConfig) → (Text → CrawlConfig → Ending) → ℕ
exit_of (ok (seed, config)) crawl = exit_code (crawl seed config)
exit_of (raise e) crawl = 2

unfoldable pub main : Args → (Text → CrawlConfig → Ending) → ℕ
unfolding checked_args
main args crawl = exit_of (checked_args args) crawl
