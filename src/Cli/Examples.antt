-- ===== src/Cli/Examples.antt =====
-- The exit code of a crawl of a small site by src/url_crawler/cli.py.
use url_crawler.Urls.{prepare_seed}
use url_crawler.Cli.Options.{
  Namespace, default_namespace, is_quiet, is_verbose, format_is, checked_args-parse_args,
  parse_from,
}
use url_crawler.Base.{
  [], none, some, false, ok, ◌≡◌, refl, codes, arith, text_eq, has, any, decimal, Text, Option, ◌∷◌,
  true,
}
use url_crawler.Models.{Fetched, fetched, increment, sum_values, pages_total}
use url_crawler.Config.Floats.{pos, seconds, int_lt, float_le, float_lt, ℤ, Float}
use url_crawler.Crawler.Deps.{Deps}
use url_crawler.Crawler.State.{new, allow_all}
use url_crawler.Crawler.Workers.{Pool, run_moves, pool_of}
use url_crawler.Crawler.Seed.{prepare, run}
use url_crawler.Crawler.Fuse.{burnt, observed}
use url_crawler.Crawler.Abort.{pool_after}
use url_crawler.Frontier.{mark_key}
use url_crawler.Cli.{Args, config_of, checked_args, exit_aborted, main}
use url_crawler.Cli.Exits.{crawl_by, main-exit_aborted}

abbrev page : Fetched
page =
    fetched (record {
      url = [];
      status = 200;
      body = [];
      content_type = [];
      location = none;
      attempts = 1;
    })

abbrev site : Deps
site = record {
  urls = record {
    normalize = λ url. some url;
    resolve_href = λ href base. ok (some href);
    canonical_key = λ url. ok url;
    scope_of = λ url. ok (record { host = []; port = none });
    scope_allows = λ scope url. ok false;
  };
  config = record {
    concurrency = 1;
    max_pages = none;
    respect_robots = false;
    max_seed_redirects = 5;
    failure_fuse = 20;
  };
  seed_guard = none;
  robots_loader = λ url. ok allow_all;
  extract = λ body url. ok [];
  fetch = λ url. ok page;
  page_raises = λ n. none;
}

abbrev args : Args
args = record {
  url = codes "http://a.org/";
  concurrency = pos 1;
  timeout = seconds 10;
  max_pages = none;
  max_bytes = pos 5000000;
  request_budget = seconds 60;
  ignore_robots = false;
}

accepted : checked_args args ≡ ok (codes "http://a.org/", config_of args)
unfolding checked_args text_eq int_lt float_le float_lt
accepted = refl

final : Pool
unfolding pages_total sum_values run text_eq has any increment mark_key decimal
final = run_moves site (pool_of site (prepare site (codes "http://a.org/") new).1) []

run-final : run site (codes "http://a.org/") [] ≡ ok final
unfolding final
run-final = refl

aborted_exit :
    main args (crawl_by site [])
    ≡ exit_aborted (
        burnt 20
          (observed site (pool_after site (λ n. refl) (omega arith) (codes "http://a.org/")) [] []))
aborted_exit =
    main-exit_aborted site (λ n. refl) (omega arith) args (config_of args) (codes "http://a.org/")
      [] final accepted run-final

abbrev no_int : Text → Option ℤ
no_int raw = none

abbrev no_float : Text → Option Float
no_float raw = none

abbrev shown_quietly : Namespace
shown_quietly = record (default_namespace (codes "a.org")) {
  display = record { quiet = true; verbose = 2 };
  format = codes "jsonl";
}

options_accepted :
    checked_args shown_quietly.args ≡ ok (codes "https://a.org", config_of shown_quietly.args)
unfolding text_eq parse_from prepare_seed
options_accepted =
    checked_args-parse_args no_int no_float (codes "a.org") (codes "https://a.org")
      (is_quiet ∷ is_verbose ∷ format_is (codes "jsonl") ∷ is_verbose ∷ []) shown_quietly
      (tt, (tt, (tt, (tt, tt)))) refl refl
