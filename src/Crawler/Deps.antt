-- ===== src/Crawler/Deps.antt =====
-- What src/url_crawler/crawler.py is given: the `CrawlConfig` fields that it reads, the functions of
-- urls.py that it calls, the policy protocol of robots.py, and its constructor's collaborators.
use url_crawler.Base.{ℕ, List, Option, Bool, Text, Result, Exn}
use url_crawler.Models.{Fetched}

pub record HostScope : Type 0 where
  pub host : Text
  pub port : Option ℕ

-- Each of these raises `ValueError` on a text that `urlsplit` or `urljoin` refuses.
pub record UrlRules : Type 0 where
  pub normalize : Text → Option Text
  pub resolve_href : Text → Text → Result (Option Text)
  pub canonical_key : Text → Result Text
  pub scope_of : Text → Result HostScope
  pub scope_allows : HostScope → Text → Result Bool

-- `crawl_delay` in milliseconds.
pub record RobotsPolicy : Type 0 where
  pub crawl_delay : Option ℕ
  pub allows : Text → Result Bool

-- A validated configuration: `concurrency`, `max_pages` and `failure_fuse` are at least 1.
pub record CrawlConfig : Type 0 where
  pub concurrency : ℕ
  pub max_pages : Option ℕ
  pub respect_robots : Bool
  pub max_seed_redirects : ℕ
  pub failure_fuse : ℕ

-- The network and the output stream answer as they like: `fetch` gives what each seed URL's fetch
-- returns (no two of them have one key), and `page_raises n` what the n-th call of `reporter.page`
-- raises, if it does.
pub record Deps : Type 0 where
  pub urls : UrlRules
  pub config : CrawlConfig
  pub seed_guard : Option (Text → Option Text)
  pub robots_loader : Text → Result RobotsPolicy
  pub extract : Text → Text → Result (List Text)
  pub fetch : Text → Result Fetched
  pub page_raises : ℕ → Option Exn
