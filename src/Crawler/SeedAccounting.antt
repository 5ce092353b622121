-- ===== src/Crawler/SeedAccounting.antt =====
-- The start of a crawl, in src/url_crawler/crawler.py, counts every page that it reports.
use url_crawler.Base.{List, Text, Result, ok, raise, arith, ◌≡◌, refl, length}
use url_crawler.Models.{FetchResult, fetched, pages_total, sum_values}
use url_crawler.Crawler.Deps.{Deps}
use url_crawler.Crawler.State.{Crawl, new}
use url_crawler.Crawler.Workers.{Move, pool_of}
use url_crawler.Crawler.Seed.{hop, admit, enter, prepare, left_by, run_leaves}
use url_crawler.Crawler.Preparation.{prepare-always}
use url_crawler.Crawler.Accounting.{IsCounted, handle-IsCounted, run_moves-IsCounted}

module _ (d : Deps) where
  hop-IsCounted :
      (url : Text) (r : FetchResult) (target : Text) (c : Crawl)
      → IsCounted c
      → IsCounted (hop d url r target c).1
  unfolding hop pages_total
  hop-IsCounted url r target c h = ground arith

  admit-IsCounted : (start url : Text) (c : Crawl) → IsCounted c → IsCounted (admit d start url c).1
  unfolding admit
  admit-IsCounted start url c h = ground arith

  enter-IsCounted : (seed : Text) → IsCounted (enter d seed new).1
  unfolding enter pages_total sum_values
  enter-IsCounted seed = ground arith

  prepare-IsCounted : (seed : Text) → IsCounted (prepare d seed new).1
  unfolding pages_total sum_values
  prepare-IsCounted =
      prepare-always d IsCounted (hop-IsCounted) enter-IsCounted admit-IsCounted
        (λ url r. handle-IsCounted d url (fetched r)) (λ c h. h) refl

  left_by-IsCounted :
      (x : Result (Unit {0}) × Crawl) (moves : List Move)
      → IsCounted x.1
      → IsCounted (left_by d x moves)
  left_by-IsCounted (ok _, c) moves h = run_moves-IsCounted d (pool_of d c) moves h
  left_by-IsCounted (raise x, c) moves h = h

  -- However `run` ends and under every schedule, an exception while the seed's chain is followed
  -- included: the total of the counters is the number of pages reported.
  pub run-counts_each_page :
      (seed : Text) (moves : List Move)
      → pages_total (run_leaves d seed moves).stats ≡ length (run_leaves d seed moves).reported
  unfolding run_leaves
  run-counts_each_page seed moves =
      left_by-IsCounted (prepare d seed new) moves (prepare-IsCounted seed)
