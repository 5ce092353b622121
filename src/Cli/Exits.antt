-- ===== src/Cli/Exits.antt =====
-- The exit code of src/url_crawler/cli.py for a crawl of src/url_crawler/crawler.py.
use url_crawler.Base.{ℕ, ◌≤◌, List, [], none, Text, ok, ◌>>=◌, ◌≡◌, ap}
use url_crawler.Config.{CrawlConfig}
use url_crawler.Crawler.Deps.{Deps}
use url_crawler.Crawler.Workers.{Pool, Move}
use url_crawler.Crawler.Seed.{outcome, run}
use url_crawler.Crawler.Fuse.{burnt, observed}
use url_crawler.Crawler.Abort.{pool_after, run-aborted_iff_burnt}
use url_crawler.Cli.{Args, checked_args, Ending, ended, exit_aborted, main}

-- The crawl of a schedule, as `_crawl` awaits it.
abbrev pub crawl_by : Deps → List Move → Text → CrawlConfig → Ending
crawl_by d moves seed config = ended (run d seed moves >>= λ p. ok (outcome p.crawl))

module _ (d : Deps) (writes : (n : ℕ) → d.page_raises n ≡ none)
    (fuse : 1 ≤ d.config.failure_fuse) where
  -- With arguments that are accepted, and while the reporter writes, a run under any schedule ends the
  -- program with 4 if at some point `failure_fuse` failures that count stood since the last fetched
  -- page, and with 0 otherwise.
  pub main-exit_aborted :
      (args : Args) (config : CrawlConfig) (seed : Text) (moves : List Move) (p : Pool)
      → checked_args args ≡ ok (seed, config)
      → run d seed moves ≡ ok p
      → main args (crawl_by d moves)
        ≡ exit_aborted
            (burnt d.config.failure_fuse (observed d (pool_after d writes fuse seed) moves []))
  unfolding main
  main-exit_aborted args config seed moves p a e =
      rw (main, a, e) (ap exit_aborted (run-aborted_iff_burnt d writes fuse seed moves p e).0)
