-- ===== src/Config/Examples.antt =====
-- A configuration, as src/url_crawler/config.py checks it.
use url_crawler.Base.{some, true, Decided}
use url_crawler.Config.Floats.{pos, seconds}
use url_crawler.Config.{CrawlConfig, post_init}
use url_crawler.Config.Valid.{InRange, post_init-Decided}

abbrev ten_pages : CrawlConfig
ten_pages = record {
  concurrency = pos 8;
  timeout = seconds 10;
  max_pages = some (pos 10);
  max_bytes = pos 5000000;
  request_budget = seconds 60;
  respect_robots = true;
  max_seed_redirects = pos 5;
  failure_fuse = pos 50;
}

post_init-Decided_example : Decided (InRange ten_pages) (post_init ten_pages) ten_pages
post_init-Decided_example = post_init-Decided ten_pages
