-- ===== src/Crawler/Accounting.antt =====
-- Every page that src/url_crawler/crawler.py reports is counted once.
use url_crawler.Base.{ℕ, suc, List, none, Text, Result, ok, raise, broken_pipe, arith, ◌≡◌, length}
use url_crawler.Models.{
  internal, FetchResult, Fetched, fetched, failed, PageResult, pages_total, sum_values-increment,
}
use url_crawler.Crawler.Deps.{Deps}
use url_crawler.Crawler.State.{Crawl, continue-keeps, count_ok, count_failed}
use url_crawler.Crawler.Page.{report, page_links, enqueue, handle, deliver, begin_page}
use url_crawler.Crawler.Workers.{
  Pool, Move, Stage, returned, delay, fetch, process, recover, after_fetch, finish, start,
  run_moves,
}
use url_crawler.Crawler.Schedules.{Change, took, locked, woke, got, run_moves-keeps}
use url_crawler.Crawler.Frames.{enqueue-SameButFrontier}

-- The counters' total is the number of calls of `reporter.page`.
abbrev pub IsCounted : Crawl → Type 0
IsCounted c = pages_total c.stats ≡ length c.reported

module _ (d : Deps) where
  enqueue-IsCounted :
      (links : List Text) (c : Crawl) → IsCounted c → IsCounted (enqueue d links c).1
  enqueue-IsCounted links c h = ground (arith, enqueue-SameButFrontier d links c)

  -- A report is due when the counters are one ahead.
  reported_page :
      (c : Crawl) (result : PageResult)
      → pages_total c.stats ≡ suc (length c.reported)
      → IsCounted (report d result c).1
  unfolding report
  reported_page c result h = ground arith

  page_links-IsCounted :
      (url : Text) (r : FetchResult) (c : Crawl) → IsCounted c → IsCounted (page_links d url r c).1
  unfolding page_links pages_total
  page_links-IsCounted url r c h = ground arith

  deliver-IsCounted :
      (url : Text) (r : FetchResult) (links : List Text) (c : Crawl)
      → IsCounted c
      → IsCounted (deliver d url r links c).1
  unfolding deliver pages_total
  deliver-IsCounted url r links c h =
      continue-keeps IsCounted (report d _ (count_ok c)) (λ _. enqueue d links)
        (reported_page (count_ok c) _ (omega arith)) (λ _. enqueue-IsCounted links)

  pub handle-IsCounted :
      (url : Text) (r : Fetched) (c : Crawl) → IsCounted c → IsCounted (handle d url r c).1
  unfolding handle pages_total
  handle-IsCounted url (failed error) c h =
      ground (arith, sum_values-increment error.kind c.stats.pages_failed)
  handle-IsCounted url (fetched r) c h =
      continue-keeps IsCounted (page_links d url r (begin_page r c)) (deliver d url r)
        (page_links-IsCounted url r (begin_page r c) (omega arith)) (deliver-IsCounted url r)

  pub process-IsCounted : (c : Crawl) → IsCounted c → IsCounted (process d c).1
  unfolding process
  process-IsCounted c h = ground arith

  pub recover-IsCounted :
      (url : Text) (r : Result (Unit {0})) (c : Crawl)
      → IsCounted c
      → IsCounted (recover d url (r, c)).1
  unfolding recover pages_total
  recover-IsCounted url (ok _) c h = h
  recover-IsCounted url (raise broken_pipe) c h = h
  recover-IsCounted url (raise e) c h =
      reported_page (count_failed internal c) _
        (omega (arith, sum_values-increment internal c.stats.pages_failed))

  after_fetch-IsCounted :
      (url : Text) (r : Result Fetched) (c : Crawl)
      → IsCounted c
      → IsCounted (after_fetch d url r c).1
  unfolding after_fetch
  after_fetch-IsCounted url (raise e) c h = h
  after_fetch-IsCounted url (ok r) c h = handle-IsCounted url r c h

  finish-IsCounted :
      (p : Pool) (x : Result (Unit {0}) × Crawl) → IsCounted x.1 → IsCounted (finish p x).crawl
  unfolding finish
  finish-IsCounted p x h = ground arith

  start-IsCounted :
      (i : ℕ) (p : Pool) (url : Text) (x : Stage × Crawl)
      → IsCounted x.1
      → IsCounted (start d i p url x).crawl
  unfolding start
  start-IsCounted i p url (returned, c) h = finish-IsCounted p (ok tt, c) h
  start-IsCounted i p url (delay, c) h = h
  start-IsCounted i p url (fetch, c) h = h

  Change-IsCounted :
      (p q : Pool) → IsCounted p.crawl → p.crashed ≡ none → Change d p q → IsCounted q.crawl
  Change-IsCounted p q h alive (took i url f e g) =
      start-IsCounted i p url _ (process-IsCounted (record p.crawl { frontier = f }) h)
  Change-IsCounted p q h alive (locked i url e free) = h
  Change-IsCounted p q h alive (woke i url e) = h
  Change-IsCounted p q h alive (got i url r e) =
      finish-IsCounted _ _ (recover-IsCounted url _ _ (after_fetch-IsCounted url r p.crawl h))

  -- Whatever the workers do, in any order, each result that is reported is counted once.
  pub run_moves-IsCounted :
      (p : Pool) (ms : List Move) → IsCounted p.crawl → IsCounted (run_moves d p ms).crawl
  run_moves-IsCounted = run_moves-keeps d (λ p. IsCounted p.crawl) Change-IsCounted
