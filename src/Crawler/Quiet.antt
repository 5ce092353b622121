-- ===== src/Crawler/Quiet.antt =====
-- What `_handle` and `_worker`'s handler in src/url_crawler/crawler.py do not do.
use url_crawler.Base.{ℕ, List, false, Text, Result, ok, raise, arith, ◌≡◌}
use url_crawler.Models.{FetchResult, FetchError, Fetched, fetched, failed, PageResult}
use url_crawler.Crawler.Deps.{Deps}
use url_crawler.Crawler.State.{Crawl, continue-keeps, count_ok, count_failed, count_retries}
use url_crawler.Crawler.Page.{report, page_links, deliver, enqueue, check_fuse, handle, begin_page}
use url_crawler.Crawler.Frames.{enqueue-SameButFrontier}
use url_crawler.Crawler.Workers.{recover, after_fetch}

-- `_handle` fetches and claims nothing, and never starts a stopped crawl again.
pub record Quiet (c c' : Crawl) : Type 0 where
  pub fetches : c'.fetches ≡ c.fetches
  pub claimed : c'.claimed ≡ c.claimed
  pub scope : c'.scope ≡ c.scope
  pub robots : c'.robots ≡ c.robots
  pub stopping : c'.stopping ≡ false → c.stopping ≡ false

Quiet-trans : {a b c : Crawl} → Quiet a b → Quiet b c → Quiet a c
Quiet-trans p q = record {
  fetches = ground arith;
  claimed = ground arith;
  scope = ground arith;
  robots = ground arith;
  stopping = λ e. p.stopping (q.stopping e);
}

module _ (d : Deps) where
  report-Quiet : (result : PageResult) (c : Crawl) → Quiet c (report d result c).1
  unfolding report
  report-Quiet result c = ground arith

  check_fuse-Quiet : (n : ℕ) (error : FetchError) (c : Crawl) → Quiet c (check_fuse n error c)
  unfolding check_fuse
  check_fuse-Quiet n error c = ground arith

  page_links-Quiet : (url : Text) (r : FetchResult) (c : Crawl) → Quiet c (page_links d url r c).1
  unfolding page_links
  page_links-Quiet url r c = ground arith

  enqueue-Quiet : (links : List Text) (c : Crawl) → Quiet c (enqueue d links c).1
  enqueue-Quiet links c = ground (arith, enqueue-SameButFrontier d links c)

  deliver-Quiet :
      (url : Text) (r : FetchResult) (links : List Text) (c : Crawl)
      → Quiet c (deliver d url r links c).1
  unfolding deliver
  deliver-Quiet url r links c =
      continue-keeps (Quiet c) (report d _ (count_ok c)) _
        (Quiet-trans {b = count_ok c} (ground arith) (report-Quiet _ (count_ok c)))
        (λ _ c' h. Quiet-trans h (enqueue-Quiet links c'))

  pub handle-Quiet : (url : Text) (r : Fetched) (c : Crawl) → Quiet c (handle d url r c).1
  unfolding handle
  handle-Quiet url (failed error) c =
      continue-keeps (Quiet c)
        (report d _ (count_failed error.kind (count_retries error.attempts c))) _
        (Quiet-trans {b = count_failed error.kind (count_retries error.attempts c)} (ground arith)
          (report-Quiet _ (count_failed error.kind (count_retries error.attempts c))))
        (λ _ c' h. Quiet-trans h (check_fuse-Quiet d.config.failure_fuse error c'))
  handle-Quiet url (fetched r) c =
      continue-keeps (Quiet c) (page_links d url r (begin_page r c)) _
        (Quiet-trans {b = begin_page r c} (ground arith) (page_links-Quiet url r (begin_page r c)))
        (λ links c' h. Quiet-trans h (deliver-Quiet url r links c'))

  recover-Quiet : (url : Text) (x : Result (Unit {0}) × Crawl) → Quiet x.1 (recover d url x).1
  unfolding recover
  recover-Quiet url x = ground arith

  pub settled-Quiet :
      (url : Text) (r : Result Fetched) (c : Crawl)
      → Quiet c (recover d url (after_fetch d url r c)).1
  unfolding after_fetch
  settled-Quiet url (raise e) c = recover-Quiet url (raise e, c)
  settled-Quiet url (ok r) c =
      Quiet-trans (handle-Quiet url r c) (recover-Quiet url (handle d url r c))
