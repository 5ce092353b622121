-- ===== src/Repository/Listing.antt =====
-- src/url_crawler_service/repository.py: the two methods that list rows.
use url_crawler.Base.{
  ℕ, List, Option, none, some, Bool, true, false, ◌&&◌, ◌==◌, ltb, leb, select, take,
}
use url_crawler.Repository.Rows.{
  CrawlState, queued, running, finished, failed, aborted, CrawlRow, Page, Db, is_queued, is_running,
  order_by,
}
use url_crawler.Repository.Ordered.{by_key}

-- `Crawl.state == state.value`.
abbrev pub has_state : CrawlState → CrawlState → Bool
has_state queued s = is_queued s
has_state running s = is_running s
has_state finished finished = true
has_state failed failed = true
has_state aborted aborted = true
has_state _ _ = false

abbrev pub state_matches : Option CrawlState → CrawlState → Bool
state_matches none s = true
state_matches (some state) s = has_state state s

abbrev newer : CrawlRow → CrawlRow → Bool
newer r s = leb s.created_at r.created_at

unfoldable pub list_recent : Option CrawlState → ℕ → Db → List CrawlRow
unfolding order_by select
list_recent state limit db =
    take limit (order_by newer (select (λ r. state_matches state r.state) db.crawls))

abbrev pub seq_of : Page → ℕ
seq_of page = page.row.seq

-- All pages of a crawl after a number, in their order.
unfoldable pub pages_after : ℕ → ℕ → Db → List Page
unfolding order_by select
pages_after id after db =
    order_by (by_key seq_of)
      (select (λ page. page.crawl_id == id && ltb after page.row.seq) db.pages)

unfoldable pub list_pages : ℕ → ℕ → ℕ → Db → List Page
unfolding pages_after
list_pages id after limit db = take limit (pages_after id after db)
