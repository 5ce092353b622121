-- ===== src/Crawler/Claims.antt =====
-- What src/url_crawler/crawler.py has claimed when its workers start.
use url_crawler.Base.{suc, List, Text, arith, ◌≡◌, length}
use url_crawler.Models.{FetchResult, fetched, pages_total, sum_values}
use url_crawler.Crawler.Deps.{Deps}
use url_crawler.Crawler.State.{
  Crawl, After, After-intro, continue-keeps, continue-After, new, count_ok,
}
use url_crawler.Crawler.Page.{report, page_links, deliver, enqueue, handle, begin_page}
use url_crawler.Crawler.Frames.{enqueue-SameButFrontier}
use url_crawler.Crawler.Seed.{enter, hop, admit, prepare}
use url_crawler.Crawler.Preparation.{prepare-keeps}

abbrev pub Claimed : Crawl → Type 0
Claimed c = c.claimed ≡ length c.fetches

module _ (d : Deps) where
  abbrev Deliver : Crawl → Type 0
  Deliver c = suc (pages_total c.stats) ≡ length c.fetches

  abbrev Delivered : Crawl → Type 0
  Delivered c = pages_total c.stats ≡ length c.fetches

  -- `Deliver` before the page of the last fetch is handled, `Delivered` after.
  page_links-Deliver :
      (url : Text) (r : FetchResult) (c : Crawl) → Deliver c → Deliver (page_links d url r c).1
  unfolding page_links pages_total
  page_links-Deliver url r c h = ground arith

  enqueue-Delivered :
      (links : List Text) (c : Crawl) → Delivered c → Delivered (enqueue d links c).1
  enqueue-Delivered links c h = ground (arith, enqueue-SameButFrontier d links c)

  deliver-Delivered :
      (url : Text) (r : FetchResult) (links : List Text) (c : Crawl)
      → Deliver c
      → Delivered (deliver d url r links c).1
  unfolding deliver pages_total
  deliver-Delivered url r links c h =
      continue-keeps Delivered (report d _ (count_ok c)) (λ _. enqueue d links) (ground arith)
        (λ _. enqueue-Delivered links)

  handle-Delivered :
      (url : Text) (r : FetchResult) (c : Crawl)
      → Deliver c
      → After Delivered (handle d url (fetched r) c)
  unfolding handle pages_total
  handle-Delivered url r c h =
      continue-After Deliver Delivered (page_links d url r (begin_page r c)) (deliver d url r)
        (After-intro Deliver (page_links d url r (begin_page r c))
          (page_links-Deliver url r (begin_page r c) (omega arith)))
        (λ links c' h'.
          After-intro Delivered (deliver d url r links c') (deliver-Delivered url r links c' h'))

  hop-Deliver :
      (url : Text) (r : FetchResult) (target : Text) (c : Crawl)
      → Deliver c
      → After Deliver (hop d url r target c)
  unfolding hop pages_total
  hop-Deliver url r target c h = ground arith

  enter-Deliver : (seed : Text) → After Deliver (enter d seed new)
  unfolding enter pages_total sum_values
  enter-Deliver seed = ground arith

  admit-Deliver : (begun url : Text) (c : Crawl) → Deliver c → After Deliver (admit d begun url c)
  unfolding admit
  admit-Deliver begun url c h = ground arith

  -- When the workers start, each page claimed is a fetch of the seed's chain.
  pub prepare-Claimed : (seed : Text) → After Claimed (prepare d seed new)
  prepare-Claimed =
      prepare-keeps d Deliver hop-Deliver Delivered Claimed enter-Deliver admit-Deliver
        handle-Delivered (λ c h. h)
