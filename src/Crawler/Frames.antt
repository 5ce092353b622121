-- ===== src/Crawler/Frames.antt =====
-- What the loops of src/url_crawler/crawler.py leave alone: `_enqueue` changes the frontier and one
-- counter, and nothing else.
use url_crawler.Base.{List, [], ◌∷◌, Option, none, some, Text, arith, ◌≡◌}
use url_crawler.Models.{pages_total}
use url_crawler.Crawler.Deps.{Deps, HostScope}
use url_crawler.Crawler.State.{Crawl, continue-keeps}
use url_crawler.Crawler.Page.{enqueue_link, enqueue_each, enqueue_in, enqueue}

-- All but the frontier and `stats.duplicates_dropped`.
pub record SameButFrontier (c c' : Crawl) : Type 0 where
  pub scope : c'.scope ≡ c.scope
  pub robots : c'.robots ≡ c.robots
  pub claimed : c'.claimed ≡ c.claimed
  pub consecutive_failures : c'.consecutive_failures ≡ c.consecutive_failures
  pub stopping : c'.stopping ≡ c.stopping
  pub aborted : c'.aborted ≡ c.aborted
  pub reason : c'.reason ≡ c.reason
  pub total : pages_total c'.stats ≡ pages_total c.stats
  pub reported : c'.reported ≡ c.reported
  pub fetches : c'.fetches ≡ c.fetches

SameButFrontier-trans :
    {a b c : Crawl} → SameButFrontier a b → SameButFrontier b c → SameButFrontier a c
SameButFrontier-trans p q = ground arith

module _ (d : Deps) where
  enqueue_link-SameButFrontier :
      (scope : HostScope) (link : Text) (c : Crawl)
      → SameButFrontier c (enqueue_link d scope link c).1
  unfolding enqueue_link
  enqueue_link-SameButFrontier scope link c = ground arith

  pub enqueue_each-SameButFrontier :
      (scope : HostScope) (links : List Text) (c : Crawl)
      → SameButFrontier c (enqueue_each d scope links c).1
  unfolding enqueue_each
  enqueue_each-SameButFrontier scope [] c = ground arith
  enqueue_each-SameButFrontier scope (link ∷ links) c =
      continue-keeps (SameButFrontier c) (enqueue_link d scope link c)
        (λ _. enqueue_each d scope links) (enqueue_link-SameButFrontier scope link c)
        (λ _ c' h. SameButFrontier-trans h (enqueue_each-SameButFrontier scope links c'))

  enqueue_in-SameButFrontier :
      (here : Option HostScope) (links : List Text) (c : Crawl)
      → SameButFrontier c (enqueue_in d here links c).1
  unfolding enqueue_in pages_total
  enqueue_in-SameButFrontier none links c = ground arith
  enqueue_in-SameButFrontier (some scope) links c =
      continue-keeps (SameButFrontier c) (enqueue_each d scope links c) _
        (enqueue_each-SameButFrontier scope links c) (λ _ c' h. ground arith)

  pub enqueue-SameButFrontier :
      (links : List Text) (c : Crawl) → SameButFrontier c (enqueue d links c).1
  unfolding enqueue
  enqueue-SameButFrontier links c = enqueue_in-SameButFrontier c.scope links c
