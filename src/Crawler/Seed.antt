-- ===== src/Crawler/Seed.antt =====
-- src/url_crawler/crawler.py, the start of a crawl: `_fetch_seed`, `_follow_seed_redirects` and `run`.
use url_crawler.Base.{
  ℕ, zero, suc, ◌*◌, List, [], ◌∷◌, ◌++◌, Option, none, some, Bool, true, false, ◌&&◌, Text, Result,
  ok, raise, seed_error, codes, leb, ltb, if◌then◌else◌,
}
use url_crawler.Models.{FetchResult, Fetched, fetched, failed, CrawlStats, pages_total, kind_value}
use url_crawler.Frontier.{mark_key}
use url_crawler.Crawler.Deps.{Deps, RobotsPolicy}
use url_crawler.Crawler.State.{
  Crawl, M, continue, ◌>>=◌, ◌>>◌, pure, throw, lift, modify, count_retries, count_ok,
  count_redirect, allow_all, new,
}
use url_crawler.Crawler.Page.{report, redirect_target, handle}
use url_crawler.Crawler.Workers.{Pool, Move, start_fetch, run_moves, pool_of}

abbrev pub guard_reason : Option (Text → Option Text) → Text → Option Text
guard_reason none url = none
guard_reason (some guard) url = guard url

abbrev pub fetched_or_raise : Text × Fetched → Result (Text × FetchResult)
fetched_or_raise (url, fetched result) = ok (url, result)
fetched_or_raise (url, failed error) = raise (
    seed_error
      (codes "Could not fetch seed "
        ++ url
        ++ codes ": "
        ++ kind_value error.kind
        ++ codes " "
        ++ error.message)
      3)

abbrev pub claim_all : Crawl → Crawl
claim_all c = record c { claimed = pages_total c.stats }

module _ (d : Deps) where
  unfoldable pub fetch_seed : Text → M Fetched
  fetch_seed url c = elim (guard_reason d.seed_guard url) [
    | some reason ↦ (raise (seed_error (codes "seed rejected: " ++ reason) 3), c)
    | none ↦ (d.fetch url, start_fetch url c)
  ]

  -- `self._frontier.mark_seen(url)`.
  unfoldable pub mark_seen : Text → M Bool
  mark_seen url c = elim (d.urls.canonical_key url) [
    | raise e ↦ (raise e, c)
    | ok key ↦
        let marked = mark_key key c.frontier in (ok marked.0, record c { frontier = marked.1 })
  ]

  -- One hop: the counters, the report, the mark and the next fetch.
  unfoldable pub hop : Text → FetchResult → Text → M Fetched
  unfolding report mark_seen fetch_seed
  hop url result target = do
    modify (count_retries result.attempts)
    modify count_ok
    modify count_redirect
    report d (record { url = url; status = some result.status; links = target ∷ []; error = none })
    is_new ← mark_seen target
    if is_new
        then fetch_seed target
        else throw (seed_error (codes "seed redirect cycle at " ++ target) 3)

  -- The loop with `rounds` rounds left; the check that stands below it is the clause for `zero`.
  unfoldable pub walk : ℕ → Text → Fetched → M (Text × Fetched)
  unfolding hop redirect_target
  walk rounds url (failed error) c = (ok (url, failed error), c)
  walk zero url (fetched result) c = elim (redirect_target d url result) [
    | raise e ↦ (raise e, c)
    | ok none ↦ (ok (url, fetched result), c)
    | ok (some target) ↦ (raise (seed_error (codes "Seed redirected too many times") 3), c)
  ]
  walk (suc rounds) url (fetched result) c = elim (redirect_target d url result) [
    | raise e ↦ (raise e, c)
    | ok none ↦ (ok (url, fetched result), c)
    | ok (some target) ↦ continue (hop url result target c) (walk rounds target)
  ]

  -- The seed itself is marked, and fetched whatever the mark says.
  unfoldable pub enter : Text → M Fetched
  unfolding mark_seen fetch_seed
  enter seed c = continue (mark_seen seed c) (λ _. fetch_seed seed)

  unfoldable pub follow_seed_redirects : Text → M (Text × Fetched)
  unfolding enter walk
  follow_seed_redirects seed c = continue (enter seed c) (walk d.config.max_seed_redirects seed)

  -- `await self._robots_loader(url) if self._config.respect_robots else AllowAll()`.
  abbrev pub load_policy : Text → Result RobotsPolicy
  load_policy url = if d.config.respect_robots then d.robots_loader url else ok allow_all

  unfoldable pub require_allowed : Text → M (Unit {0})
  require_allowed url c = elim (c.robots.allows url) [
    | raise e ↦ (raise e, c)
    | ok true ↦ (ok tt, c)
    | ok false ↦ (
      raise (
          seed_error (codes "robots.txt disallows the seed URL; use --ignore-robots to override")
            3),
      c,
    )
  ]

  unfoldable pub anchor : Text → Text → M (Unit {0})
  anchor start url = do
    scope ← lift (d.urls.scope_of url)
    modify (λ c. record c { scope = some scope })
    started ← lift (d.urls.scope_of start)
    pure tt

  -- The scope and the policy; the second `scope_of` of `anchor` is for the log.
  unfoldable pub admit : Text → Text → M (Unit {0})
  unfolding anchor require_allowed
  admit start url = do
    anchor start url
    policy ← lift (load_policy url)
    modify (λ c. record c { robots = policy })
    require_allowed url

  -- What follows the seed's chain.
  unfoldable pub settle : Text → Text × FetchResult → M (Unit {0})
  unfolding admit handle
  settle start (url, result) c =
      continue (continue (admit start url c) (λ _. handle d url (fetched result)))
        (λ _. modify claim_all)

  unfoldable pub prepare_start : Text → M (Unit {0})
  unfolding follow_seed_redirects settle
  prepare_start start c =
      continue (continue (follow_seed_redirects start c) (λ landed. lift (fetched_or_raise landed)))
        (settle start)

  -- `run` up to its call of `_run_workers`.
  unfoldable pub prepare : Text → M (Unit {0})
  unfolding prepare_start
  prepare seed c = elim (d.urls.normalize seed) [
    | none ↦ (raise (seed_error (codes "Invalid seed URL: " ++ seed) 2), c)
    | some start ↦ prepare_start start c
  ]

pub record CrawlOutcome : Type 0 where
  pub pages : ℕ
  pub aborted : Bool
  pub reason : Option Text

abbrev pub outcome : Crawl → CrawlOutcome
outcome c = record { pages = pages_total c.stats; aborted = c.aborted; reason = c.reason }

-- `_warn_if_javascript_rendered` warns: more than nine pages in ten had no links, of fifty or more.
unfoldable pub warns_of_javascript : CrawlStats → Bool
warns_of_javascript stats =
    leb 50 stats.pages_ok && ltb (9 * stats.pages_ok) (10 * stats.pages_without_links)

module _ (d : Deps) where
  abbrev pub run_pool : Result (Unit {0}) × Crawl → List Move → Result Pool
  run_pool (raise e, c) moves = raise e
  run_pool (ok _, c) moves = ok (run_moves d (pool_of d c) moves)

  -- What the object holds when `run` is over, whether it has returned or raised.
  abbrev pub left_by : Result (Unit {0}) × Crawl → List Move → Crawl
  left_by (raise e, c) moves = c
  left_by (ok _, c) moves = (run_moves d (pool_of d c) moves).crawl

  unfoldable pub run_leaves : Text → List Move → Crawl
  unfolding prepare run_moves
  run_leaves seed moves = left_by (prepare d seed new) moves

  -- `run` on a fresh object, under a schedule; the crawl is over once the pool's queue is joined or
  -- the pool has crashed.
  unfoldable pub run : Text → List Move → Result Pool
  unfolding prepare run_moves
  run seed moves = run_pool (prepare d seed new) moves
