-- ===== src/Crawler/OnSite.antt =====
-- src/url_crawler/crawler.py stays on the site: from the seed's page on, under every schedule.
use url_crawler.Base.{
  ◌+◌, ◌≤◌, List, [], ◌++◌, Text, Result, ok, raise, arith, ◌≡◌, refl, sym, subst, length, All,
}
use url_crawler.Models.{FetchResult, fetched}
use url_crawler.Frontier.{Frontier, mark_key}
use url_crawler.Crawler.Deps.{Deps}
use url_crawler.Crawler.State.{Crawl, After, After-intro, new}
use url_crawler.Crawler.Page.{handle}
use url_crawler.Crawler.Growth.{Admitted, handle-Holds}
use url_crawler.Crawler.Chain.{Chain, prepare-Chain}
use url_crawler.Crawler.Workers.{Pool, Move, run_moves, pool_of}
use url_crawler.Crawler.Seed.{enter, hop, admit, prepare, run_pool, run}
use url_crawler.Crawler.Preparation.{prepare-keeps}
use url_crawler.Crawler.Allowed.{Fitting, add_key-Fits, run_moves-Fits}

module _ (d : Deps) where
  -- What is queued passes the crawl's own scope and policy.
  abbrev OnSite : Crawl → Type 0
  OnSite c = All (Admitted d c.scope c.robots) c.frontier.queue

  abbrev Unqueued : Crawl → Type 0
  Unqueued c = c.frontier.queue ≡ []

  hop-Unqueued :
      (url : Text) (r : FetchResult) (target : Text) (c : Crawl)
      → Unqueued c
      → After Unqueued (hop d url r target c)
  unfolding hop mark_key
  hop-Unqueued url r target c h = ground arith

  enter-Unqueued : (seed : Text) → After Unqueued (enter d seed new)
  unfolding enter mark_key
  enter-Unqueued seed = ground arith

  admit-Unqueued :
      (begun url : Text) (c : Crawl) → Unqueued c → After Unqueued (admit d begun url c)
  unfolding admit
  admit-Unqueued begun url c h = ground arith

  handle-OnSite :
      (url : Text) (r : FetchResult) (c : Crawl)
      → Unqueued c
      → After OnSite (handle d url (fetched r) c)
  handle-OnSite url r c h =
      let Q : Frontier → Type 0 = λ f. All (Admitted d c.scope c.robots) f.queue in
      let held =
        handle-Holds d c.scope c.robots Q
          (λ key link f a _. add_key-Fits d c.scope c.robots [] key link f a) url (fetched r) c
          (refl, refl, subst (All (Admitted d c.scope c.robots)) (sym h) tt) in
      After-intro OnSite (handle d url (fetched r) c) (rw (held.0, held.1) held.2)

  prepare-OnSite : (seed : Text) → After OnSite (prepare d seed new)
  prepare-OnSite =
      prepare-keeps d Unqueued hop-Unqueued OnSite OnSite enter-Unqueued admit-Unqueued
        handle-OnSite (λ c h. h)

  -- The fetches of a run: the chain's, and then only what its scope and its policy admit.
  abbrev pub FetchesOnSite : Crawl → Type 0
  FetchesOnSite c =
      (news chain : List Text) × (c.fetches ≡ news ++ chain)
      × (length chain ≤ d.config.max_seed_redirects + 1)
      × All (Admitted d c.scope c.robots) news

  run_pool-OnSite :
      (x : Result (Unit {0}) × Crawl) (moves : List Move) (p : Pool)
      → run_pool d x moves ≡ ok p
      → After OnSite x
      → After (Chain (d.config.max_seed_redirects + 1)) x
      → FetchesOnSite p.crawl
  run_pool-OnSite (ok _, c) moves p e h chain =
      let e' : run_moves d (pool_of d c) moves ≡ p = ground arith in
      let start : Fitting d c.scope c.robots c.fetches c = record {
        scope = refl;
        policy = refl;
        queued = h;
        made = ([], refl, tt);
      } in
      let f = run_moves-Fits d c.scope c.robots c.fetches c moves start in
      rw (← e') (f.made.0, c.fetches, f.made.1, chain, rw (f.scope, f.policy) f.made.2)
  run_pool-OnSite (raise x, c) moves p e h chain = cc

  -- In every run, under every schedule, each fetch after the seed's chain is of a URL that the final
  -- host scope and the robots policy both allow; the chain is `max_seed_redirects + 1` fetches at most.
  pub run-FetchesOnSite :
      (seed : Text) (moves : List Move) (p : Pool) → run d seed moves ≡ ok p → FetchesOnSite p.crawl
  unfolding run
  run-FetchesOnSite seed moves p e =
      run_pool-OnSite (prepare d seed new) moves p e (prepare-OnSite seed) (prepare-Chain d seed)
