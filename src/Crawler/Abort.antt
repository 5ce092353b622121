-- ===== src/Crawler/Abort.antt =====
-- When a run of src/url_crawler/crawler.py is aborted.
use url_crawler.Base.{ℕ, ◌≤◌, List, [], ◌∷◌, none, true, Text, Result, ok, raise, arith, ◌≡◌}
use url_crawler.Models.{FetchResult, fetched}
use url_crawler.Crawler.Deps.{Deps}
use url_crawler.Crawler.State.{Crawl, After, After-intro, new}
use url_crawler.Crawler.Page.{handle}
use url_crawler.Crawler.Preparation.{prepare-keeps}
use url_crawler.Crawler.Workers.{Pool, Move, run_moves, pool_of}
use url_crawler.Crawler.Seed.{enter, hop, admit, prepare, run_pool, run}
use url_crawler.Crawler.Fuse.{trailing, burnt, observed, Fused, handle-Agrees, run_moves-Agrees}

module _ (d : Deps) (writes : (n : ℕ) → d.page_raises n ≡ none)
    (fuse : 1 ≤ d.config.failure_fuse) where
  abbrev Fresh : Crawl → Type 0
  Fresh = Fused d.config.failure_fuse []

  hop-Fresh :
      (url : Text) (r : FetchResult) (target : Text) (c : Crawl)
      → Fresh c
      → After Fresh (hop d url r target c)
  unfolding hop
  hop-Fresh url r target c h = ground arith

  enter-Fresh : (seed : Text) → After Fresh (enter d seed new)
  unfolding enter trailing burnt
  enter-Fresh seed = ground arith

  admit-Fresh : (begun url : Text) (c : Crawl) → Fresh c → After Fresh (admit d begun url c)
  unfolding admit
  admit-Fresh begun url c h = ground arith

  page-Fresh :
      (r : FetchResult) (c : Crawl) → Fused d.config.failure_fuse (fetched r ∷ []) c → Fresh c
  unfolding trailing burnt
  page-Fresh r c h = ground arith

  handle-Fresh :
      (url : Text) (r : FetchResult) (c : Crawl)
      → Fresh c
      → After Fresh (handle d url (fetched r) c)
  handle-Fresh url r c h =
      After-intro Fresh (handle d url (fetched r) c)
        (page-Fresh r _ (handle-Agrees d writes fuse [] url (fetched r) c h))

  -- The seed's page is a success, so the workers start with no failure counted.
  prepare-Fresh : (seed : Text) → After Fresh (prepare d seed new)
  prepare-Fresh =
      prepare-keeps d Fresh hop-Fresh Fresh Fresh enter-Fresh admit-Fresh handle-Fresh
        (λ c h. ground arith)

  run_pool-Agrees :
      (x : Result (Unit {0}) × Crawl) (moves : List Move) (p : Pool)
      → run_pool d x moves ≡ ok p
      → After Fresh x
      → Fused d.config.failure_fuse (observed d (pool_of d x.1) moves []) p.crawl
  run_pool-Agrees (ok _, c) moves p e h =
      let e' : run_moves d (pool_of d c) moves ≡ p = ground arith in
      rw (← e') (run_moves-Agrees d writes fuse moves [] (pool_of d c) h)
  run_pool-Agrees (raise x, c) moves p e h = cc

  -- The pool with which a seed's workers start.
  abbrev pub pool_after : Text → Pool
  pool_after seed = pool_of d (prepare d seed new).1

  -- While the reporter writes, a run under any schedule is aborted exactly when, at some point of the
  -- fetches that returned to its workers, `failure_fuse` failures that count stood since the last
  -- fetched page; and a run that is aborted is stopping.
  pub run-aborted_iff_burnt :
      (seed : Text) (moves : List Move) (p : Pool)
      → run d seed moves ≡ ok p
      → (p.crawl.aborted ≡ burnt d.config.failure_fuse (observed d (pool_after seed) moves []))
        × (p.crawl.aborted ≡ true → p.crawl.stopping ≡ true)
  unfolding run
  run-aborted_iff_burnt seed moves p e =
      let f = run_pool-Agrees (prepare d seed new) moves p e (prepare-Fresh seed) in
      (f.aborted, f.stopped)
