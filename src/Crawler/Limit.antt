-- ===== src/Crawler/Limit.antt =====
-- How many pages src/url_crawler/crawler.py fetches: `max_pages` and `max_seed_redirects`.
use url_crawler.Crawler.Chain.{Chain, prepare-Chain}
use url_crawler.Base.{
  ℕ, suc, ◌+◌, ◌≤◌, max, List, some, Text, Result, ok, raise, arith, ◌≡◌, refl, length, get_elem?,
  set,
}
use url_crawler.Crawler.Deps.{Deps}
use url_crawler.Crawler.State.{Crawl, After, new}
use url_crawler.Crawler.Quiet.{settled-Quiet}
use url_crawler.Crawler.Claims.{Claimed, prepare-Claimed}
use url_crawler.Crawler.Workers.{
  Task, idle, waiting, sleeping, fetching, Pool, Move, Stage, returned, delay, fetch, process,
  recover, after_fetch, finish, start, run_moves, pool_of,
}
use url_crawler.Crawler.Seed.{prepare, run_pool, run}
use url_crawler.Crawler.Tasks.{total, total-set, total-replicate}
use url_crawler.Crawler.Bookkeeping.{finish-tasks}
use url_crawler.Crawler.Schedules.{Change, took, locked, woke, got, run_moves-keeps}

-- 1 for a worker that has claimed a page and not yet called `fetch`.
abbrev delayed : Task → ℕ
delayed (waiting url) = 1
delayed (sleeping url) = 1
delayed _ = 0

finish-claims :
    (p : Pool) (x : Result (Unit {0}) × Crawl)
    → ((finish p x).crawl.claimed ≡ x.1.claimed) × ((finish p x).crawl.fetches ≡ x.1.fetches)
unfolding finish
finish-claims p x = ground arith

module _ (d : Deps) (m : ℕ) (limit : d.config.max_pages ≡ some m) (bound : ℕ)
    (wide : m ≤ bound) where
  -- Each claim is a fetch, made or to come, and the claims stay within the bound.
  record Within (p : Pool) : Type 0 where
    spent : length p.crawl.fetches + total delayed p.tasks ≡ p.crawl.claimed
    within : p.crawl.claimed ≤ bound

  -- `_process` returns with no claim, or claims one page within the bound.
  abbrev Takes : Crawl → Stage × Crawl → Type 0
  Takes b (returned, c) = (c.claimed ≡ b.claimed) × (c.fetches ≡ b.fetches)
  Takes b (_, c) = (c.claimed ≡ suc b.claimed) × (c.claimed ≤ bound) × (c.fetches ≡ b.fetches)

  process-Takes : (c : Crawl) → Takes c (process d c)
  unfolding process
  process-Takes c = ground arith

  start-Within :
      (i : ℕ) (p : Pool) (url : Text) (x : Stage × Crawl)
      → get_elem? p.tasks i ≡ some idle
      → Takes p.crawl x
      → Within p
      → Within (start d i p url x)
  unfolding start
  start-Within i p url (returned, c) e t h =
      ground (arith, finish-tasks p (ok tt, c), finish-claims p (ok tt, c))
  start-Within i p url (delay, c) e t h =
      ground (arith, total-set delayed p.tasks i idle (waiting url) e)
  start-Within i p url (fetch, c) e t h =
      ground (arith, total-set delayed p.tasks i idle (fetching url) e)

  Change-Within : (p q : Pool) → Within p → Change d p q → Within q
  Change-Within p q h (took i url f e g) =
      start-Within i p url _ e (process-Takes (record p.crawl { frontier = f })) h
  Change-Within p q h (locked i url e free) =
      ground (arith, total-set delayed p.tasks i (waiting url) (sleeping url) e)
  Change-Within p q h (woke i url e) =
      ground (arith, total-set delayed p.tasks i (sleeping url) (fetching url) e)
  Change-Within p q h (got i url r e) =
      let p' = record p { tasks = set p.tasks i idle } in
      let x = recover d url (after_fetch d url r p.crawl) in
      ground (
        arith,
        finish-tasks p' x,
        finish-claims p' x,
        settled-Quiet d url r p.crawl,
        total-set delayed p.tasks i (fetching url) idle e,
      )

  run_moves-Within :
      (c : Crawl) (moves : List Move)
      → Claimed c
      → c.claimed ≤ bound
      → Within (run_moves d (pool_of d c) moves)
  run_moves-Within c moves e h =
      run_moves-keeps d Within (λ p q w _. Change-Within p q w) (pool_of d c) moves
        (ground (arith, total-replicate delayed d.config.concurrency idle refl))

run_pool-Within :
    (d : Deps) (m : ℕ) (x : Result (Unit {0}) × Crawl) (moves : List Move) (p : Pool)
    → d.config.max_pages ≡ some m
    → run_pool d x moves ≡ ok p
    → After Claimed x
    → After (Chain (d.config.max_seed_redirects + 1)) x
    → length p.crawl.fetches ≤ max m (d.config.max_seed_redirects + 1)
run_pool-Within d m (ok _, c) moves p limit e h chain =
    let bound = max m (d.config.max_seed_redirects + 1) in
    let e' : run_moves d (pool_of d c) moves ≡ p = ground arith in
    let w = run_moves-Within d m limit bound (omega arith) c moves h (omega arith) in
    rw (← e') (omega (arith, w))
run_pool-Within d m (raise x, c) moves p limit e h chain = cc

-- With a page limit, a run under any schedule calls `fetch` at most as often as the limit says, or as
-- the seed's chain may, whichever is more.
pub run-fetches_le_limit :
    (d : Deps) (m : ℕ) (seed : Text) (moves : List Move) (p : Pool)
    → d.config.max_pages ≡ some m
    → run d seed moves ≡ ok p
    → length p.crawl.fetches ≤ max m (d.config.max_seed_redirects + 1)
unfolding run
run-fetches_le_limit d m seed moves p limit e =
    run_pool-Within d m (prepare d seed new) moves p limit e (prepare-Claimed d seed)
      (prepare-Chain d seed)
