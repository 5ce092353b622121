-- ===== src/Crawler/Bookkeeping.antt =====
-- The queue's count of unfinished tasks in src/url_crawler/crawler.py and frontier.py, on which `join`
-- waits.
use url_crawler.Base.{
  ℕ, suc, ◌+◌, List, [], ◌∷◌, none, some, true, Text, Result, ok, raise, arith, ◌≡◌, ◌↔◌, refl, All,
  length, length-append, get_elem?, set,
}
use url_crawler.Models.{FetchResult, Fetched, fetched}
use url_crawler.Frontier.{Frontier, joined, add_key, mark_key, get, task_done}
use url_crawler.Crawler.Deps.{Deps}
use url_crawler.Crawler.State.{Crawl, After, After-intro, new}
use url_crawler.Crawler.Page.{handle}
use url_crawler.Crawler.Workers.{
  Task, idle, waiting, sleeping, fetching, Pool, Move, Stage, returned, delay, fetch, process,
  recover, after_fetch, finish, start, run_moves, pool_of,
}
use url_crawler.Crawler.Seed.{enter, hop, admit, prepare, run_pool, run}
use url_crawler.Crawler.Tasks.{total, total-set, total-replicate}
use url_crawler.Crawler.Growth.{handle-Holds, settled-Holds}
use url_crawler.Crawler.Preparation.{prepare-keeps}
use url_crawler.Crawler.Schedules.{Change, took, locked, woke, got, run_moves-keeps}

-- 1 for a worker that has taken a URL and not finished it.
abbrev pub busy : Task → ℕ
busy idle = 0
busy _ = 1

abbrev Owes : ℕ → Frontier → Type 0
Owes n f = f.unfinished ≡ length f.queue + n

abbrev Queued : Crawl → Type 0
Queued c = Owes 0 c.frontier

-- Each unfinished task is in the queue or with a worker.
abbrev pub IsBalanced : Pool → Type 0
IsBalanced p = Owes (total busy p.tasks) p.crawl.frontier

Owes-add_key : (n : ℕ) (key url : Text) (f : Frontier) → Owes n f → Owes n (add_key key url f).1
unfolding add_key
Owes-add_key n key url f h = ground (arith, length-append f.queue (url ∷ []))

Owes-get :
    (n : ℕ) (f f' : Frontier) (url : Text) → get f ≡ some (url, f') → Owes n f → Owes (suc n) f'
unfolding get
Owes-get n f f' url e h = ground arith

finish-Owes :
    (n : ℕ) (p : Pool) (x : Result (Unit {0}) × Crawl)
    → Owes (suc n) x.1.frontier
    → Owes n (finish p x).crawl.frontier
unfolding finish task_done
finish-Owes n p x h = ground arith

pub finish-tasks : (p : Pool) (x : Result (Unit {0}) × Crawl) → (finish p x).tasks ≡ p.tasks
unfolding finish
finish-tasks p x = ground arith

module _ (d : Deps) where
  handle-Owes :
      (n : ℕ) (url : Text) (r : FetchResult) (c : Crawl)
      → Owes n c.frontier
      → Owes n (handle d url (fetched r) c).1.frontier
  handle-Owes n url r c h =
      (handle-Holds d c.scope c.robots (Owes n) (λ key link f _ _. Owes-add_key n key link f) url
        (fetched r) c (refl, refl, h)).2

  settled-Owes :
      (n : ℕ) (url : Text) (r : Result Fetched) (c : Crawl)
      → Owes n c.frontier
      → Owes n (recover d url (after_fetch d url r c)).1.frontier
  settled-Owes n url r c h =
      (settled-Holds d c.scope c.robots (Owes n) (λ key link f _ _. Owes-add_key n key link f) url r
        c (refl, refl, h)).2

  pub process-frontier : (c : Crawl) → (process d c).1.frontier ≡ c.frontier
  unfolding process
  process-frontier c = ground arith

  start-IsBalanced :
      (i : ℕ) (p : Pool) (url : Text) (x : Stage × Crawl)
      → get_elem? p.tasks i ≡ some idle
      → Owes (suc (total busy p.tasks)) x.1.frontier
      → IsBalanced (start d i p url x)
  unfolding start
  start-IsBalanced i p url (returned, c) e h =
      rw (finish-tasks p (ok tt, c)) (finish-Owes (total busy p.tasks) p (ok tt, c) h)
  start-IsBalanced i p url (delay, c) e h =
      omega (arith, total-set busy p.tasks i idle (waiting url) e)
  start-IsBalanced i p url (fetch, c) e h =
      omega (arith, total-set busy p.tasks i idle (fetching url) e)

  Change-IsBalanced : (p q : Pool) → IsBalanced p → p.crashed ≡ none → Change d p q → IsBalanced q
  Change-IsBalanced p q h alive (took i url f e g) =
      start-IsBalanced i p url (process d (record p.crawl { frontier = f })) e (
        rw (process-frontier (record p.crawl { frontier = f }))
          (Owes-get (total busy p.tasks) p.crawl.frontier f url g h))
  Change-IsBalanced p q h alive (locked i url e free) =
      omega (arith, total-set busy p.tasks i (waiting url) (sleeping url) e)
  Change-IsBalanced p q h alive (woke i url e) =
      omega (arith, total-set busy p.tasks i (sleeping url) (fetching url) e)
  Change-IsBalanced p q h alive (got i url r e) =
      let p' = record p { tasks = set p.tasks i idle } in
      let x = recover d url (after_fetch d url r p.crawl) in
      let owed : Owes (total busy p.tasks) x.1.frontier =
        settled-Owes (total busy p.tasks) url r p.crawl h in
      rw (finish-tasks p' x) (
        finish-Owes (total busy p'.tasks) p' x
          (omega (arith, total-set busy p.tasks i (fetching url) idle e)))

  enter-Owes : (seed : Text) → Owes 0 (enter d seed new).1.frontier
  unfolding enter mark_key
  enter-Owes seed = ground arith

  hop-Owes :
      (url : Text) (r : FetchResult) (target : Text) (c : Crawl)
      → Owes 0 c.frontier
      → Owes 0 (hop d url r target c).1.frontier
  unfolding hop mark_key
  hop-Owes url r target c h = ground arith

  admit-Owes :
      (begun url : Text) (c : Crawl) → Owes 0 c.frontier → Owes 0 (admit d begun url c).1.frontier
  unfolding admit
  admit-Owes begun url c h = ground arith

  -- The crawl that the workers find: each unfinished task is a URL in the queue.
  prepare-Owes : (seed : Text) → After Queued (prepare d seed new)
  prepare-Owes =
      prepare-keeps d Queued
        (λ url r t c h. After-intro Queued (hop d url r t c) (hop-Owes url r t c h)) Queued Queued
        (λ seed. After-intro Queued (enter d seed new) (enter-Owes seed))
        (λ begun url c h. After-intro Queued (admit d begun url c) (admit-Owes begun url c h))
        (λ url r c h. After-intro Queued (handle d url (fetched r) c) (handle-Owes 0 url r c h))
        (λ _ h. h)

  run_pool-IsBalanced :
      (x : Result (Unit {0}) × Crawl) (moves : List Move) (p : Pool)
      → run_pool d x moves ≡ ok p
      → After Queued x
      → IsBalanced p
  run_pool-IsBalanced (ok _, c) moves p e h =
      let e' : run_moves d (pool_of d c) moves ≡ p = ground arith in
      rw (← e') (
        run_moves-keeps d IsBalanced Change-IsBalanced (pool_of d c) moves
          (omega (arith, total-replicate busy d.config.concurrency idle refl)))
  run_pool-IsBalanced (raise x, c) moves p e h = cc

abbrev pub IsIdle : Task → Type 0
IsIdle t = t ≡ idle

none_busy : (ts : List Task) → total busy ts ≡ 0 → All IsIdle ts
unfolding total
none_busy [] h = tt
none_busy (idle ∷ ts) h = (refl, none_busy ts (omega arith))
none_busy (waiting url ∷ ts) h = absurd (omega arith)
none_busy (sleeping url ∷ ts) h = absurd (omega arith)
none_busy (fetching url ∷ ts) h = absurd (omega arith)

idle_total : (ts : List Task) → All IsIdle ts → total busy ts ≡ 0
unfolding total
idle_total [] h = refl
idle_total (t ∷ ts) h = rw h.0 (omega (arith, idle_total ts h.1))

module _ (d : Deps) where
  -- In every run, under every schedule, `join` returns exactly when the queue is empty and every
  -- worker waits on it, so no URL is left behind and none is in progress.
  pub run-joined_iff :
      (seed : Text) (moves : List Move) (p : Pool)
      → run d seed moves ≡ ok p
      → (joined p.crawl.frontier ≡ true) ↔ ((p.crawl.frontier.queue ≡ []) × All IsIdle p.tasks)
  unfolding run
  run-joined_iff seed moves p e = (there, back)
    where
      balanced : IsBalanced p
      balanced = run_pool-IsBalanced d (prepare d seed new) moves p e (prepare-Owes d seed)

      there : joined p.crawl.frontier ≡ true → (p.crawl.frontier.queue ≡ []) × All IsIdle p.tasks
      there j = (ground (arith, balanced), none_busy p.tasks (ground (arith, balanced)))

      back : (p.crawl.frontier.queue ≡ []) × All IsIdle p.tasks → joined p.crawl.frontier ≡ true
      back h = ground (arith, balanced, idle_total p.tasks h.1)
