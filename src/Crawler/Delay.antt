-- ===== src/Crawler/Delay.antt =====
-- The crawl delay of src/url_crawler/crawler.py is kept by one worker at a time.
use url_crawler.Base.{
  ℕ, ◌≤◌, List, [], ◌∷◌, some, false, Text, ok, arith, ◌≡◌, refl, any, get_elem?, set,
}
use url_crawler.Crawler.Deps.{Deps}
use url_crawler.Crawler.State.{Crawl}
use url_crawler.Crawler.Workers.{
  Task, idle, waiting, sleeping, fetching, Pool, Move, Stage, returned, delay, fetch, recover,
  after_fetch, start, run_moves, pool_of, is_sleeping,
}
use url_crawler.Crawler.Tasks.{total, total-set, total-replicate}
use url_crawler.Crawler.Bookkeeping.{finish-tasks}
use url_crawler.Crawler.Schedules.{Change, took, locked, woke, got, run_moves-keeps}

-- 1 for a worker in its delay, with the lock held.
abbrev pub asleep : Task → ℕ
asleep (sleeping url) = 1
asleep _ = 0

asleep-zero : (ts : List Task) → any is_sleeping ts ≡ false → total asleep ts ≡ 0
unfolding any total
asleep-zero [] h = refl
asleep-zero (idle ∷ ts) h = omega (arith, asleep-zero ts h)
asleep-zero (waiting url ∷ ts) h = omega (arith, asleep-zero ts h)
asleep-zero (fetching url ∷ ts) h = omega (arith, asleep-zero ts h)
asleep-zero (sleeping url ∷ ts) h = cc

abbrev OneSleeps : Pool → Type 0
OneSleeps p = total asleep p.tasks ≤ 1

module _ (d : Deps) where
  start-OneSleeps :
      (i : ℕ) (p : Pool) (url : Text) (x : Stage × Crawl)
      → get_elem? p.tasks i ≡ some idle
      → OneSleeps p
      → OneSleeps (start d i p url x)
  unfolding start
  start-OneSleeps i p url (returned, c) e h = rw (finish-tasks p (ok tt, c)) h
  start-OneSleeps i p url (delay, c) e h =
      omega (arith, total-set asleep p.tasks i idle (waiting url) e)
  start-OneSleeps i p url (fetch, c) e h =
      omega (arith, total-set asleep p.tasks i idle (fetching url) e)

  Change-OneSleeps : (p q : Pool) → OneSleeps p → Change d p q → OneSleeps q
  Change-OneSleeps p q h (took i url f e g) = start-OneSleeps i p url _ e h
  Change-OneSleeps p q h (locked i url e free) =
      omega
        (arith, total-set asleep p.tasks i (waiting url) (sleeping url) e, asleep-zero p.tasks free)
  Change-OneSleeps p q h (woke i url e) =
      omega (arith, total-set asleep p.tasks i (sleeping url) (fetching url) e)
  Change-OneSleeps p q h (got i url r e) =
      rw
        (finish-tasks (record p { tasks = set p.tasks i idle })
          (recover d url (after_fetch d url r p.crawl)))
        (omega (arith, total-set asleep p.tasks i (fetching url) idle e))

  -- Under every schedule at most one worker is in its crawl delay, so the delays are served one
  -- after another.
  pub run_moves-one_sleeps :
      (c : Crawl) (moves : List Move) → total asleep (run_moves d (pool_of d c) moves).tasks ≤ 1
  run_moves-one_sleeps c moves =
      run_moves-keeps d OneSleeps (λ p q h _. Change-OneSleeps p q h) (pool_of d c) moves
        (omega (arith, total-replicate asleep d.config.concurrency idle refl))
