-- ===== src/Crawler/Budget.antt =====
-- What a move of src/url_crawler/crawler.py's worker pool costs.
use url_crawler.Base.{
  ℕ, suc, ◌+◌, ◌*◌, ◌≤◌, [], ◌∷◌, some, Text, Result, ok, arith, ◌≡◌, refl, length, length-append,
  get_elem?, set,
}
use url_crawler.Models.{Fetched}
use url_crawler.Frontier.{Frontier, add_key, get, task_done}
use url_crawler.Crawler.Deps.{Deps}
use url_crawler.Crawler.State.{Crawl}
use url_crawler.Crawler.Workers.{
  idle, waiting, sleeping, fetching, Pool, Stage, returned, delay, fetch, process, recover,
  after_fetch, finish, start,
}
use url_crawler.Crawler.Tasks.{total, total-set}
use url_crawler.Crawler.Growth.{settled-Holds}
use url_crawler.Crawler.Schedules.{Change, took, locked, woke, got}
use url_crawler.Crawler.Bookkeeping.{finish-tasks, process-frontier}
use url_crawler.Crawler.Enabled.{weight}

-- `n` moves made, `w` to make for the workers' URLs and four for each URL in the queue: no more than
-- four for each URL seen.
abbrev pub Spare : ℕ → ℕ → Frontier → Type 0
Spare n w f = n + w + 4 * length f.queue ≤ 4 * length f.seen

abbrev pub InBudget : ℕ → Pool → Type 0
InBudget n p = Spare n (total weight p.tasks) p.crawl.frontier

pub Spare-add_key :
    (n w : ℕ) (key url : Text) (f : Frontier) → Spare n w f → Spare n w (add_key key url f).1
unfolding add_key
Spare-add_key n w key url f h = ground (arith, length-append f.queue (url ∷ []))

Spare-get :
    (n w : ℕ) (f f' : Frontier) (url : Text)
    → get f ≡ some (url, f')
    → Spare n w f
    → Spare (n + 4) w f'
unfolding get
Spare-get n w f f' url e h = ground arith

finish-Spare :
    (n w : ℕ) (p : Pool) (x : Result (Unit {0}) × Crawl)
    → Spare n w x.1.frontier
    → Spare n w (finish p x).crawl.frontier
unfolding finish task_done
finish-Spare n w p x h = ground arith

module _ (d : Deps) where
  settled-Spare :
      (n w : ℕ) (url : Text) (r : Result Fetched) (c : Crawl)
      → Spare n w c.frontier
      → Spare n w (recover d url (after_fetch d url r c)).1.frontier
  settled-Spare n w url r c h =
      (settled-Holds d c.scope c.robots (Spare n w) (λ key link f _ _. Spare-add_key n w key link f)
        url r c (refl, refl, h)).2

  start-InBudget :
      (n i : ℕ) (p : Pool) (url : Text) (x : Stage × Crawl)
      → get_elem? p.tasks i ≡ some idle
      → Spare (n + 4) (total weight p.tasks) x.1.frontier
      → InBudget (suc n) (start d i p url x)
  unfolding start weight
  start-InBudget n i p url (returned, c) e h =
      rw (finish-tasks p (ok tt, c))
        (finish-Spare (suc n) (total weight p.tasks) p (ok tt, c) (omega (arith, h)))
  start-InBudget n i p url (delay, c) e h =
      omega (arith, h, total-set weight p.tasks i idle (waiting url) e)
  start-InBudget n i p url (fetch, c) e h =
      omega (arith, h, total-set weight p.tasks i idle (fetching url) e)

  -- One more move.
  pub Change-InBudget : (n : ℕ) (p q : Pool) → InBudget n p → Change d p q → InBudget (suc n) q
  unfolding weight
  Change-InBudget n p q h (took i url f e g) =
      start-InBudget n i p url (process d (record p.crawl { frontier = f })) e (
        rw (process-frontier d (record p.crawl { frontier = f }))
          (Spare-get n (total weight p.tasks) p.crawl.frontier f url g h))
  Change-InBudget n p q h (locked i url e free) =
      omega (arith, h, total-set weight p.tasks i (waiting url) (sleeping url) e)
  Change-InBudget n p q h (woke i url e) =
      omega (arith, h, total-set weight p.tasks i (sleeping url) (fetching url) e)
  Change-InBudget n p q h (got i url r e) =
      let p' = record p { tasks = set p.tasks i idle } in
      let x = recover d url (after_fetch d url r p.crawl) in
      let w = total weight p'.tasks in
      rw (finish-tasks p' x) (
        finish-Spare (suc n) w p' x (
          settled-Spare (suc n) w url r p.crawl
            (omega (arith, h, total-set weight p.tasks i (fetching url) idle e))))
