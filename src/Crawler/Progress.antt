-- ===== src/Crawler/Progress.antt =====
-- That no run of src/url_crawler/crawler.py gets stuck.
use url_crawler.Base.{
  ℕ, zero, suc, ◌≤◌, List, [], ◌∷◌, none, some, Bool, true, false, Text, Result, ok, raise,
  unexpected, arith, ◌≡◌, ◌⊎◌, refl, ap, length-set, length, get_elem?, set, replicate, Bool-cases,
  inl, inr, any, All,
}
use url_crawler.Frontier.{joined}
use url_crawler.Crawler.Deps.{Deps}
use url_crawler.Crawler.State.{Crawl, new}
use url_crawler.Crawler.Workers.{
  Task, idle, waiting, sleeping, fetching, Pool, Move, gets, locks, wakes, returns, is_sleeping,
  run_moves, pool_of, Stage, returned, delay, fetch, process, start, recover, after_fetch,
}
use url_crawler.Crawler.Seed.{prepare, run_pool, run}
use url_crawler.Crawler.Schedules.{Change, took, locked, woke, got, run_moves-keeps}
use url_crawler.Crawler.Bookkeeping.{IsIdle, finish-tasks, run-joined_iff}
use url_crawler.Crawler.Enabled.{admits, enabled, is_empty}

-- A worker that has a URL in hand.
sleeper :
    (ts : List Task)
    → any is_sleeping ts ≡ true
    → (i : ℕ) × (url : Text) × (get_elem? ts i ≡ some (sleeping url))
unfolding any
sleeper [] e = cc
sleeper (sleeping url ∷ ts) e = (0, url, refl)
sleeper (idle ∷ ts) e = let (i, url, h) = sleeper ts (ground (arith, e)) in (suc i, url, h)
sleeper (waiting u ∷ ts) e = let (i, url, h) = sleeper ts (ground (arith, e)) in (suc i, url, h)
sleeper (fetching u ∷ ts) e = let (i, url, h) = sleeper ts (ground (arith, e)) in (suc i, url, h)

abbrev is_idle : Task → Bool
is_idle idle = true
is_idle _ = false

-- All workers are idle, or one is not.
busy_one :
    (ts : List Task)
    → All IsIdle ts ⊎ ((i : ℕ) × (t : Task) × (get_elem? ts i ≡ some t) × (is_idle t ≡ false))
busy_one [] = inl tt
busy_one (idle ∷ ts) = elim (busy_one ts) [
  | inl h ↦ inl (refl, h)
  | inr (i, t, e, b) ↦ inr (suc i, t, e, b)
]
busy_one (waiting url ∷ ts) = inr (0, waiting url, refl, refl)
busy_one (sleeping url ∷ ts) = inr (0, sleeping url, refl, refl)
busy_one (fetching url ∷ ts) = inr (0, fetching url, refl, refl)

first_idle : (ts : List Task) → All IsIdle ts → 1 ≤ length ts → get_elem? ts 0 ≡ some idle
first_idle [] a l = absurd (omega arith)
first_idle (t ∷ ts) a l = ap some a.0

queue_empty : (xs : List Text) → is_empty xs ≡ true → xs ≡ []
queue_empty [] e = refl
queue_empty (x ∷ xs) e = cc

abbrev pub CanMove : Pool → Type 0
CanMove p = (m : Move) × (enabled p m ≡ true)

module _ (p : Pool) (alive : p.crashed ≡ none) where
  wakes-CanMove : (i : ℕ) (url : Text) → get_elem? p.tasks i ≡ some (sleeping url) → CanMove p
  unfolding enabled admits
  wakes-CanMove i url e = (wakes i, rw (enabled, alive, e, admits) refl)

  task-CanMove : (i : ℕ) (t : Task) → get_elem? p.tasks i ≡ some t → is_idle t ≡ false → CanMove p
  unfolding enabled admits
  task-CanMove i idle e b = cc
  task-CanMove i (waiting url) e b = elim (Bool-cases (any is_sleeping p.tasks)) [
    | inl s ↦ let (k, u, h) = sleeper p.tasks s in wakes-CanMove k u h
    | inr s ↦ (locks i, ground (arith, alive, e, s))
  ]
  task-CanMove i (sleeping url) e b = wakes-CanMove i url e
  task-CanMove i (fetching url) e b = (returns i (raise (unexpected [])), ground (arith, alive, e))

  idle-CanMove :
      All IsIdle p.tasks → 1 ≤ length p.tasks → is_empty p.crawl.frontier.queue ≡ false → CanMove p
  unfolding enabled admits
  idle-CanMove a l q = (gets 0, ground (arith, alive, first_idle p.tasks a l, q))

  stuck-CanMove :
      ((p.crawl.frontier.queue ≡ []) × All IsIdle p.tasks → joined p.crawl.frontier ≡ true)
      → 1 ≤ length p.tasks
      → (joined p.crawl.frontier ≡ true) ⊎ CanMove p
  stuck-CanMove over l = elim (busy_one p.tasks) [
    | inr (i, t, e, b) ↦ inr (task-CanMove i t e b)
    | inl a ↦ elim (Bool-cases (is_empty p.crawl.frontier.queue)) [
      | inl q ↦ inl (over (queue_empty p.crawl.frontier.queue q, a))
      | inr q ↦ inr (idle-CanMove a l q)
    ]
  ]

length-replicate : (n : ℕ) (t : Task) → length (replicate n t) ≡ n
length-replicate zero t = omega arith
length-replicate (suc n) t = omega (arith, length-replicate n t)

module _ (d : Deps) where
  abbrev Staffed : Pool → Type 0
  Staffed p = length p.tasks ≡ d.config.concurrency

  start-Staffed :
      (i : ℕ) (p : Pool) (url : Text) (x : Stage × Crawl) → Staffed p → Staffed (start d i p url x)
  unfolding start
  start-Staffed i p url (returned, c) h = rw (finish-tasks p (ok tt, c)) h
  start-Staffed i p url (delay, c) h = rw (length-set p.tasks i (waiting url)) h
  start-Staffed i p url (fetch, c) h = rw (length-set p.tasks i (fetching url)) h

  Change-Staffed : (p q : Pool) → Staffed p → p.crashed ≡ none → Change d p q → Staffed q
  Change-Staffed p q h alive (took i url f e g) =
      start-Staffed i p url (process d (record p.crawl { frontier = f })) h
  Change-Staffed p q h alive (locked i url e free) = rw (length-set p.tasks i (sleeping url)) h
  Change-Staffed p q h alive (woke i url e) = rw (length-set p.tasks i (fetching url)) h
  Change-Staffed p q h alive (got i url r e) =
      rw
        (
          finish-tasks (record p { tasks = set p.tasks i idle })
              (recover d url (after_fetch d url r p.crawl)),
          length-set p.tasks i idle,
        )
        h

  run_pool-Staffed :
      (x : Result (Unit {0}) × Crawl) (moves : List Move) (p : Pool)
      → run_pool d x moves ≡ ok p
      → Staffed p
  run_pool-Staffed (ok _, c) moves p e =
      let e' : run_moves d (pool_of d c) moves ≡ p = ground arith in
      rw (← e') (
        run_moves-keeps d Staffed Change-Staffed (pool_of d c) moves
          (length-replicate d.config.concurrency idle))
  run_pool-Staffed (raise x, c) moves p e = cc

  -- In every run with a worker, under every schedule, unless an exception has ended the task group:
  -- `join` has returned, or some worker can make a move. So neither the queue nor the delay's lock
  -- leaves the workers waiting for each other.
  pub run-joined_or_CanMove :
      (seed : Text) (moves : List Move) (p : Pool)
      → run d seed moves ≡ ok p
      → 1 ≤ d.config.concurrency
      → p.crashed ≡ none
      → (joined p.crawl.frontier ≡ true) ⊎ CanMove p
  unfolding run
  run-joined_or_CanMove seed moves p e workers alive =
      stuck-CanMove p alive (run-joined_iff d seed moves p e).1
        (omega (arith, run_pool-Staffed (prepare d seed new) moves p e, workers))
