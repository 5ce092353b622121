-- ===== src/Crawler/Enabled.antt =====
-- Which moves of src/url_crawler/crawler.py's worker pool are possible, and how many a schedule makes.
use url_crawler.Base.{
  ℕ, ◌+◌, List, [], ◌∷◌, Option, none, some, Bool, true, false, not, ◌&&◌, Text, if◌then◌else◌,
  get_elem?, any, Exn,
}
use url_crawler.Crawler.Deps.{Deps}
use url_crawler.Crawler.Workers.{
  Task, idle, waiting, sleeping, fetching, Pool, Move, gets, locks, wakes, returns, worker_of,
  is_sleeping, step,
}

abbrev pub is_empty : List Text → Bool
is_empty [] = true
is_empty (x ∷ xs) = false

-- A `get` returns when the queue holds a URL, and the lock is free when nobody sleeps.
unfoldable pub admits : Move → Option Task → Pool → Bool
admits (gets i) (some idle) p = not (is_empty p.crawl.frontier.queue)
admits (locks i) (some (waiting url)) p = not (any is_sleeping p.tasks)
admits (wakes i) (some (sleeping url)) p = true
admits (returns i result) (some (fetching url)) p = true
admits _ _ p = false

abbrev pub runs : Option Exn → Bool
runs none = true
runs (some e) = false

-- The pool can make the move.
unfoldable pub enabled : Pool → Move → Bool
unfolding admits
enabled p m = runs p.crashed && admits m (get_elem? p.tasks (worker_of m)) p

-- The moves of a schedule that the pool can make when their turn comes.
unfoldable pub made : Deps → Pool → List Move → ℕ
unfolding enabled step
made d p [] = 0
made d p (m ∷ ms) = (if enabled p m then 1 else 0) + made d (step d p m) ms

-- What is left to do for a worker's URL, in moves.
unfoldable pub weight : Task → ℕ
weight idle = 0
weight (waiting url) = 3
weight (sleeping url) = 2
weight (fetching url) = 1
