-- ===== src/Crawler/Workers.antt =====
-- src/url_crawler/crawler.py, the worker pool: `_run_workers`, `_worker` and `_process`. The event
-- loop runs one task at a time and switches only where a task awaits: on the queue, on the delay
-- lock, in the delay's sleep and in the fetch. A schedule is the list of the moves that it makes.
use url_crawler.Base.{
  ℕ, ◌+◌, List, [], ◌∷◌, Option, none, some, Bool, true, false, Text, Result, ok, raise, Exn,
  value_error, seed_error, broken_pipe, unexpected, leb, if◌then◌else◌, get_elem?, set, replicate,
  any,
}
use url_crawler.Models.{internal, Fetched}
use url_crawler.Frontier.{get, task_done}
use url_crawler.Crawler.Deps.{Deps}
use url_crawler.Crawler.State.{Crawl, M, count_failed}
use url_crawler.Crawler.Page.{report, handle}

-- A worker waits on the queue, on the delay lock, in its sleep with the lock held, or for its fetch.
pub data Task : Type 0 where
  idle : Task
  waiting sleeping fetching : Text → Task

pub record Pool : Type 0 where
  pub crawl : Crawl
  pub tasks : List Task
  pub crashed : Option Exn

-- The move of the i-th worker: its `get` returns, it takes the lock, its sleep ends, its fetch
-- returns or raises.
pub data Move : Type 0 where
  gets locks wakes : ℕ → Move
  returns : ℕ → Result Fetched → Move

abbrev pub worker_of : Move → ℕ
worker_of (gets i) = i
worker_of (locks i) = i
worker_of (wakes i) = i
worker_of (returns i _) = i

-- Where `_process` stands once it has decided: it returned, or it goes on to the delay or the fetch.
pub data Stage : Type 0 where
  returned delay fetch : Stage

-- `max_pages is not None and self._claimed >= max_pages`.
abbrev pub reached : Option ℕ → ℕ → Bool
reached none claimed = false
reached (some max_pages) claimed = leb max_pages claimed

-- `if crawl_delay:`.
abbrev pub is_delay : Option ℕ → Bool
is_delay none = false
is_delay (some ms) = leb 1 ms

abbrev pub is_sleeping : Task → Bool
is_sleeping (sleeping url) = true
is_sleeping _ = false

abbrev message : Exn → Text
message (value_error text) = text
message (seed_error text code) = text
message broken_pipe = []
message (unexpected text) = text

-- The fetch is called.
abbrev pub start_fetch : Text → Crawl → Crawl
start_fetch url c = record c { fetches = url ∷ c.fetches }

module _ (d : Deps) where
  -- `_process` up to its first await.
  unfoldable pub process : Crawl → Stage × Crawl
  process c =
      if c.stopping
      then (returned, c)
      else if reached d.config.max_pages c.claimed
      then (returned, record c { stopping = true })
      else let claimed = record c { claimed = c.claimed + 1 } in
        if is_delay c.robots.crawl_delay
        then (delay, record claimed { delay_logged = true })
        else (fetch, claimed)

  -- `except Exception`, after the clause for `BrokenPipeError`.
  unfoldable pub recover : Text → Result (Unit {0}) × Crawl → Result (Unit {0}) × Crawl
  unfolding report
  recover url (ok _, c) = (ok tt, c)
  recover url (raise broken_pipe, c) = (raise broken_pipe, c)
  recover url (raise e, c) =
      report d
        (record {
          url = url;
          status = none;
          links = [];
          error = some (record {
            url = url;
            kind = internal;
            status = none;
            message = message e;
            attempts = 0;
          });
        })
        (count_failed internal c)

  -- The rest of `_process` once the fetch is over.
  unfoldable pub after_fetch : Text → Result Fetched → M (Unit {0})
  unfolding handle
  after_fetch url (raise e) c = (raise e, c)
  after_fetch url (ok result) c = handle d url result c

-- `finally: self._frontier.task_done()`; an exception that leaves the worker ends the task group.
unfoldable pub finish : Pool → Result (Unit {0}) × Crawl → Pool
finish p (r, c) = elim (task_done c.frontier) [
  | raise e ↦ record p { crawl = c; crashed = some e }
  | ok f ↦ record p {
    crawl = record c { frontier = f };
    crashed = elim r [ ok _ ↦ none | raise e ↦ some e ];
  }
]

module _ (d : Deps) where
  unfoldable pub start : ℕ → Pool → Text → Stage × Crawl → Pool
  unfolding finish
  start i p url (returned, c) = finish p (ok tt, c)
  start i p url (delay, c) = record p { crawl = c; tasks = set p.tasks i (waiting url) }
  start i p url (fetch, c) = record p {
    crawl = start_fetch url c;
    tasks = set p.tasks i (fetching url);
  }

  -- A move that the worker's state does not admit leaves the pool as it is.
  unfoldable pub move : Move → Option Task → Pool → Pool
  unfolding start process recover after_fetch finish
  move (gets i) (some idle) p = elim (get p.crawl.frontier) [
    | none ↦ p
    | some (url, f) ↦ start i p url (process d (record p.crawl { frontier = f }))
  ]
  move (locks i) (some (waiting url)) p =
      if any is_sleeping p.tasks then p else record p { tasks = set p.tasks i (sleeping url) }
  move (wakes i) (some (sleeping url)) p = record p {
    crawl = start_fetch url p.crawl;
    tasks = set p.tasks i (fetching url);
  }
  move (returns i result) (some (fetching url)) p =
      finish (record p { tasks = set p.tasks i idle })
        (recover d url (after_fetch d url result p.crawl))
  move _ _ p = p

  -- Nothing moves once the task group has ended.
  unfoldable pub attempt : Option Exn → Move → Pool → Pool
  unfolding move
  attempt (some e) m p = p
  attempt none m p = move m (get_elem? p.tasks (worker_of m)) p

  unfoldable pub step : Pool → Move → Pool
  unfolding attempt
  step p m = attempt p.crashed m p

  unfoldable pub run_moves : Pool → List Move → Pool
  unfolding step
  run_moves p [] = p
  run_moves p (m ∷ ms) = run_moves (step p m) ms

  -- `concurrency` workers, none of which has taken a URL.
  abbrev pub pool_of : Crawl → Pool
  pool_of c = record { crawl = c; tasks = replicate d.config.concurrency idle; crashed = none }
