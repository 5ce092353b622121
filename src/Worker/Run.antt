-- ===== src/Worker/Run.antt =====
-- src/url_crawler_service/worker.py: `run_job` as a whole, from the stored configuration to the record.
use url_crawler.Base.{
  ℕ, suc, List, [], ◌∷◌, Option, none, some, Bool, true, false, ◌≡◌, arith, Text, codes, Exn,
  Result, ok, raise, ◌++◌,
}
use url_crawler.Repository.Rows.{CrawlState, finished, Db}
use url_crawler.Repository.{finish}
use url_crawler.DbReporter.{DbReporter, discard}
use url_crawler.Config.{CrawlConfig}
use url_crawler.Worker.{Interrupt, lease_lost, stopped, Ending}
use url_crawler.Worker.Watch.{Watch, alive, interrupted}
use url_crawler.Worker.Job.{Drain, reject, end_job, Completed, Delivered, end_job-Completed}

-- The crawl task and `_interrupt`.
pub record CrawlTask : Type 0 where
  pub interrupt : Option Interrupt
  pub cancelled : ℕ

-- `_cancel`.
unfoldable pub cancel : Interrupt → CrawlTask → CrawlTask
cancel i t = record { interrupt = some i; cancelled = suc t.cancelled }

-- What the watchers find while they run: the stop event is set, or the heartbeats end.
pub data Signal : Type 0 where
  stop_set : Signal
  heartbeat_ends : Watch → Signal

abbrev pub heard : Signal → CrawlTask → CrawlTask
heard stop_set t = cancel stopped t
heard (heartbeat_ends (alive at)) t = t
heard (heartbeat_ends (interrupted i)) t = cancel i t

-- The watchers' calls of `_cancel`, in their order: the last one decides.
unfoldable pub watched : List Signal → CrawlTask → CrawlTask
unfolding cancel
watched [] t = t
watched (s ∷ ss) t = watched ss (heard s t)

-- The start of `_drain_pages`.
abbrev pub before_close : Option Interrupt → DbReporter → DbReporter
before_close (some lease_lost) d = discard d
before_close i d = d

abbrev pub started : CrawlTask
started = record { interrupt = none; cancelled = 0 }

-- What `CrawlConfig(**crawl.config)` does: `TypeError` of an unknown or missing key, `ValueError` of a
-- check, or another exception.
pub data Refusal : Type 0 where
  type_error value_error : Refusal

pub data Construction : Type 0 where
  built : CrawlConfig → Construction
  refused : Refusal → Text → Construction
  escaped : Exn → Construction

abbrev refusal_name : Refusal → Text
refusal_name type_error = codes "TypeError"
refusal_name value_error = codes "ValueError"

-- `f"{type(exc).__name__}: {exc}"`.
abbrev pub described : Refusal → Text → Text
described kind message = refusal_name kind ++ codes ": " ++ message

-- `self._interrupt is _Interrupt.LEASE_LOST`, on which `_drain_pages` discards the buffer.
abbrev pub gave_up : Option Interrupt → Bool
gave_up (some lease_lost) = true
gave_up i = false

module _ (id : ℕ) (worker stats : Text) (now : ℕ) where
  -- The configuration, the signals of the watchers, how the crawl task ended and how the closing flush
  -- went.
  unfoldable pub run_job :
      Construction → List Signal → Ending → Drain → Db → Result (CrawlState × Db)
  unfolding reject end_job watched
  run_job (refused kind message) signals ending drain db =
      reject id worker stats now (described kind message) db
  run_job (escaped e) signals ending drain db = raise e
  run_job (built config) signals ending drain db =
      end_job id worker stats now (watched signals started).interrupt ending drain db

  -- The configuration was built.
  abbrev pub IsBuilt : Construction → Type 0
  IsBuilt (built config) = Unit {0}
  IsBuilt (refused kind message) = ⊥
  IsBuilt (escaped e) = ⊥

  -- A job ends as finished only if its stored configuration was built, its crawl completed without the
  -- fuse, whatever signals came, and the closing flush did not fail; where the flush found the lease
  -- lost, nothing was recorded.
  pub run_job-Completed :
      (config : Construction) (signals : List Signal) (ending : Ending) (drain : Drain)
      (db after : Db)
      → run_job config signals ending drain db ≡ ok (finished, after)
      → IsBuilt config
        × Completed id worker stats now ending
        × Delivered id worker stats now drain db after
  unfolding run_job reject finish
  run_job-Completed (built config) signals ending drain db after e =
      let (c, d) =
        end_job-Completed id worker stats now (watched signals started).interrupt ending drain db
          after e in
      (tt, c, d)
  run_job-Completed (refused kind message) signals ending drain db after e = ground (arith, e)
  run_job-Completed (escaped x) signals ending drain db after e = cc
