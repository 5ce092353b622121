-- ===== src/Worker.antt =====
-- src/url_crawler_service/worker.py: what a job that ended becomes and what is recorded of it. The
-- calls of the repository return here; FinalWrite has the retries of a final write that raises, and
-- Run the whole of `run_job`.
mod Recording
mod Watch
mod FinalWrite
pub mod Job
pub mod Run
mod Claiming
mod Examples
use url_crawler.Base.{
  ℕ, Option, none, some, Bool, true, false, Text, codes, ◌++◌, Result, ok, raise, ◌>>=◌,
  if◌then◌else◌,
}
use url_crawler.Repository.Rows.{CrawlState, queued, finished, failed, aborted, Db}
use url_crawler.Repository.{finish, release}

pub data Interrupt : Type 0 where
  cancel_requested lease_lost stopped : Interrupt

-- How the awaited crawl task ended: with its outcome, cancelled, or in a `SeedError` or another
-- exception with its text.
pub data Ending : Type 0 where
  completed : Bool → Option Text → Ending
  cancelled : Ending
  seed_failed crashed : Text → Ending

abbrev pub cancelled_error : Text
cancelled_error = codes "cancelled by request"

abbrev pub cancel_error : Interrupt → Option Text
cancel_error cancel_requested = some cancelled_error
cancel_error _ = none

-- `none` is the `CancelledError` that is raised again.
unfoldable pub outcome_of : Option Interrupt → Ending → Option (CrawlState × Option Text)
outcome_of none cancelled = none
outcome_of (some i) cancelled = some (aborted, cancel_error i)
outcome_of i (seed_failed message) = some (failed, some message)
outcome_of i (crashed message) = some (failed, some message)
outcome_of i (completed true reason) = some (aborted, reason)
outcome_of i (completed false reason) = some (finished, none)

-- `f"{error}"` of an optional text.
abbrev pub shown : Option Text → Text
shown none = codes "None"
shown (some text) = text

-- What the error of the closing flush makes of the outcome.
unfoldable pub with_flush_error : Option Text → CrawlState × Option Text → CrawlState × Option Text
with_flush_error none outcome = outcome
with_flush_error (some flush) (finished, error) = (failed, some flush)
with_flush_error (some flush) (aborted, error) =
    (aborted, some (shown error ++ codes "; " ++ flush))
with_flush_error (some flush) (state, error) = (state, error)

module _ (id : ℕ) (worker stats : Text) (now : ℕ) where
  abbrev pub closes : CrawlState → Option Text → Db → Result (CrawlState × Db)
  closes state error db =
      finish id worker state stats error now db >>= λ (recorded, after). ok (state, after)

  unfoldable pub requeue : Db → Result (CrawlState × Db)
  requeue db =
      let (requeued, after) = release id worker db in
      if requeued then ok (queued, after) else closes aborted (some cancelled_error) after

  -- `_record`.
  unfoldable pub record_end :
      Option Interrupt → CrawlState × Option Text → Db → Result (CrawlState × Db)
  unfolding requeue
  record_end (some lease_lost) (state, error) db = ok (state, db)
  record_end (some stopped) (state, error) db = requeue db
  record_end i (state, error) db = closes state error db
