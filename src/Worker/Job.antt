-- ===== src/Worker/Job.antt =====
-- src/url_crawler_service/worker.py: the end of `run_job`, from the crawl task's end to the record.
use url_crawler.Base.{
  ℕ, Option, none, some, true, false, ◌≡◌, arith, Text, codes, Result, ok, raise, unexpected, ◌++◌,
  ◌≢◌,
}
use url_crawler.Repository.Rows.{CrawlState, finished, failed, aborted, Db}
use url_crawler.Repository.{finish, release}
use url_crawler.Worker.{
  Interrupt, cancel_requested, lease_lost, stopped, Ending, completed, cancelled, seed_failed,
  crashed, outcome_of, with_flush_error, closes, requeue, record_end, shown, cancel_error,
}

-- How the closing flush of the pages went: `LeaseLostError`, or another exception with its text.
pub data Drain : Type 0 where
  drained drain_lost : Drain
  drain_failed : Text → Drain

-- `_drain_pages` sets the interrupt and gives the error.
unfoldable pub drain_interrupt : Option Interrupt → Drain → Option Interrupt
drain_interrupt i drain_lost = some lease_lost
drain_interrupt i drained = i
drain_interrupt i (drain_failed error) = i

unfoldable pub drain_error : Drain → Option Text
drain_error (drain_failed error) = some error
drain_error drained = none
drain_error drain_lost = none

module _ (id : ℕ) (worker stats : Text) (now : ℕ) where
  -- `_reject`: the stored configuration no longer builds a `CrawlConfig`.
  unfoldable pub reject : Text → Db → Result (CrawlState × Db)
  reject error db = closes id worker stats now failed (some error) db

  unfoldable pub end_job : Option Interrupt → Ending → Drain → Db → Result (CrawlState × Db)
  unfolding outcome_of with_flush_error drain_interrupt drain_error
  end_job interrupt ending drain db = elim (outcome_of interrupt ending) [
    | none ↦ raise (unexpected (codes "CancelledError"))
    | some outcome ↦
        record_end id worker stats now (drain_interrupt interrupt drain)
          (with_flush_error (drain_error drain) outcome) db
  ]

  -- What the record does to the database by how the closing flush went, where that decides it.
  abbrev pub Delivered : Drain → Db → Db → Type 0
  Delivered drained db after = Unit {0}
  Delivered drain_lost db after = after ≡ db
  Delivered (drain_failed error) db after = ⊥

  abbrev pub Completed : Ending → Type 0
  Completed (completed false reason) = Unit {0}
  Completed ending = ⊥

  closes_state :
      (state : CrawlState) (error : Option Text) (db : Db) (s : CrawlState) (after : Db)
      → closes id worker stats now state error db ≡ ok (s, after)
      → s ≡ state
  unfolding finish
  closes_state state error db s after e = ground (arith, e)

  pub requeue-ne-finished : (db after : Db) → requeue id worker stats now db ≢ ok (finished, after)
  unfolding requeue finish release
  requeue-ne-finished db after e = ground (arith, e)

  -- What the record of an outcome says of it.
  record_end-state :
      (i : Option Interrupt) (state : CrawlState) (error : Option Text) (db : Db) (after : Db)
      → record_end id worker stats now i (state, error) db ≡ ok (finished, after)
      → finished ≡ state
  unfolding record_end
  record_end-state none state error db after e = closes_state state error db finished after e
  record_end-state (some cancel_requested) state error db after e =
      closes_state state error db finished after e
  record_end-state (some stopped) state error db after e = absurd (requeue-ne-finished db after e)
  record_end-state (some lease_lost) state error db after e = ground (arith, e)

  pub record_end-lost :
      (state : CrawlState) (error : Option Text) (db : Db) (s : CrawlState) (after : Db)
      → record_end id worker stats now (some lease_lost) (state, error) db ≡ ok (s, after)
      → after ≡ db
  unfolding record_end
  record_end-lost state error db s after e = ground (arith, e)

  -- An outcome that failed or was aborted is not recorded as finished, however the flush went.
  abbrev Recorded : Option Interrupt → Drain → CrawlState × Option Text → Db → Db → Type 0
  Recorded i drain outcome db after =
      record_end id worker stats now (drain_interrupt i drain)
        (with_flush_error (drain_error drain) outcome) db
      ≡ ok (finished, after)

  failed_outcome :
      (i : Option Interrupt) (drain : Drain) (error : Option Text) (db after : Db)
      → ¬ Recorded i drain (failed, error) db after
  unfolding with_flush_error drain_interrupt drain_error
  failed_outcome i drained error db after e = cc (record_end-state i failed error db after e)
  failed_outcome i drain_lost error db after e =
      cc (record_end-state (some lease_lost) failed error db after e)
  failed_outcome i (drain_failed flush) error db after e =
      cc (record_end-state i failed error db after e)

  aborted_outcome :
      (i : Option Interrupt) (drain : Drain) (error : Option Text) (db after : Db)
      → ¬ Recorded i drain (aborted, error) db after
  unfolding with_flush_error drain_interrupt drain_error
  aborted_outcome i drained error db after e = cc (record_end-state i aborted error db after e)
  aborted_outcome i drain_lost error db after e =
      cc (record_end-state (some lease_lost) aborted error db after e)
  aborted_outcome i (drain_failed flush) error db after e =
      cc (record_end-state i aborted (some (shown error ++ codes "; " ++ flush)) db after e)

  finished_outcome :
      (i : Option Interrupt) (drain : Drain) (db after : Db)
      → Recorded i drain (finished, none) db after
      → Delivered drain db after
  unfolding with_flush_error drain_interrupt drain_error
  finished_outcome i drained db after e = tt
  finished_outcome i drain_lost db after e = record_end-lost finished none db finished after e
  finished_outcome i (drain_failed flush) db after e =
      cc (record_end-state i failed (some flush) db after e)

  -- A job ends as finished only if the crawl completed without the fuse and the closing flush did not
  -- fail; where the flush found the lease lost, nothing was recorded.
  pub end_job-Completed :
      (interrupt : Option Interrupt) (ending : Ending) (drain : Drain) (db after : Db)
      → end_job interrupt ending drain db ≡ ok (finished, after)
      → Completed ending × Delivered drain db after
  unfolding end_job outcome_of
  end_job-Completed none (completed false reason) drain db after e =
      (tt, finished_outcome none drain db after e)
  end_job-Completed (some i) (completed false reason) drain db after e =
      (tt, finished_outcome (some i) drain db after e)
  end_job-Completed none (completed true reason) drain db after e =
      absurd (aborted_outcome none drain reason db after e)
  end_job-Completed (some i) (completed true reason) drain db after e =
      absurd (aborted_outcome (some i) drain reason db after e)
  end_job-Completed none (seed_failed message) drain db after e =
      absurd (failed_outcome none drain (some message) db after e)
  end_job-Completed (some i) (seed_failed message) drain db after e =
      absurd (failed_outcome (some i) drain (some message) db after e)
  end_job-Completed none (crashed message) drain db after e =
      absurd (failed_outcome none drain (some message) db after e)
  end_job-Completed (some i) (crashed message) drain db after e =
      absurd (failed_outcome (some i) drain (some message) db after e)
  end_job-Completed none cancelled drain db after e = cc
  end_job-Completed (some i) cancelled drain db after e =
      absurd (aborted_outcome (some i) drain (cancel_error i) db after e)
