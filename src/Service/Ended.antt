-- ===== src/Service/Ended.antt =====
-- A whole job of src/url_crawler_service: its crawl's pages on their way to the table, and the record of
-- its end by `run_job`.
use url_crawler.Base.{
  ℕ, ◌<◌, List, [], ◌++◌, Option, none, some, Bool, true, false, ◌≡◌, refl, sym, subst, ap, ◌∙◌,
  ◌⊎◌, arith, Text, ok, Result-cases, inl, inr, Bool-cases, if◌then◌else◌,
}
use url_crawler.Models.{PageResult}
use url_crawler.Repository.Rows.{CrawlState, finished, CrawlRow, Db, owned_by, update, is_terminal}
use url_crawler.Repository.{get, owns, finish, closed_row}
use url_crawler.Repository.Transitions.{get-update}
use url_crawler.Worker.{
  Interrupt, cancel_requested, lease_lost, stopped, Ending, completed, cancelled, seed_failed,
  crashed, closes, record_end, outcome_of, with_flush_error,
}
use url_crawler.Worker.Job.{
  drained, end_job, Completed, drain_interrupt, drain_error, requeue-ne-finished, record_end-lost,
}
use url_crawler.Worker.Run.{
  Signal, watched, started, run_job, Construction, built, refused, escaped, gave_up, IsBuilt,
  run_job-Completed,
}
use url_crawler.Service.{Job, Run, numbered}
use url_crawler.Service.Stored.{stored}
use url_crawler.Service.Served.{Tracked, Follows-same, run-Tracked}
use url_crawler.Service.Finished.{empty_left}

-- The pages are the same, and the crawl's row has the worker that it had.
abbrev Untouched : ℕ → CrawlRow → Db → Db → Type 0
Untouched id r db after =
    (after.pages ≡ db.pages)
    × ((s : CrawlRow) × (get id after ≡ some s) × (s.worker_id ≡ r.worker_id))

module _ (id : ℕ) (worker stats : Text) (now : ℕ) where
  finish-Untouched :
      (state : CrawlState) (error : Option Text) (b : Bool) (db after : Db) (r : CrawlRow)
      → finish id worker state stats error now db ≡ ok (b, after)
      → get id db ≡ some r
      → Untouched id r db after
  unfolding finish get
  finish-Untouched state error b db after r q e =
      let f = closed_row state stats error now in
      let p = owns id worker in
      elim (Bool-cases (is_terminal state)) [
        | inr t ↦ ground (arith, q, t)
        | inl t ↦
            let w : record db { crawls = update p f db.crawls } ≡ after = ground (arith, q, t) in
            subst (Untouched id r db) w (
              refl,
              ((if p r then f r else r), get-update id p f db.crawls r (λ s. refl) e, ground arith),
            )
      ]

  closes-Untouched :
      (state : CrawlState) (error : Option Text) (s : CrawlState) (db after : Db) (r : CrawlRow)
      → closes id worker stats now state error db ≡ ok (s, after)
      → get id db ≡ some r
      → Untouched id r db after
  closes-Untouched state error s db after r q e =
      elim (Result-cases (finish id worker state stats error now db)) [
        | inl ((b, then_db), f) ↦
            let same : then_db ≡ after = ground (arith, q, f) in
            subst (Untouched id r db) same (finish-Untouched state error b db then_db r f e)
        | inr (x, f) ↦ ground (arith, q, f)
      ]

  record-Untouched :
      (i : Option Interrupt) (db after : Db) (r : CrawlRow)
      → record_end id worker stats now i (finished, none) db ≡ ok (finished, after)
      → get id db ≡ some r
      → Untouched id r db after
  unfolding record_end
  record-Untouched none db after r q e = closes-Untouched finished none finished db after r q e
  record-Untouched (some cancel_requested) db after r q e =
      closes-Untouched finished none finished db after r q e
  record-Untouched (some lease_lost) db after r q e =
      let same : db ≡ after = ground (arith, q) in
      subst (Untouched id r db) same (refl, (r, e, refl))
  record-Untouched (some stopped) db after r q e =
      absurd (requeue-ne-finished id worker stats now db after q)

  end_job-Untouched :
      (i : Option Interrupt) (ending : Ending) (db after : Db) (r : CrawlRow)
      → Completed id worker stats now ending
      → end_job id worker stats now i ending drained db ≡ ok (finished, after)
      → get id db ≡ some r
      → Untouched id r db after
  unfolding end_job outcome_of with_flush_error drain_interrupt drain_error
  end_job-Untouched none (completed false reason) db after r c q e =
      record-Untouched none db after r q e
  end_job-Untouched (some i) (completed false reason) db after r c q e =
      record-Untouched (some i) db after r q e
  end_job-Untouched i (completed true reason) db after r c q e = elim c [ ]
  end_job-Untouched i cancelled db after r c q e = elim c [ ]
  end_job-Untouched i (seed_failed message) db after r c q e = elim c [ ]
  end_job-Untouched i (crashed message) db after r c q e = elim c [ ]

  -- A worker that gave up its lease records nothing.
  end_job-lost :
      (ending : Ending) (db after : Db)
      → Completed id worker stats now ending
      → end_job id worker stats now (some lease_lost) ending drained db ≡ ok (finished, after)
      → after ≡ db
  unfolding end_job outcome_of with_flush_error drain_interrupt drain_error
  end_job-lost (completed false reason) db after c e =
      record_end-lost id worker stats now finished none db finished after e
  end_job-lost (completed true reason) db after c e = elim c [ ]
  end_job-lost cancelled db after c e = elim c [ ]
  end_job-lost (seed_failed message) db after c e = elim c [ ]
  end_job-lost (crashed message) db after c e = elim c [ ]

-- The rows of a crawl that its worker still owns, when the reporter holds none back and has thrown none
-- away.
held_pages :
    {m id : ℕ} {worker : Text} {pages : List (PageResult × ℕ)} {j : Job}
    (t : Tracked m id worker pages j)
    → owned_by worker t.served.row.worker_id ≡ true
    → j.discarded ≡ false
    → j.reporter.buffer ≡ []
    → stored id j.db.pages ≡ numbered 0 pages
held_pages {pages = pages} {j = j} tracked own k b =
    let d = tracked.full in
    let empty : d.buffer ≡ [] =
      sym (ap (λ x. x.buffer) (Follows-same j.discarded d j.reporter k tracked.follows)) ∙ b in
    let (z, (extra, rest, t, h, w)) = tracked.served.held own in
    let no_extra : extra ≡ [] = empty_left extra rest (sym h ∙ empty) in
    t ∙ ap (λ rows. d.committed ++ rows) (no_extra ∙ sym empty) ∙ tracked.served.kept.split

gave_up-lost : (i : Option Interrupt) → gave_up i ≡ true → i ≡ some lease_lost
gave_up-lost (some lease_lost) e = refl
gave_up-lost (some cancel_requested) e = cc
gave_up-lost (some stopped) e = cc
gave_up-lost none e = cc

-- The end of a job whose crawl completed.
end_job-pages :
    {m id : ℕ} {worker : Text} {pages : List (PageResult × ℕ)} {j : Job} (stats : Text) (now : ℕ)
    (i : Option Interrupt) (ending : Ending) (after : Db) (r : CrawlRow)
    → Tracked m id worker pages j
    → j.reporter.buffer ≡ []
    → j.discarded ≡ gave_up i
    → Completed id worker stats now ending
    → end_job id worker stats now i ending drained j.db ≡ ok (finished, after)
    → get id after ≡ some r
    → owned_by worker r.worker_id ≡ true
    → ((i ≡ some lease_lost) × (after ≡ j.db)) ⊎ (stored id after.pages ≡ numbered 0 pages)
end_job-pages {id = id} {worker = worker} {j = j} stats now i ending after r t b k done q e own =
    elim (Bool-cases (gave_up i)) [
      | inl g ↦
          let lost = gave_up-lost i g in
          let q' =
            subst (λ x. end_job id worker stats now x ending drained j.db ≡ ok (finished, after))
              lost q in
          inl (lost, end_job-lost id worker stats now ending j.db after done q')
      | inr g ↦
          let s = t.served in
          let (same, (row, found, named)) =
            end_job-Untouched id worker stats now i ending j.db after s.row done q s.found in
          let one : row ≡ r = ground (arith, e, found) in
          let mine : owned_by worker s.row.worker_id ≡ true =
            ap (owned_by worker) (sym named ∙ ap (λ c. c.worker_id) one) ∙ own in
          inr (ap (stored id) same ∙ held_pages t mine (k ∙ g) b)
    ]

-- When `run_job` ends a crawl as finished after its closing flush, its watchers' signals having decided
-- whether it discarded the buffer, and the crawl's row still names the worker, then the configuration
-- was built and the crawl ended by itself and without the fuse; and either the last signal gave up the
-- lease, and nothing was recorded, or the crawl's rows in the page table are exactly the pages that it
-- reported, in their order and numbered from 1.
pub run_job_complete :
    {m id batch_size : ℕ} {worker : Text} {pages : List (PageResult × ℕ)} {j : Job} (stats : Text)
    (now : ℕ) (config : Construction) (signals : List Signal) (ending : Ending) (after : Db)
    (r : CrawlRow)
    → 0 < m
    → Run m id worker batch_size pages j
    → j.reporter.buffer ≡ []
    → j.discarded ≡ gave_up (watched signals started).interrupt
    → run_job id worker stats now config signals ending drained j.db ≡ ok (finished, after)
    → get id after ≡ some r
    → owned_by worker r.worker_id ≡ true
    → IsBuilt id worker stats now config
      × Completed id worker stats now ending
      × ((((watched signals started).interrupt ≡ some lease_lost) × (after ≡ j.db))
          ⊎ (stored id after.pages ≡ numbered 0 pages))
unfolding run_job
run_job_complete {id = id} {worker = worker} {j = j} stats now (built config) signals ending after r
      pos run b k q e own =
    let (is_built, done, delivered) =
      run_job-Completed id worker stats now (built config) signals ending drained j.db after q in
    (
      is_built,
      done,
      end_job-pages stats now (watched signals started).interrupt ending after r
          (run-Tracked pos run) b k done q e own,
    )
run_job_complete {id = id} {worker = worker} {j = j} stats now (refused kind message) signals ending
      after r pos run b k q e own =
    elim (run_job-Completed id worker stats now (refused kind message) signals ending drained j.db
      after q).0 [ ]
run_job_complete {id = id} {worker = worker} {j = j} stats now (escaped x) signals ending after r
      pos run b k q e own =
    elim (run_job-Completed id worker stats now (escaped x) signals ending drained j.db after
      q).0 [ ]
