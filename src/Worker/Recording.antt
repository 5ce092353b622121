-- ===== src/Worker/Recording.antt =====
-- That a worker of src/url_crawler_service/worker.py which lost its crawl records nothing of it.
use url_crawler.Base.{ℕ, [], Option, none, some, true, false, Text, ◌≡◌, refl, ok, any}
use url_crawler.Repository.Rows.{CrawlState, aborted, Db, PageRow, is_terminal}
use url_crawler.Repository.{owns}
use url_crawler.Repository.Fencing.{stranger_changes_nothing}
use url_crawler.Worker.{
  Interrupt, cancel_requested, lease_lost, stopped, cancelled_error, requeue, record_end,
}

abbrev no_row : PageRow
no_row = record {
  seq = 0;
  url = [];
  status = none;
  error_kind = none;
  error_message = none;
  links = [];
  fetched_at = 0;
}

-- Whatever interrupted the job, a worker that no row of the crawl names any more ends it without an
-- exception and leaves the database as its new owner has it.
pub record_end-stranger :
    (id : ℕ) (worker stats : Text) (now : ℕ) (interrupt : Option Interrupt) (state : CrawlState)
    (error : Option Text) (db : Db)
    → is_terminal state ≡ true
    → any (owns id worker) db.crawls ≡ false
    → (s : CrawlState) × (record_end id worker stats now interrupt (state, error) db ≡ ok (s, db))
unfolding record_end requeue
record_end-stranger id worker stats now (some lease_lost) state error db t e = (state, refl)
record_end-stranger id worker stats now (some stopped) state error db t e =
    let h =
      stranger_changes_nothing id worker stats (some cancelled_error) aborted now no_row [] db refl
        e in
    (aborted, rw (h.2, h.1) refl)
record_end-stranger id worker stats now (some cancel_requested) state error db t e =
    let h = stranger_changes_nothing id worker stats error state now no_row [] db t e in
    (state, rw h.1 refl)
record_end-stranger id worker stats now none state error db t e =
    let h = stranger_changes_nothing id worker stats error state now no_row [] db t e in
    (state, rw h.1 refl)
