-- ===== src/Service/Examples.antt =====
-- A crawl of two pages whose first batch is committed without an answer
-- (src/url_crawler_service/reporter.py and repository.py).
use url_crawler.Service.Ended.{run_job_complete}
use url_crawler.Worker.Run.{IsBuilt, built, run_job, watched, started}
use url_crawler.Worker.Job.{Completed, end_job, drain_interrupt, drain_error}
use url_crawler.Worker.{lease_lost, completed, record_end, outcome_of, with_flush_error}
use url_crawler.Config.Floats.{pos, seconds}
use url_crawler.Config.{CrawlConfig}
use url_crawler.Base.{
  ℕ, [], ◌∷◌, ◌++◌, List, none, some, Bool, false, ◌≡◌, refl, ◌⊎◌, arith, codes, Text, select, any,
  text_eq, true,
}
use url_crawler.Models.{PageResult}
use url_crawler.Repository.Rows.{finished, running, CrawlRow, PageRow, Db, first, update, returning}
use url_crawler.Repository.{
  create, get, oldest, take_row, claim, heartbeat, insert_page, insert_rows, insert_pages, finish,
}
use url_crawler.Repository.Steps.{here, next, creates, beats, empty_db}
use url_crawler.DbReporter.{
  opened, page, page_row, start_flush, wake, close, insert_returned, insert_raised,
}
use url_crawler.Service.{
  Job, reports, wakes, drains, lands, goes_unheard, beside, Run, begun, goes_on, numbered,
}
use url_crawler.Service.Stored.{stored}
use url_crawler.Service.Finished.{run-Prefix, finish_complete}

abbrev first_page : PageResult
first_page = record {
  url = codes "https://a.example/";
  status = some 200;
  links = [];
  error = none;
}

abbrev second_page : PageResult
second_page = record {
  url = codes "https://a.example/b";
  status = some 404;
  links = [];
  error = none;
}

abbrev w1 : Text
w1 = codes "w1"

abbrev free : ℕ → Bool
free id = false

abbrev row_one : PageRow
row_one = page_row 1 first_page 12

abbrev row_two : PageRow
row_two = page_row 2 second_page 20

abbrev stored_row : CrawlRow
stored_row = record {
  id = 1;
  seed = codes "https://a.example/";
  config = codes "{}";
  state = running;
  created_at = 10;
  started_at = some 11;
  finished_at = none;
  heartbeat_at = some 15;
  worker_id = some w1;
  attempts = 1;
  cancel_requested = false;
  stats = some (codes "s");
  error = none;
}

abbrev waiting : Db
waiting = (create 1 (codes "https://a.example/") (codes "{}") 10 empty_db).1

abbrev taken : Db
taken = (claim w1 11 free waiting).1

abbrev beaten : Db
beaten = (heartbeat 1 w1 (codes "s") 15 taken).1

abbrev half : Db
half = record { crawls = stored_row ∷ []; pages = record { crawl_id = 1; row = row_one } ∷ [] }

abbrev whole : Db
whole = record {
  crawls = stored_row ∷ [];
  pages = record { crawl_id = 1; row = row_one } ∷ record { crawl_id = 1; row = row_two } ∷ [];
}

abbrev ended : Db
ended = record {
  crawls =
      (record stored_row { state = finished; finished_at = some 30; stats = some (codes "t") })
      ∷ [];
  pages = whole.pages;
}

abbrev pages : List (PageResult × ℕ)
pages = (first_page, 12) ∷ (second_page, 20) ∷ []

abbrev job_half : Job
job_half = record {
  db = half;
  reporter = insert_raised (wake (page 50 first_page 12 opened));
  discarded = false;
}

abbrev job_whole : Job
job_whole = record {
  db = whole;
  reporter = insert_returned (close (page 50 second_page 20 job_half.reporter));
  discarded = false;
}

half_inserted : insert_pages 1 w1 (row_one ∷ []) beaten ≡ some half
unfolding insert_pages insert_rows insert_page heartbeat claim create take_row oldest select first
    update returning text_eq any page_row
half_inserted = refl

both_inserted : insert_pages 1 w1 (row_one ∷ row_two ∷ []) half ≡ some whole
unfolding insert_pages insert_rows insert_page select first text_eq any page_row
both_inserted = refl

run_half : Run 3 1 w1 50 ((first_page, 12) ∷ []) job_half
unfolding heartbeat claim create take_row oldest select first update returning text_eq any page
    page_row wake start_flush insert_raised get
run_half =
    let start =
      begun 11 free waiting (record stored_row { heartbeat_at = some 11; stats = none })
        (next here (creates 1 (codes "https://a.example/") (codes "{}") 10 empty_db refl)) refl
        refl in
    let one = goes_on start (
      reports first_page 12 [] (record { db = taken; reporter = opened; discarded = false })
        refl) in
    let two = goes_on one (
      wakes ((first_page, 12) ∷ [])
        (record { db = taken; reporter = page 50 first_page 12 opened; discarded = false })) in
    let three = goes_on two (
      beside ((first_page, 12) ∷ [])
        (record { db = taken; reporter = wake (page 50 first_page 12 opened); discarded = false })
        beaten (beats 1 w1 (codes "s") 15 taken) tt) in
    goes_on three (
      goes_unheard (row_one ∷ []) half ((first_page, 12) ∷ [])
        (record { db = beaten; reporter = wake (page 50 first_page 12 opened); discarded = false })
        refl half_inserted)

run_whole : Run 3 1 w1 50 pages job_whole
unfolding page page_row wake close start_flush insert_raised insert_returned
run_whole =
    let one = goes_on run_half (reports second_page 20 ((first_page, 12) ∷ []) job_half refl) in
    let two = goes_on one (
      drains pages (record {
        db = half;
        reporter = page 50 second_page 20 job_half.reporter;
        discarded = false;
      })) in
    goes_on two (
      lands (row_one ∷ row_two ∷ []) whole pages
        (record {
          db = half;
          reporter = close (page 50 second_page 20 job_half.reporter);
          discarded = false;
        })
        refl both_inserted)

run-Prefix_example :
    (stored_row.state ≡ running)
    × ((rest : List PageRow) × (stored 1 half.pages ++ rest ≡ numbered 0 ((first_page, 12) ∷ [])))
unfolding get first select text_eq
run-Prefix_example = run-Prefix {m = 3} stored_row (omega arith) run_half refl refl

finish_complete_example :
    (stored 1 ended.pages ≡ numbered 0 pages)
    × ((r : CrawlRow) × (get 1 ended ≡ some r) × (r.state ≡ finished))
unfolding finish first select update returning text_eq page wake close start_flush insert_raised
    insert_returned
finish_complete_example =
    finish_complete {m = 3} finished (codes "t") none 30 ended (omega arith) run_whole refl refl
      refl

abbrev config : CrawlConfig
config = record {
  concurrency = pos 10;
  timeout = seconds 10;
  max_pages = none;
  max_bytes = pos 1000;
  request_budget = seconds 60;
  respect_robots = true;
  max_seed_redirects = pos 5;
  failure_fuse = pos 20;
}

abbrev ended_row : CrawlRow
ended_row = record stored_row { state = finished; finished_at = some 30; stats = some (codes "t") }

run_job_complete_example :
    IsBuilt 1 w1 (codes "t") 30 (built config)
    × Completed 1 w1 (codes "t") 30 (completed false none)
    × ((((watched [] started).interrupt ≡ some lease_lost) × (ended ≡ job_whole.db))
        ⊎ (stored 1 ended.pages ≡ numbered 0 pages))
unfolding finish first select update returning text_eq page wake close start_flush insert_raised
    insert_returned run_job watched end_job record_end outcome_of with_flush_error drain_interrupt
    drain_error get
run_job_complete_example =
    run_job_complete {m = 3} (codes "t") 30 (built config) [] (completed false none) ended ended_row
      (omega arith) run_whole refl refl refl refl refl
