-- ===== src/Worker/Examples.antt =====
-- A worker whose crawl is gone (src/url_crawler_service/worker.py).
use url_crawler.Worker.Run.{IsBuilt, built, run_job, watched, heartbeat_ends, run_job-Completed}
use url_crawler.Config.Floats.{pos, seconds}
use url_crawler.Config.{CrawlConfig}
use url_crawler.Worker.Claiming.{Round, fresh, run_forever, Spaced, run_forever-Spaced}
use url_crawler.Worker.Job.{drained, Completed, Delivered, end_job, end_job-Completed}
use url_crawler.Worker.FinalWrite.{write_terminal_state, Ended, write_terminal_state-Ended}
use url_crawler.Worker.Watch.{Beat, raised, called, Watched, watch, watch-Watched, alive}
use url_crawler.Repository.{owns, closed_row, finish}
use url_crawler.Base.{
  [], none, some, ◌≡◌, refl, ok, codes, any, ℕ, ◌+◌, ◌*◌, ◌==◌, if◌then◌else◌, List, ◌∷◌, Option,
  Bool, true, false, arith, text_eq,
}
use url_crawler.Repository.Rows.{
  CrawlState, finished, Db, CrawlRow, running, update, returning, first,
}
use url_crawler.Worker.{stopped, record_end, completed}
use url_crawler.Worker.Recording.{record_end-stranger}

abbrev empty_db : Db
empty_db = record { crawls = []; pages = [] }

record_end-stranger_example :
    (s : CrawlState) × (record_end 1 (codes "w1") [] 7 (some stopped) (finished, none) empty_db
      ≡ ok (s, empty_db))
unfolding any
record_end-stranger_example =
    record_end-stranger 1 (codes "w1") [] 7 (some stopped) finished none empty_db refl refl

-- One crawl that "w1" runs.
abbrev running_row : CrawlRow
running_row = record {
  id = 1;
  seed = codes "https://a.example/";
  config = codes "{}";
  state = running;
  created_at = 1;
  started_at = some 2;
  finished_at = none;
  heartbeat_at = some 2;
  worker_id = some (codes "w1");
  attempts = 1;
  cancel_requested = false;
  stats = none;
  error = none;
}

abbrev one_db : Db
one_db = record { crawls = running_row ∷ []; pages = [] }

abbrev beats : List Beat
beats = called one_db [] 3 10 ∷ raised 20 ∷ called empty_db [] 9 30 ∷ []

watch-Watched_example : Watched 1 (codes "w1") 30 5 beats (watch 1 (codes "w1") 30 5 beats)
watch-Watched_example = watch-Watched 1 (codes "w1") 30 5 beats

-- The second call returns.
abbrev calls : ℕ → Option Bool
calls n = if n == 0 then none else some true

abbrev ticking : ℕ → ℕ
ticking n = 100 + 5 * n

write_terminal_state-Ended_example :
    (r : Option Bool) × (write_terminal_state calls ticking 100 30 ≡ some r)
    × Ended calls ticking 100 30 r
write_terminal_state-Ended_example =
    write_terminal_state-Ended calls ticking 100 30 5 (omega arith) (omega arith) (λ n. omega arith)

after_db : Db
unfolding update text_eq
after_db = record {
  crawls = update (owns 1 (codes "w1")) (closed_row finished [] none 40) one_db.crawls;
  pages = [];
}

job_completed :
    Completed 1 (codes "w1") [] 40 (completed false none)
    × Delivered 1 (codes "w1") [] 40 drained one_db after_db
unfolding end_job finish after_db returning first text_eq record_end
job_completed =
    end_job-Completed 1 (codes "w1") [] 40 none (completed false none) drained one_db after_db refl

abbrev idle_round : ℕ → Round
idle_round clock = record {
  clock = clock;
  db = empty_db;
  now = clock;
  locked = λ id. false;
  reap_raises = none;
  claim_raises = none;
  run_job = λ row db. ok db;
}

reaps_apart :
    Spaced
      (codes "w1")
      30
      3
      (run_forever
        (codes "w1")
        30
        3
        (idle_round 5 ∷ idle_round 20 ∷ idle_round 40 ∷ [])
        fresh).reaps
reaps_apart =
    run_forever-Spaced (codes "w1") 30 3 (idle_round 5 ∷ idle_round 20 ∷ idle_round 40 ∷ [])

abbrev config : CrawlConfig
config = record {
  concurrency = pos 10;
  timeout = seconds 10;
  max_pages = none;
  max_bytes = pos 1000;
  request_budget = seconds 60;
  respect_robots = true;
  max_seed_redirects = pos 5;
  failure_fuse = pos 20;
}

finished_job :
    IsBuilt 1 (codes "w1") [] 40 (built config)
    × Completed 1 (codes "w1") [] 40 (completed false none)
    × Delivered 1 (codes "w1") [] 40 drained one_db after_db
unfolding run_job watched end_job finish after_db returning first text_eq record_end
finished_job =
    run_job-Completed 1 (codes "w1") [] 40 (built config) (heartbeat_ends (alive 5) ∷ [])
      (completed false none) drained one_db after_db refl
