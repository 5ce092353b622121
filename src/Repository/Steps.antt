-- ===== src/Repository/Steps.antt =====
-- The databases that the transactions of src/url_crawler_service/repository.py lead to, in any order
-- and by any workers; `max_attempts` is the one setting of the reaper that all of them share.
use url_crawler.Base.{ℕ, List, [], Option, some, Bool, false, ◌≡◌, ◌==◌, Text, ok, any}
use url_crawler.Repository.Rows.{CrawlState, PageRow, Db}
use url_crawler.Repository.{
  create, claim, heartbeat, finish, release, reap, request_cancel, insert_pages,
}

pub data Step (max_attempts : ℕ) : Db → Db → Type 0 where
  creates :
      (id : ℕ) (seed config : Text) (now : ℕ) (db : Db)
      → any (λ r. r.id == id) db.crawls ≡ false
      → Step max_attempts db (create id seed config now db).1
  claims :
      (worker : Text) (now : ℕ) (locked : ℕ → Bool) (db : Db)
      → Step max_attempts db (claim worker now locked db).1
  beats :
      (id : ℕ) (worker stats : Text) (now : ℕ) (db : Db)
      → Step max_attempts db (heartbeat id worker stats now db).1
  finishes :
      (id : ℕ) (worker : Text) (state : CrawlState) (stats : Text) (error : Option Text) (now : ℕ)
      (db after : Db) (recorded : Bool)
      → finish id worker state stats error now db ≡ ok (recorded, after)
      → Step max_attempts db after
  hands_back : (id : ℕ) (worker : Text) (db : Db) → Step max_attempts db (release id worker db).1
  reaps : (lease now : ℕ) (db : Db) → Step max_attempts db (reap lease max_attempts now db).1
  cancels : (id now : ℕ) (db : Db) → Step max_attempts db (request_cancel id now db).1
  inserts :
      (id : ℕ) (worker : Text) (rows : List PageRow) (db after : Db)
      → insert_pages id worker rows db ≡ some after
      → Step max_attempts db after

abbrev pub empty_db : Db
empty_db = record { crawls = []; pages = [] }

pub data Reach (max_attempts : ℕ) : Db → Type 0 where
  here : Reach max_attempts empty_db
  next :
      {db after : Db}
      → Reach max_attempts db
      → Step max_attempts db after
      → Reach max_attempts after
