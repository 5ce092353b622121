-- ===== src/Service.antt =====
-- A crawl's pages on their way to the table: the `DbReporter` of a job (reporter.py) over the repository
-- (repository.py), while other workers and the API write to the same database
-- (src/url_crawler_service).
pub mod Stored
pub mod Foreign
pub mod Numbers
pub mod Invariant
pub mod Served
pub mod Finished
mod Ended
mod Examples
use url_crawler.Base.{
  ℕ, ◌+◌, List, [], ◌∷◌, ◌++◌, Option, none, some, Bool, true, false, ◌≡◌, Text, text_eq,
}
use url_crawler.Models.{PageResult}
use url_crawler.Repository.Rows.{PageRow, CrawlRow, Db}
use url_crawler.Repository.{claim, insert_pages}
use url_crawler.Repository.Steps.{
  Step, creates, claims, beats, finishes, hands_back, reaps, cancels, inserts, Reach,
}
use url_crawler.DbReporter.{
  DbReporter, opened, page_row, page, wake, close, insert_returned, insert_raised, discard,
}

pub record Job : Type 0 where
  pub db : Db
  pub reporter : DbReporter
  -- The worker has given up the lease and thrown the buffer away.
  pub discarded : Bool

-- A transaction that is not the worker's own claim, final write or page batch. Its heartbeats are among
-- these.
abbrev pub IsForeign : Text → {m : ℕ} {db after : Db} → Step m db after → Type 0
IsForeign worker (claims other now locked db) = text_eq other worker ≡ false
IsForeign worker (finishes id other state stats error now db after recorded e) =
    text_eq other worker ≡ false
IsForeign worker (inserts id other rows db after e) = text_eq other worker ≡ false
IsForeign worker s = Unit {0}

-- What may happen while a job runs: the crawl reports a page, the flusher wakes or `close` is called,
-- the insert that is awaited is committed and returns, is committed and its acknowledgement is lost, or
-- fails, any other transaction, and, after the crawl's last page, the `discard` of a worker that gives up
-- its lease.
pub data JobStep (m id : ℕ) (worker : Text) (batch_size : ℕ)
    : List (PageResult × ℕ) → Job → List (PageResult × ℕ) → Job → Type 0 where
  reports :
      (result : PageResult) (now : ℕ) (pages : List (PageResult × ℕ)) (j : Job)
      → j.discarded ≡ false
      → JobStep m id worker batch_size pages j
          (pages ++ (result, now) ∷ [])
          (record j { reporter = page batch_size result now j.reporter })
  wakes :
      (pages : List (PageResult × ℕ)) (j : Job)
      → JobStep m id worker batch_size pages j pages (record j { reporter = wake j.reporter })
  drains :
      (pages : List (PageResult × ℕ)) (j : Job)
      → JobStep m id worker batch_size pages j pages (record j { reporter = close j.reporter })
  lands :
      (rows : List PageRow) (after : Db) (pages : List (PageResult × ℕ)) (j : Job)
      → j.reporter.writing ≡ some rows
      → insert_pages id worker rows j.db ≡ some after
      → JobStep m id worker batch_size pages j pages
          (record j { db = after; reporter = insert_returned j.reporter })
  goes_unheard :
      (rows : List PageRow) (after : Db) (pages : List (PageResult × ℕ)) (j : Job)
      → j.reporter.writing ≡ some rows
      → insert_pages id worker rows j.db ≡ some after
      → JobStep m id worker batch_size pages j pages
          (record j { db = after; reporter = insert_raised j.reporter })
  fails :
      (pages : List (PageResult × ℕ)) (j : Job)
      → JobStep m id worker batch_size pages j pages
          (record j { reporter = insert_raised j.reporter })
  gives_up :
      (pages : List (PageResult × ℕ)) (j : Job)
      → JobStep m id worker batch_size pages j pages
          (record j { reporter = discard j.reporter; discarded = true })
  beside :
      (pages : List (PageResult × ℕ)) (j : Job) (after : Db) (s : Step m j.db after)
      → IsForeign worker s
      → JobStep m id worker batch_size pages j pages (record j { db = after })

-- A job from its claim on, with the pages that its crawl has reported.
pub data Run (m id : ℕ) (worker : Text) (batch_size : ℕ)
    : List (PageResult × ℕ) → Job → Type 0 where
  begun :
      (now : ℕ) (locked : ℕ → Bool) (db : Db) (r : CrawlRow)
      → Reach m db
      → (claim worker now locked db).0 ≡ some r
      → r.id ≡ id
      → Run m id worker batch_size []
          (record { db = (claim worker now locked db).1; reporter = opened; discarded = false })
  goes_on :
      {pages more : List (PageResult × ℕ)} {j k : Job}
      → Run m id worker batch_size pages j
      → JobStep m id worker batch_size pages j more k
      → Run m id worker batch_size more k

-- The rows of pages, numbered after `n`.
unfoldable pub numbered : ℕ → List (PageResult × ℕ) → List PageRow
numbered n [] = []
numbered n ((result, now) ∷ pages) = page_row (n + 1) result now ∷ numbered (n + 1) pages
