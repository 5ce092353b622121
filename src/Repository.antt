-- ===== src/Repository.antt =====
-- src/url_crawler_service/repository.py: `CrawlRepository`. Each method is one transaction, so it is
-- one step from a database to the next; `now` is the database's clock at its start.
pub mod Rows
pub mod Statements
pub mod Fencing
pub mod Reaping
pub mod Claiming
mod Pages
pub mod Ordered
pub mod Paging
pub mod Listing
pub mod PageKeys
pub mod Steps
pub mod Sound
pub mod Lifecycle
pub mod Transitions
mod Examples
use url_crawler.Base.{
  ℕ, ◌+◌, ◌-◌, List, [], ◌∷◌, ◌++◌, Option, none, some, Bool, true, false, not, ◌&&◌, ◌||◌, Text,
  codes, Result, ok, raise, value_error, unexpected, text_eq, ltb, leb, ◌==◌, if◌then◌else◌, select,
  any, length, take,
}
use Rows.{
  CrawlState, queued, running, finished, failed, aborted, CrawlRow, PageRow, Page, Db, is_queued,
  is_running, is_terminal, owned_by, update, returning, first,
}

-- `uuid4` gives the id.
unfoldable pub create : ℕ → Text → Text → ℕ → Db → CrawlRow × Db
create id seed config now db = (row, record db { crawls = db.crawls ++ row ∷ [] })
  where
    row : CrawlRow
    row = record {
      id = id;
      seed = seed;
      config = config;
      state = queued;
      created_at = now;
      started_at = none;
      finished_at = none;
      heartbeat_at = none;
      worker_id = none;
      attempts = 0;
      cancel_requested = false;
      stats = none;
      error = none;
    }

unfoldable pub get : ℕ → Db → Option CrawlRow
get id db = first (select (λ r. r.id == id) db.crawls)

-- `order_by(Crawl.created_at).limit(1)`: the first of the oldest.
unfoldable pub oldest : List CrawlRow → Option CrawlRow
oldest [] = none
oldest (r ∷ rs) = elim (oldest rs) [
  | none ↦ some r
  | some s ↦ some (if leb r.created_at s.created_at then r else s)
]

abbrev pub claimed_row : Text → ℕ → ℕ → CrawlRow → CrawlRow
claimed_row worker attempts now r = record r {
  state = running;
  started_at = some now;
  heartbeat_at = some now;
  worker_id = some worker;
  attempts = attempts + 1;
}

-- The two writes of `claim` on the row that it selected.
unfoldable pub take_row : Text → ℕ → Db → CrawlRow → Option CrawlRow × Db
take_row worker now db row =
    let p = λ (r : CrawlRow). r.id == row.id in
    let f = claimed_row worker row.attempts now in
    (
      first (returning p f db.crawls),
      record db {
        crawls = update p f db.crawls;
        pages = select (λ page. not (page.crawl_id == row.id)) db.pages;
      },
    )

-- `locked` are the rows that other transactions hold, which SKIP LOCKED passes over.
unfoldable pub claim : Text → ℕ → (ℕ → Bool) → Db → Option CrawlRow × Db
unfolding take_row oldest
claim worker now locked db =
    elim (oldest (select (λ r. is_queued r.state && not (locked r.id)) db.crawls)) [
      | none ↦ (none, db)
      | some row ↦ take_row worker now db row
    ]

-- `Crawl.id == crawl_id` and `Crawl.worker_id == worker_id`.
abbrev pub owns : ℕ → Text → CrawlRow → Bool
owns id worker r = r.id == id && owned_by worker r.worker_id

abbrev pub leases : ℕ → Text → CrawlRow → Bool
leases id worker r = owns id worker r && is_running r.state

abbrev pub flag_of : Option CrawlRow → Option Bool
flag_of none = none
flag_of (some r) = some r.cancel_requested

abbrev pub beat : Text → ℕ → CrawlRow → CrawlRow
beat stats now r = record r { heartbeat_at = some now; stats = some stats }

-- `none` means that the lease is gone.
unfoldable pub heartbeat : ℕ → Text → Text → ℕ → Db → Option Bool × Db
heartbeat id worker stats now db = (
  flag_of (first (returning (leases id worker) (beat stats now) db.crawls)),
  record db { crawls = update (leases id worker) (beat stats now) db.crawls },
)

abbrev pub is_some {ℓ} : {A : Type ℓ} → Option A → Bool
is_some none = false
is_some (some a) = true

abbrev pub closed_row : CrawlState → Text → Option Text → ℕ → CrawlRow → CrawlRow
closed_row state stats error now r = record r {
  state = state;
  finished_at = some now;
  stats = some stats;
  error = error;
}

unfoldable pub finish : ℕ → Text → CrawlState → Text → Option Text → ℕ → Db → Result (Bool × Db)
finish id worker state stats error now db =
    let f = closed_row state stats error now in
    if is_terminal state
    then ok (
      is_some (first (returning (owns id worker) f db.crawls)),
      record db { crawls = update (owns id worker) f db.crawls },
    )
    else raise (value_error (codes "not a terminal state"))

abbrev pub releases : ℕ → Text → CrawlRow → Bool
releases id worker r = owns id worker r && not r.cancel_requested

-- `func.greatest(Crawl.attempts - 1, 0)` is the truncated difference.
abbrev pub released : CrawlRow → CrawlRow
released r = record r {
  state = queued;
  worker_id = none;
  heartbeat_at = none;
  attempts = r.attempts - 1;
}

unfoldable pub release : ℕ → Text → Db → Bool × Db
release id worker db = (
  is_some (first (returning (releases id worker) released db.crawls)),
  record db { crawls = update (releases id worker) released db.crawls },
)

-- `Crawl.heartbeat_at < func.now() - lease`.
abbrev pub is_stale : ℕ → ℕ → Option ℕ → Bool
is_stale lease now none = false
is_stale lease now (some at) = ltb (at + lease) now

abbrev pub is_expired : ℕ → ℕ → CrawlRow → Bool
is_expired lease now r = is_running r.state && is_stale lease now r.heartbeat_at

abbrev pub abort_row : ℕ → CrawlRow → CrawlRow
abort_row now r = record r {
  state = aborted;
  worker_id = none;
  finished_at = some now;
  error = some (codes "cancelled by request");
}

abbrev pub requeue_row : CrawlRow → CrawlRow
requeue_row r = record r { state = queued; worker_id = none; heartbeat_at = none }

abbrev pub fail_row : ℕ → CrawlRow → CrawlRow
fail_row now r = record r {
  state = failed;
  worker_id = none;
  finished_at = some now;
  error = some (codes "worker lost");
}

-- One statement of `reap`, which adds the number of its rows.
unfoldable pub settle_rows :
    (CrawlRow → Bool) → (CrawlRow → CrawlRow) → ℕ × List CrawlRow → ℕ × List CrawlRow
settle_rows p f (touched, rows) = (touched + length (returning p f rows), update p f rows)

unfoldable pub reap_rows : ℕ → ℕ → ℕ → List CrawlRow → ℕ × List CrawlRow
unfolding settle_rows
reap_rows lease max_attempts now rows = settle_rows (is_expired lease now) (fail_row now) (
    settle_rows (λ r. is_expired lease now r && ltb r.attempts max_attempts) requeue_row
      (settle_rows (λ r. is_expired lease now r && r.cancel_requested) (abort_row now) (0, rows)))

unfoldable pub reap : ℕ → ℕ → ℕ → Db → ℕ × Db
unfolding reap_rows
reap lease max_attempts now db =
    let (touched, rows) = reap_rows lease max_attempts now db.crawls in
    (touched, record db { crawls = rows })

abbrev pub cancel_row : ℕ → CrawlRow → CrawlRow
cancel_row now r = record r {
  state = aborted;
  finished_at = some now;
  error = some (codes "cancelled before start");
}

abbrev pub flag_row : CrawlRow → CrawlRow
flag_row r = record r { cancel_requested = true }

abbrev pub cancel_in : ℕ → ℕ → Db → CrawlState → Option CrawlState × Db
cancel_in id now db queued =
    (some aborted, record db { crawls = update (λ r. r.id == id) (cancel_row now) db.crawls })
cancel_in id now db running =
    (some running, record db { crawls = update (λ r. r.id == id) flag_row db.crawls })
cancel_in id now db state = (some state, db)

unfoldable pub request_cancel : ℕ → ℕ → Db → Option CrawlState × Db
unfolding get
request_cancel id now db = elim (get id db) [
  | none ↦ (none, db)
  | some r ↦ cancel_in id now db r.state
]

-- `on_conflict_do_nothing` on the key (crawl_id, seq).
unfoldable pub insert_page : ℕ → PageRow → List Page → List Page
insert_page id row pages =
    if any (λ page. page.crawl_id == id && page.row.seq == row.seq) pages
    then pages
    else pages ++ record { crawl_id = id; row = row } ∷ []

unfoldable pub insert_rows : ℕ → List PageRow → List Page → List Page
unfolding insert_page
insert_rows id [] pages = pages
insert_rows id (row ∷ rows) pages = insert_rows id rows (insert_page id row pages)

-- `none` is the `LeaseLostError`.
unfoldable pub insert_pages : ℕ → Text → List PageRow → Db → Option Db
unfolding insert_rows
insert_pages id worker [] db = some db
insert_pages id worker (row ∷ rows) db = elim (first (select (leases id worker) db.crawls)) [
  | none ↦ none
  | some r ↦ some (record db { pages = insert_rows id (row ∷ rows) db.pages })
]
