-- ===== src/Api.antt =====
-- src/url_crawler_service/api.py: the handlers of `create_app`, on the database of the repository. An
-- answer is a value, an `HTTPException`, or an exception that no handler catches.
mod Creation
mod Stream
mod Paging
mod Examples
use url_crawler.Base.{
  ℕ, List, [], ◌∷◌, ◌++◌, Option, none, some, Bool, true, false, not, ◌&&◌, Text, codes, map,
  length, Exn, value_error, Result, ok, raise, ◌==◌, leb, decimal, if◌then◌else◌,
}
use url_crawler.Repository.Rows.{CrawlState, CrawlRow, Page, Db, is_terminal}
use url_crawler.Repository.Listing.{list_recent, list_pages, pages_after}
use url_crawler.Repository.{create, get, request_cancel}
use url_crawler.Schemas.{
  CrawlCreate, normalized_seed, StoredConfig, to_config, accepts, CrawlOut, crawl_out, PageOut,
  from_orm_row, PageList, CancelOut,
}
use url_crawler.Urls.Parse.{Unicode}

pub data Answer {ℓ} (A : Type ℓ) : Type ℓ where
  answered : A → Answer A
  http_error : ℕ → Text → Answer A
  crashed : Exn → Answer A

abbrev pub not_found {ℓ} : {A : Type ℓ} → Answer A
not_found = http_error 404 (codes "crawl not found")

-- FastAPI's answer to a parameter or a body that its constraints refuse.
abbrev pub unprocessable {ℓ} : {A : Type ℓ} → Answer A
unprocessable = http_error 422 (codes "validation")

abbrev pub within : ℕ → ℕ → Bool
within most limit = leb 1 limit && leb limit most

abbrev pub or_404 {ℓ} : {A : Type ℓ} → Option CrawlRow → (CrawlRow → Answer A) → Answer A
or_404 none k = not_found
or_404 (some r) k = k r

-- `get_or_404`.
unfoldable pub get_or_404 : ℕ → Db → Answer CrawlRow
unfolding get
get_or_404 id db = or_404 (get id db) answered

unfoldable pub get_crawl : ℕ → Db → Answer CrawlOut
unfolding get
get_crawl id db = or_404 (get id db) (λ r. answered (crawl_out r))

unfoldable pub list_crawls : Option CrawlState → ℕ → Db → Answer (List CrawlOut)
unfolding list_recent
list_crawls state limit db =
    if within 200 limit
    then answered (map crawl_out (list_recent state limit db))
    else unprocessable

-- `items[-1].seq`.
unfoldable pub last_seq : List PageOut → Option ℕ
last_seq [] = none
last_seq (item ∷ []) = some item.seq
last_seq (item ∷ other ∷ items) = last_seq (other ∷ items)

abbrev pub page_list : ℕ → List PageOut → PageList
page_list limit items = record {
  items = items;
  next_after = if length items == limit then last_seq items else none;
}

unfoldable pub list_crawl_pages : ℕ → ℕ → ℕ → Db → Answer PageList
unfolding get list_pages last_seq
list_crawl_pages id after limit db =
    if within 500 limit
    then or_404 (get id db)
        (λ r. answered (page_list limit (map from_orm_row (list_pages id after limit db))))
    else unprocessable

abbrev pub or_cancelled : ℕ → Option CrawlState → Answer CancelOut
or_cancelled id none = not_found
or_cancelled id (some state) = answered (record { id = id; state = state })

unfoldable pub cancel_crawl : ℕ → ℕ → Db → Answer CancelOut × Db
unfolding request_cancel
cancel_crawl id now db =
    let (state, after) = request_cancel id now db in (or_cancelled id state, after)

-- `ping` returns or raises.
abbrev pub healthz : Result (Unit {0}) → Answer (Unit {0})
healthz (ok _) = answered tt
healthz (raise e) = http_error 503 (codes "database unavailable")

-- What a created crawl is answered with: the `Location` and the body.
abbrev pub Created : Type 0
Created = Text × CrawlOut

abbrev pub seed_error : Exn → Answer Created
seed_error (value_error message) = http_error 422 message
seed_error e = crashed e

-- `guard` is `private_host_reason`, `dump` the JSONB of the stored dictionary or the database's refusal of
-- it, as of a NaN, and `id` a `uuid4`.
module _ (u : Unicode) (guard : Text → Result (Option Text))
    (dump : StoredConfig → Result Text) where
  unfoldable pub store : Text → CrawlCreate → ℕ → ℕ → Db → Answer Created × Db
  unfolding create decimal
  store seed body id now db = elim (dump (to_config body)) [
    | raise e ↦ (crashed e, db)
    | ok config ↦
        let (row, after) = create id seed config now db in
        (answered (codes "/crawls/" ++ decimal row.id, crawl_out row), after)
  ]

  unfoldable pub unless_rejected :
      Text → Result (Option Text) → CrawlCreate → ℕ → ℕ → Db → Answer Created × Db
  unfolding store
  unless_rejected seed (raise e) body id now db = (crashed e, db)
  unless_rejected seed (ok (some reason)) body id now db = (http_error 422 reason, db)
  unless_rejected seed (ok none) body id now db = store seed body id now db

  unfoldable pub with_seed : Result Text → CrawlCreate → ℕ → ℕ → Db → Answer Created × Db
  unfolding unless_rejected
  with_seed (raise e) body id now db = (seed_error e, db)
  with_seed (ok seed) body id now db = unless_rejected seed (guard seed) body id now db

  -- A body that `CrawlCreate` refuses does not reach the handler.
  unfoldable pub create_crawl : CrawlCreate → ℕ → ℕ → Db → Answer Created × Db
  unfolding with_seed normalized_seed accepts
  create_crawl body id now db =
      if accepts body
      then with_seed (normalized_seed u body) body id now db
      else (unprocessable, db)

-- The server-sent events: the states of the database at the reads of the loop, one at each round.
pub data Event : Type 0 where
  stats : CrawlOut → Event
  end : Event

unfoldable pub events : ℕ → List Db → List Event
unfolding get
events id [] = []
events id (db ∷ later) =
    let rest = events id later in
    elim (get id db) [
      | none ↦ end ∷ []
      | some r ↦ stats (crawl_out r) ∷ (if is_terminal r.state then end ∷ [] else rest)
    ]

-- `stream_crawl_events` on the database at the request, and those at the reads.
unfoldable pub stream_crawl_events : ℕ → Db → List Db → Answer (List Event)
unfolding get events
stream_crawl_events id db reads = or_404 (get id db) (λ r. answered (events id reads))
