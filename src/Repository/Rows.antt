-- ===== src/Repository/Rows.antt =====
-- src/url_crawler_service/orm.py and models.py: the rows of the two tables, and the statements of SQL
-- that repository.py composes. Times are numbers of one unit, and an id is a number.
use url_crawler.Base.{
  ℕ, List, [], ◌∷◌, Option, none, some, Bool, true, false, Text, text_eq, if◌then◌else◌,
}

pub data CrawlState : Type 0 where
  queued running finished failed aborted : CrawlState

-- `Crawl`; `config` and `stats` are JSON texts.
pub record CrawlRow : Type 0 where
  pub id : ℕ
  pub seed : Text
  pub config : Text
  pub state : CrawlState
  pub created_at : ℕ
  pub started_at : Option ℕ
  pub finished_at : Option ℕ
  pub heartbeat_at : Option ℕ
  pub worker_id : Option Text
  pub attempts : ℕ
  pub cancel_requested : Bool
  pub stats : Option Text
  pub error : Option Text

-- `PageRow`.
pub record PageRow : Type 0 where
  pub seq : ℕ
  pub url : Text
  pub status : Option ℕ
  pub error_kind : Option Text
  pub error_message : Option Text
  pub links : List Text
  pub fetched_at : ℕ

-- `Page`: a row under the id of its crawl.
pub record Page : Type 0 where
  pub crawl_id : ℕ
  pub row : PageRow

pub record Db : Type 0 where
  pub crawls : List CrawlRow
  pub pages : List Page

abbrev pub is_queued : CrawlState → Bool
is_queued queued = true
is_queued _ = false

abbrev pub is_running : CrawlState → Bool
is_running running = true
is_running _ = false

-- `state in TERMINAL_STATES`.
abbrev pub is_terminal : CrawlState → Bool
is_terminal finished = true
is_terminal failed = true
is_terminal aborted = true
is_terminal _ = false

-- `Crawl.worker_id == worker_id`, which is not true of NULL.
abbrev pub owned_by : Text → Option Text → Bool
owned_by worker none = false
owned_by worker (some w) = text_eq w worker

-- `update(Crawl).where(p).values(...)`.
unfoldable pub update : (CrawlRow → Bool) → (CrawlRow → CrawlRow) → List CrawlRow → List CrawlRow
update p f [] = []
update p f (r ∷ rs) = (if p r then f r else r) ∷ update p f rs

-- `.returning(...)` of the same statement: the changed rows.
unfoldable pub returning : (CrawlRow → Bool) → (CrawlRow → CrawlRow) → List CrawlRow → List CrawlRow
returning p f [] = []
returning p f (r ∷ rs) = if p r then f r ∷ returning p f rs else returning p f rs

-- `.first()` and, on a key, `.one_or_none()`.
unfoldable pub first {ℓ} : {A : Type ℓ} → List A → Option A
first [] = none
first (x ∷ xs) = some x

-- `.order_by(...)`, which keeps the order of the table among equals.
unfoldable pub insert_by {ℓ} : {A : Type ℓ} → (A → A → Bool) → A → List A → List A
insert_by before x [] = x ∷ []
insert_by before x (y ∷ ys) = if before x y then x ∷ y ∷ ys else y ∷ insert_by before x ys

unfoldable pub order_by {ℓ} : {A : Type ℓ} → (A → A → Bool) → List A → List A
unfolding insert_by
order_by before [] = []
order_by before (x ∷ xs) = insert_by before x (order_by before xs)
