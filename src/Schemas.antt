-- ===== src/Schemas.antt =====
-- src/url_crawler_service/schemas.py: the bodies of the API, what it accepts of a request, and the
-- configuration that a worker builds from it. Pydantic's constraints are comparisons; a NaN, which is
-- not comparable, passes them here.
pub mod Built
use url_crawler.Base.{
  ℕ, List, Option, none, some, Bool, true, not, ◌&&◌, Text, codes, Result, ok, raise, value_error,
  ◌>>=◌, if◌then◌else◌,
}
use url_crawler.Config.Floats.{ℤ, pos, int_lt, Float, seconds, zero_float, float_le, float_lt}
use url_crawler.Config.{CrawlConfig, too_few, post_init}
use url_crawler.Repository.Rows.{CrawlState, CrawlRow, Page}
use url_crawler.Urls.Parse.{Unicode}
use url_crawler.Urls.{normalize, prepare_seed}

pub record CrawlCreate : Type 0 where
  pub seed : Text
  pub concurrency : ℤ
  pub timeout : Float
  pub max_pages : Option ℤ
  pub max_bytes : ℤ
  pub respect_robots : Bool

-- `Field(ge=1, le=most)`.
abbrev pub one_to : ℕ → ℤ → Bool
one_to most n = not (int_lt n (pos 1)) && not (int_lt (pos most) n)

-- `Field(gt=0, le=MAX_TIMEOUT_SECONDS)`.
abbrev pub short_timeout : Float → Bool
short_timeout timeout = not (float_le timeout zero_float) && not (float_lt (seconds 60) timeout)

-- The constraints of the fields; `DEFAULTS.request_budget` is 60 seconds.
unfoldable pub accepts : CrawlCreate → Bool
unfolding int_lt float_le float_lt
accepts body =
    one_to 50 body.concurrency
    && (short_timeout body.timeout
        && (not (too_few body.max_pages) && one_to 100000000 body.max_bytes))

-- The message leaves the seed out.
abbrev pub or_not_crawlable : Option Text → Result Text
or_not_crawlable none = raise (value_error (codes "not a crawlable http(s) URL"))
or_not_crawlable (some normalized) = ok normalized

unfoldable pub normalized_seed : Unicode → CrawlCreate → Result Text
unfolding prepare_seed normalize
normalized_seed u body = prepare_seed body.seed >>= λ seed. or_not_crawlable (normalize u seed)

-- The dictionary that is stored.
pub record StoredConfig : Type 0 where
  pub concurrency : ℤ
  pub timeout : Float
  pub max_pages : Option ℤ
  pub max_bytes : ℤ
  pub respect_robots : Bool

abbrev pub to_config : CrawlCreate → StoredConfig
to_config body = record {
  concurrency = body.concurrency;
  timeout = body.timeout;
  max_pages = body.max_pages;
  max_bytes = body.max_bytes;
  respect_robots = body.respect_robots;
}

-- `CrawlConfig(**config)`: the fields that are not given have their defaults.
abbrev pub with_defaults : StoredConfig → CrawlConfig
with_defaults c = record {
  concurrency = c.concurrency;
  timeout = c.timeout;
  max_pages = c.max_pages;
  max_bytes = c.max_bytes;
  request_budget = seconds 60;
  respect_robots = c.respect_robots;
  max_seed_redirects = pos 5;
  failure_fuse = pos 20;
}

unfoldable pub build_config : StoredConfig → Result CrawlConfig
unfolding post_init
build_config c = post_init (with_defaults c)

pub record CrawlOut : Type 0 where
  pub id : ℕ
  pub seed : Text
  pub state : CrawlState
  pub config : Text
  pub created_at : ℕ
  pub started_at : Option ℕ
  pub finished_at : Option ℕ
  pub attempts : ℕ
  pub cancel_requested : Bool
  pub stats : Option Text
  pub error : Option Text

-- `CrawlOut.model_validate(crawl)`.
abbrev pub crawl_out : CrawlRow → CrawlOut
crawl_out r = record {
  id = r.id;
  seed = r.seed;
  state = r.state;
  config = r.config;
  created_at = r.created_at;
  started_at = r.started_at;
  finished_at = r.finished_at;
  attempts = r.attempts;
  cancel_requested = r.cancel_requested;
  stats = r.stats;
  error = r.error;
}

pub record CrawlErrorOut : Type 0 where
  pub kind : Text
  pub message : Option Text

pub record PageOut : Type 0 where
  pub seq : ℕ
  pub url : Text
  pub status : Option ℕ
  pub error : Option CrawlErrorOut
  pub links : List Text
  pub fetched_at : ℕ

abbrev pub error_out : Option Text → Option Text → Option CrawlErrorOut
error_out none message = none
error_out (some kind) message = some (record { kind = kind; message = message })

abbrev pub from_orm_row : Page → PageOut
from_orm_row page = record {
  seq = page.row.seq;
  url = page.row.url;
  status = page.row.status;
  error = error_out page.row.error_kind page.row.error_message;
  links = page.row.links;
  fetched_at = page.row.fetched_at;
}

pub record PageList : Type 0 where
  pub items : List PageOut
  pub next_after : Option ℕ

pub record CancelOut : Type 0 where
  pub id : ℕ
  pub state : CrawlState
