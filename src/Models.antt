-- ===== src/Models.antt =====
-- src/url_crawler/models.py: the values that the crawler's parts exchange, and the run's counters.
use url_crawler.Base.{ℕ, ◌+◌, ◌≡◌, List, [], ◌∷◌, Option, arith, Text, codes, ◌==◌, if◌then◌else◌}

pub data FetchErrorKind : Type 0 where
  timeout connection http_status unsupported_content : FetchErrorKind
  too_large invalid_url protocol internal : FetchErrorKind

-- A kind is a `StrEnum` member: equal exactly when its value is.
abbrev pub kind_code : FetchErrorKind → ℕ
kind_code timeout = 0
kind_code connection = 1
kind_code http_status = 2
kind_code unsupported_content = 3
kind_code too_large = 4
kind_code invalid_url = 5
kind_code protocol = 6
kind_code internal = 7

abbrev pub kind_value : FetchErrorKind → Text
kind_value timeout = codes "timeout"
kind_value connection = codes "connection"
kind_value http_status = codes "http_status"
kind_value unsupported_content = codes "unsupported_content"
kind_value too_large = codes "too_large"
kind_value invalid_url = codes "invalid_url"
kind_value protocol = codes "protocol"
kind_value internal = codes "internal"

pub record FetchResult : Type 0 where
  pub url : Text
  pub status : ℕ
  pub body : Text
  pub content_type : Text
  pub location : Option Text
  pub attempts : ℕ

pub record FetchError : Type 0 where
  pub url : Text
  pub kind : FetchErrorKind
  pub status : Option ℕ
  pub message : Text
  pub attempts : ℕ

-- `FetchResult | FetchError`.
pub data Fetched : Type 0 where
  fetched : FetchResult → Fetched
  failed : FetchError → Fetched

pub record PageResult : Type 0 where
  pub url : Text
  pub status : Option ℕ
  pub links : List Text
  pub error : Option FetchError

-- `Counter[str]`, in the order of insertion.
abbrev pub Counter : Type 0
Counter = List (FetchErrorKind × ℕ)

-- `counter[kind] += 1`.
unfoldable pub increment : FetchErrorKind → Counter → Counter
increment kind [] = (kind, 1) ∷ []
increment kind ((k, n) ∷ rest) =
    if kind_code k == kind_code kind then (k, n + 1) ∷ rest else (k, n) ∷ increment kind rest

-- `sum(counter.values())`.
unfoldable pub sum_values : Counter → ℕ
sum_values [] = 0
sum_values ((k, n) ∷ rest) = n + sum_values rest

pub record CrawlStats : Type 0 where
  pub pages_ok : ℕ
  pub pages_failed : Counter
  pub pages_without_links : ℕ
  pub redirects : ℕ
  pub links_found : ℕ
  pub duplicates_dropped : ℕ
  pub retries : ℕ

abbrev pub no_stats : CrawlStats
no_stats = record {
  pages_ok = 0;
  pages_failed = [];
  pages_without_links = 0;
  redirects = 0;
  links_found = 0;
  duplicates_dropped = 0;
  retries = 0;
}

unfoldable pub pages_total : CrawlStats → ℕ
pages_total stats = stats.pages_ok + sum_values stats.pages_failed

-- One more failure of any kind is one more in the sum.
pub sum_values-increment :
    (kind : FetchErrorKind) (c : Counter) → sum_values (increment kind c) ≡ sum_values c + 1
unfolding sum_values increment
sum_values-increment kind [] = omega arith
sum_values-increment kind ((k, n) ∷ rest) = ground (arith, sum_values-increment kind rest)

-- The entries of `summary`, with the rounded time in milliseconds.
pub record Summary : Type 0 where
  pub pages_ok : ℕ
  pub pages_failed : Counter
  pub pages_without_links : ℕ
  pub redirects : ℕ
  pub links_found : ℕ
  pub duplicates_dropped : ℕ
  pub retries : ℕ
  pub pages_total : ℕ
  pub elapsed_milliseconds : ℕ

abbrev pub summary : CrawlStats → ℕ → Summary
summary stats elapsed = record {
  pages_ok = stats.pages_ok;
  pages_failed = stats.pages_failed;
  pages_without_links = stats.pages_without_links;
  redirects = stats.redirects;
  links_found = stats.links_found;
  duplicates_dropped = stats.duplicates_dropped;
  retries = stats.retries;
  pages_total = pages_total stats;
  elapsed_milliseconds = elapsed;
}
