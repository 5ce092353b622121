-- ===== src/Config.antt =====
-- src/url_crawler/config.py: `CrawlConfig.__post_init__`, and the floats of this and of
-- settings.py and schemas.py. A float is an integer of a small unit, an infinity or not a number, with
-- the comparisons of Python, which are all false of a NaN.
pub mod Floats
pub mod Valid
mod Examples
use url_crawler.Base.{
  ℕ, Option, none, some, Bool, true, false, not, ◌||◌, Text, codes, Exn, Result, ok, raise,
  value_error, ◌>>=◌, ◌>>◌, check, if◌then◌else◌,
}
use Floats.{ℤ, pos, Float, zero_float, float_le, float_lt, int_lt}

-- All fields are checked; `int` fields may be negative before that.
pub record CrawlConfig : Type 0 where
  pub concurrency : ℤ
  pub timeout : Float
  pub max_pages : Option ℤ
  pub max_bytes : ℤ
  pub request_budget : Float
  pub respect_robots : Bool
  pub max_seed_redirects : ℤ
  pub failure_fuse : ℤ

-- One `if` of the method: the message names the field, and leaves out the value.
abbrev pub refuse : Bool → Text → Result (Unit {0})
refuse b message = check b (value_error message)

abbrev pub too_few : Option ℤ → Bool
too_few none = false
too_few (some n) = int_lt n (pos 1)

unfoldable pub post_init : CrawlConfig → Result CrawlConfig
post_init c = do
  refuse (int_lt c.concurrency (pos 1)) (codes "concurrency must be >= 1")
  refuse (float_le c.timeout zero_float) (codes "timeout must be > 0")
  refuse (too_few c.max_pages) (codes "max_pages must be >= 1 when set")
  refuse (int_lt c.max_bytes (pos 1)) (codes "max_bytes must be >= 1")
  refuse (float_le c.request_budget zero_float) (codes "request_budget must be > 0")
  refuse (float_lt c.request_budget c.timeout) (codes "request_budget must be >= timeout")
  refuse (int_lt c.max_seed_redirects (pos 0)) (codes "max_seed_redirects must be >= 0")
  refuse (int_lt c.failure_fuse (pos 1)) (codes "failure_fuse must be >= 1")
  ok c
