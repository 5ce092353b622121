-- ===== src/Crawler/State.antt =====
-- The attributes of src/url_crawler/crawler.py's `Crawler`, and the monad of its methods: a method
-- returns or raises, and what it did to the object before it raised stays done.
use url_crawler.Base.{
  ℕ, ◌+◌, ◌-◌, List, [], Option, none, Bool, true, false, Text, Result, ok, raise, Exn,
}
use url_crawler.Models.{FetchErrorKind, PageResult, CrawlStats, no_stats, increment}
use url_crawler.Frontier.{Frontier, empty}
use url_crawler.Crawler.Deps.{HostScope, RobotsPolicy}

-- `reported` holds the results that `reporter.page` was called with and `fetches` the URLs that
-- `fetcher.fetch` was called with, the latest first.
pub record Crawl : Type 0 where
  pub frontier : Frontier
  pub scope : Option HostScope
  pub robots : RobotsPolicy
  pub claimed : ℕ
  pub consecutive_failures : ℕ
  pub stopping : Bool
  pub aborted : Bool
  pub reason : Option Text
  pub delay_logged : Bool
  pub stats : CrawlStats
  pub reported : List PageResult
  pub fetches : List Text

-- robots.py `AllowAll`.
abbrev pub allow_all : RobotsPolicy
allow_all = record { crawl_delay = none; allows = λ _. ok true }

-- `Crawler.__init__`, with fresh counters.
abbrev pub new : Crawl
new = record {
  frontier = empty;
  scope = none;
  robots = allow_all;
  claimed = 0;
  consecutive_failures = 0;
  stopping = false;
  aborted = false;
  reason = none;
  delay_logged = false;
  stats = no_stats;
  reported = [];
  fetches = [];
}

abbrev pub M : Type 0 → Type 0
M A = Crawl → Result A × Crawl

abbrev pub continue : {A B : Type 0} → Result A × Crawl → (A → M B) → Result B × Crawl
continue (ok a, c) f = f a c
continue (raise e, c) f = (raise e, c)

infixl 5 ◌>>=◌ ◌>>◌
abbrev pub ◌>>=◌ : {A B : Type 0} → M A → (A → M B) → M B
◌>>=◌ m f c = continue (m c) f

abbrev pub ◌>>◌ : {B : Type 0} → M (Unit {0}) → M B → M B
◌>>◌ m k c = continue (m c) (λ _. k)

abbrev pub pure : {A : Type 0} → A → M A
pure a c = (ok a, c)

abbrev pub throw : {A : Type 0} → Exn → M A
throw e c = (raise e, c)

-- A call that may raise and does not touch the object.
abbrev pub lift : {A : Type 0} → Result A → M A
lift r c = (r, c)

abbrev pub modify : (Crawl → Crawl) → M (Unit {0})
modify f c = (ok tt, f c)

abbrev pub with_stats : (CrawlStats → CrawlStats) → Crawl → Crawl
with_stats f c = record c { stats = f c.stats }

-- `self._stats.retries += attempts - 1`; a fetch takes at least one attempt.
abbrev pub count_retries : ℕ → Crawl → Crawl
count_retries attempts = with_stats (λ s. record s { retries = s.retries + (attempts - 1) })

abbrev pub count_ok : Crawl → Crawl
count_ok = with_stats (λ s. record s { pages_ok = s.pages_ok + 1 })

abbrev pub count_failed : FetchErrorKind → Crawl → Crawl
count_failed kind = with_stats (λ s. record s { pages_failed = increment kind s.pages_failed })

abbrev pub count_redirect : Crawl → Crawl
count_redirect = with_stats (λ s. record s { redirects = s.redirects + 1 })

-- To prove of the state after a sequence: it holds after the first part, and the second keeps it.
pub continue-keeps {ℓ} :
    {A B : Type 0} (P : Crawl → Type ℓ) (x : Result A × Crawl) (f : A → M B)
    → P x.1
    → ((a : A) (c : Crawl) → P c → P (f a c).1)
    → P (continue x f).1
continue-keeps P (ok a, c) f h keep = keep a c h
continue-keeps P (raise e, c) f h keep = h

-- What holds of the state if the method returns.
abbrev pub After {ℓ} : {A : Type 0} → (Crawl → Type ℓ) → Result A × Crawl → Type ℓ
After P (ok a, c) = P c
After P (raise e, c) = Unit

pub After-intro {ℓ} : {A : Type 0} (P : Crawl → Type ℓ) (x : Result A × Crawl) → P x.1 → After P x
After-intro P (ok a, c) h = h
After-intro P (raise e, c) h = tt

pub continue-After {ℓ κ} :
    {A B : Type 0} (P : Crawl → Type ℓ) (R : Crawl → Type κ) (x : Result A × Crawl) (f : A → M B)
    → After P x
    → ((a : A) (c : Crawl) → P c → After R (f a c))
    → After R (continue x f)
continue-After P R (ok a, c) f h keep = keep a c h
continue-After P R (raise e, c) f h keep = tt
